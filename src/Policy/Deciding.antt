-- ===== src/Policy/Deciding.antt =====
-- Which rule decides, what the default is, and what a decision blocks.
use witseal.Prelude.{
  ◌≡◌, ◌≤◌, ◌↔◌, refl, subst, ap, sym, ◌∙◌, Bool, true, false, List, [], ◌∷◌, ◌++◌, All, Option,
  none, some, map, find, if◌then◌else◌, Bool-cases, inl, inr, ◌⊎◌, arith, some_of,
}
use witseal.Schema.Intent.{ClassifiedIntent}
use witseal.Schema.Policy.{Decision, allow, deny, require_approval, PolicyDecision, PackHash}
use witseal.Policy.{
  CompiledPack, CompiledRule, ExecutionMode, gate, witness, active_pack_hashes, matched,
  first_of_rules, first_of_packs, or_else, default_outcome, by_default, decided, evaluate,
  apply_constraint, is_deny, is_require_approval,
}
use witseal.Policy.Spec.{all_rules, strictness, Among}

abbrev pub PlacedRule : Type 0
PlacedRule = CompiledPack × CompiledRule

-- The first rule that matches, in load order.
abbrev pub is_matched : ClassifiedIntent → PlacedRule → Bool
is_matched i (cp, r) = r.match_fn i

abbrev pub first_match : List CompiledPack → ClassifiedIntent → Option PlacedRule
first_match packs i = find (is_matched i) (all_rules packs)

abbrev by_rule : List CompiledPack → Option PlacedRule → PolicyDecision
by_rule packs none = by_default packs
by_rule packs (some (cp, r)) = matched (active_pack_hashes packs) cp r

abbrev placed : List PackHash → Option PlacedRule → Option PolicyDecision
placed hashes none = none
placed hashes (some (cp, r)) = some (matched hashes cp r)

find-append {ℓ} :
    {A : Type ℓ} (p : A → Bool) (xs ys : List A)
    → find p (xs ++ ys) ≡ or_else (find p xs) (find p ys)
find-append p [] ys = refl
find-append p (x ∷ xs) ys = ground (arith, find-append p xs ys)

placed-or_else :
    (hashes : List PackHash) (a b : Option PlacedRule)
    → placed hashes (or_else a b) ≡ or_else (placed hashes a) (placed hashes b)
placed-or_else hashes none b = refl
placed-or_else hashes (some a) b = refl

first_of_rules-find :
    (hashes : List PackHash) (cp : CompiledPack) (rs : List CompiledRule) (i : ClassifiedIntent)
    → first_of_rules hashes cp rs i ≡ placed hashes (find (is_matched i) (map (λ r. (cp, r)) rs))
unfolding first_of_rules
first_of_rules-find hashes cp [] i = refl
first_of_rules-find hashes cp (r ∷ rs) i = ground (arith, first_of_rules-find hashes cp rs i)

first_of_packs-find :
    (hashes : List PackHash) (packs : List CompiledPack) (i : ClassifiedIntent)
    → first_of_packs hashes packs i ≡ placed hashes (first_match packs i)
unfolding first_of_packs
first_of_packs-find hashes [] i = refl
first_of_packs-find hashes (cp ∷ packs) i =
    let own = map (λ r. (cp, r)) cp.rules in
    ap (or_else _) (first_of_packs-find hashes packs i)
    ∙ ap (λ o. or_else o (placed hashes (first_match packs i)))
        (first_of_rules-find hashes cp cp.rules i)
    ∙ sym (placed-or_else hashes (find (is_matched i) own) (first_match packs i))
    ∙ ap (placed hashes) (sym (find-append (is_matched i) own (all_rules packs)))

decided-placed :
    (packs : List CompiledPack) (o : Option PlacedRule)
    → decided (placed (active_pack_hashes packs) o) (by_default packs) ≡ by_rule packs o
decided-placed packs none = refl
decided-placed packs (some p) = refl

by_first_match :
    (packs : List CompiledPack) (i : ClassifiedIntent)
    → evaluate packs i ≡ by_rule packs (first_match packs i)
unfolding evaluate
by_first_match packs i =
    ap (λ o. decided o (by_default packs)) (first_of_packs-find (active_pack_hashes packs) packs i)
    ∙ decided-placed packs (first_match packs i)

abbrev strictest : List Decision → Decision
strictest ds =
    if some_of is_deny ds
    then deny
    else if some_of is_require_approval ds
    then require_approval
    else allow

All-map {ℓ} :
    {A : Type ℓ} (P Q : A → Type 0) (f : (a : A) → P a → Q a) (xs : List A) → All P xs → All Q xs
All-map P Q f [] h = tt
All-map P Q f (x ∷ xs) (p, h) = (f x p, All-map P Q f xs h)

strictest-grows :
    (d : Decision) (ds : List Decision)
    → (strictness d ≤ strictness (strictest (d ∷ ds)))
      × (strictness (strictest ds) ≤ strictness (strictest (d ∷ ds)))
strictest-grows allow ds = ground arith
strictest-grows deny ds = ground arith
strictest-grows require_approval ds = ground arith

abbrev AtMost : Decision → CompiledPack → Type 0
AtMost d cp = strictness cp.pack.default_decision ≤ strictness d

-- No pack has a default that is stricter than the default outcome.
default_outcome-strictest :
    (packs : List CompiledPack)
    → All (λ cp. strictness cp.pack.default_decision ≤ strictness (default_outcome packs)) packs
unfolding default_outcome
default_outcome-strictest [] = tt
default_outcome-strictest (cp ∷ packs) =
    let ds = map (λ c. c.pack.default_decision) packs in
    let (own, rest) = strictest-grows cp.pack.default_decision ds in
    (
      own,
      All-map (AtMost (strictest ds)) (AtMost (strictest (cp.pack.default_decision ∷ ds)))
          (λ c h. omega (arith, h, rest)) packs (default_outcome-strictest packs),
    )

deny-Among : (ds : List Decision) → some_of is_deny ds ≡ true → Among deny ds
deny-Among [] h = cc
deny-Among (deny ∷ ds) h = inl refl
deny-Among (allow ∷ ds) h = inr (deny-Among ds h)
deny-Among (require_approval ∷ ds) h = inr (deny-Among ds h)

require_approval-Among :
    (ds : List Decision) → some_of is_require_approval ds ≡ true → Among require_approval ds
require_approval-Among [] h = cc
require_approval-Among (require_approval ∷ ds) h = inl refl
require_approval-Among (allow ∷ ds) h = inr (require_approval-Among ds h)
require_approval-Among (deny ∷ ds) h = inr (require_approval-Among ds h)

allow-Among :
    (d : Decision) (ds : List Decision)
    → some_of is_deny (d ∷ ds) ≡ false
    → some_of is_require_approval (d ∷ ds) ≡ false
    → Among allow (d ∷ ds)
allow-Among allow ds h k = inl refl
allow-Among deny ds h k = cc
allow-Among require_approval ds h k = cc

strictest-Among : (d : Decision) (ds : List Decision) → Among (strictest (d ∷ ds)) (d ∷ ds)
strictest-Among d ds = elim (Bool-cases (some_of is_deny (d ∷ ds))) [
  | inl h ↦ subst (λ o. Among o (d ∷ ds)) (rw h refl) (deny-Among (d ∷ ds) h)
  | inr h ↦ elim (Bool-cases (some_of is_require_approval (d ∷ ds))) [
    | inl k ↦ subst (λ o. Among o (d ∷ ds)) (rw (h, k) refl) (require_approval-Among (d ∷ ds) k)
    | inr k ↦ subst (λ o. Among o (d ∷ ds)) (rw (h, k) refl) (allow-Among d ds h k)
  ]
]

-- The default outcome is some pack's default, and without packs it is `allow`.
default_outcome-attained :
    (packs : List CompiledPack)
    → Among (default_outcome packs) (map (λ cp. cp.pack.default_decision) packs)
      ⊎ ((packs ≡ []) × (default_outcome packs ≡ allow))
unfolding default_outcome
default_outcome-attained [] = inr (refl, refl)
default_outcome-attained (cp ∷ packs) =
    inl (strictest-Among cp.pack.default_decision (map (λ c. c.pack.default_decision) packs))

is_deny_iff : (d : Decision) → (is_deny d ≡ true) ↔ (d ≡ deny)
is_deny_iff allow = ground arith
is_deny_iff deny = ground arith
is_deny_iff require_approval = ground arith

pub default_outcome_lem :
    (packs : List CompiledPack)
    → All (λ cp. strictness cp.pack.default_decision ≤ strictness (default_outcome packs)) packs
      × (Among (default_outcome packs) (map (λ cp. cp.pack.default_decision) packs)
          ⊎ ((packs ≡ []) × (default_outcome packs ≡ allow)))
default_outcome_lem packs = (default_outcome-strictest packs, default_outcome-attained packs)

-- The decision is a pack's default, no pack has a stricter one, and without packs it is `allow`.
abbrev pub IsStrictestDefault : List CompiledPack → Decision → Type 0
IsStrictestDefault packs d =
    All (λ cp. strictness cp.pack.default_decision ≤ strictness d) packs
    × (Among d (map (λ cp. cp.pack.default_decision) packs) ⊎ ((packs ≡ []) × (d ≡ allow)))

-- The decision has the outcome and the reason of the rule, and names the rule with its pack.
abbrev pub IsOfRule : CompiledPack → CompiledRule → PolicyDecision → Type 0
IsOfRule cp r d =
    (d.outcome ≡ r.rule.decision)
    × ((d.reason ≡ r.rule.reason)
        × (d.matched_rule
            ≡ some (record {
              pack_id = cp.pack.pack_id;
              pack_version = cp.pack.version;
              rule_id = r.rule.id;
            })))

-- The decision is of this rule or, with none, the strictest default without a rule.
abbrev pub IsOf : List CompiledPack → Option PlacedRule → PolicyDecision → Type 0
IsOf packs none d = IsStrictestDefault packs d.outcome × (d.matched_rule ≡ none)
IsOf packs (some (cp, r)) d = IsOfRule cp r d

-- One entry for each pack, in load order, with its id, version and content hash.
abbrev pub Lists : List PackHash → List CompiledPack → Type 0
Lists [] [] = Unit
Lists (h ∷ hs) (cp ∷ packs) =
    (h.pack_id ≡ cp.pack.pack_id)
    × ((h.version ≡ cp.pack.version) × ((h.content_hash ≡ cp.content_hash) × Lists hs packs))
Lists _ _ = ⊥

active_pack_hashes-Lists : (packs : List CompiledPack) → Lists (active_pack_hashes packs) packs
unfolding active_pack_hashes
active_pack_hashes-Lists [] = tt
active_pack_hashes-Lists (cp ∷ packs) = (refl, (refl, (refl, active_pack_hashes-Lists packs)))

abbrev Decides : List CompiledPack → Option PlacedRule → PolicyDecision → Type 0
Decides packs o d = IsOf packs o d × Lists d.active_pack_hashes packs

by_rule-Decides :
    (packs : List CompiledPack) (o : Option PlacedRule) → Decides packs o (by_rule packs o)
unfolding by_default matched
by_rule-Decides packs none = ((default_outcome_lem packs, refl), active_pack_hashes-Lists packs)
by_rule-Decides packs (some (cp, r)) = ((refl, (refl, refl)), active_pack_hashes-Lists packs)

-- The decision has the outcome, the reason and the name of the first rule, in load order of the packs
-- and in order of the rules of a pack, that matches. Where there is none, it names no rule, and its
-- outcome is the strictest of the packs' defaults, or `allow` without packs. In both cases it lists the
-- id, the version and the content hash of every pack in load order.
pub evaluate-first_match :
    (packs : List CompiledPack) (i : ClassifiedIntent)
    → IsOf packs (first_match packs i) (evaluate packs i)
      × Lists (evaluate packs i).active_pack_hashes packs
evaluate-first_match packs i =
    subst (Decides packs (first_match packs i)) (sym (by_first_match packs i))
      (by_rule-Decides packs (first_match packs i))

-- In Gate Mode exactly a denial blocks, with its reason; in Witness Mode nothing does.
pub apply_constraint_lem :
    (decision : PolicyDecision) (mode : ExecutionMode)
    → (((apply_constraint decision mode).block ≡ true)
        ↔ ((mode ≡ gate) × (decision.outcome ≡ deny)))
      × ((apply_constraint decision mode).block ≡ true
          → (apply_constraint decision mode).reason ≡ some decision.reason)
unfolding apply_constraint
apply_constraint_lem decision witness = ground arith
apply_constraint_lem decision gate = elim (Bool-cases (is_deny decision.outcome)) [
  | inl h ↦ rw h (((λ _. (refl, (is_deny_iff decision.outcome).0 h)), (λ _. refl)), (λ _. refl))
  | inr h ↦ rw h (((λ k. cc), (λ (_, k). cc (h, (is_deny_iff decision.outcome).1 k))), (λ k. cc))
]

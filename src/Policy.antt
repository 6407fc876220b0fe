-- ===== src/Policy.antt =====
-- src/policy/engine.ts and src/policy/enforcement.ts: policy packs, compiled and evaluated against
-- classified intents, and the constraint that a decision puts on execution.
pub mod Spec
pub mod Matching
pub mod Deciding
pub mod Tests
use witseal.Prelude.{
  ℕ, Bool, true, false, not, ◌&&◌, ◌||◌, ◌==◌, List, [], ◌∷◌, ◌++◌, Option, none, some, every,
  some_of, is_empty, if◌then◌else◌, Result, ok, err, ◌>>=◌, map,
}
use witseal.Prelude.Results.{map_ok}
use witseal.Prelude.Action.{Action}
use witseal.Prelude.Text.{Text, codes, join}
use witseal.Schema.Intent.{
  RiskClass, c0, c1, c2, c3, c4, ActionType, shell_command, file_write, file_read, Intent, shell,
  write, read, action_type, ClassifiedIntent,
}
use witseal.Schema.Policy.{
  FieldMatch, RuleMatch, rule_match, MatchOption, unset, set, MatchList, unset_list, set_list,
  Matches, nil, cons, Decision, allow, deny, require_approval, decision_text, PolicyRule,
  PolicyPack, MatchedRule, PackHash, PolicyDecision,
}

-- `new RegExp(source)`, which may throw, and then `re.test`
abbrev pub RegExps : Type 0
RegExps = Text → Result (Text → Bool)

abbrev pub MatchFn : Type 0
MatchFn = ClassifiedIntent → Bool

abbrev pub same_action : ActionType → ActionType → Bool
same_action shell_command shell_command = true
same_action file_write file_write = true
same_action file_read file_read = true
same_action _ _ = false

abbrev pub risk_number : RiskClass → ℕ
risk_number c0 = 0
risk_number c1 = 1
risk_number c2 = 2
risk_number c3 = 3
risk_number c4 = 4

abbrev pub same_risk : RiskClass → RiskClass → Bool
same_risk c d = risk_number c == risk_number d

-- `set.has(i.risk_class)`
unfoldable pub has_risk : List RiskClass → RiskClass → Bool
has_risk [] c = false
has_risk (d ∷ ds) c = same_risk c d || has_risk ds c

abbrev pub test_executable : (Text → Bool) → Intent → Bool
test_executable test (shell i) = test i.executable
test_executable test _ = false

abbrev pub test_command : (Text → Bool) → Intent → Bool
test_command test (shell i) = test (i.executable ++ 32 ∷ join (codes " ") i.args)
test_command test _ = false

abbrev pub test_path : (Text → Bool) → Intent → Bool
test_path test (write i) = test i.path
test_path test (read i) = test i.path
test_path test (shell i) = false

-- A condition of the match that is set, and for a text not empty, adds a matcher.
abbrev pub when_set {ℓ} : {A : Type ℓ} → (A → MatchFn) → Option A → List MatchFn
when_set f none = []
when_set f (some a) = f a ∷ []

module _ (reg_exp : RegExps) where
  abbrev pub when_pattern : ((Text → Bool) → Intent → Bool) → Option Text → Result (List MatchFn)
  when_pattern f none = ok []
  when_pattern f (some []) = ok []
  when_pattern f (some (c ∷ s)) = reg_exp (c ∷ s) >>= λ test. ok ((λ i. f test i.intent) ∷ [])

  -- `matchers`, in the order in which they are pushed
  unfoldable pub field_matchers : FieldMatch → Result (List MatchFn)
  unfolding has_risk
  field_matchers m = when_pattern test_executable m.executable_matches >>= λ by_executable.
      when_pattern test_command m.command_matches >>= λ by_command.
      when_pattern test_path m.path_matches >>= λ by_path. ok (
        when_set (λ expected i. same_action (action_type i.intent) expected) m.action_type
        ++ (when_set (λ expected i. same_risk i.risk_class expected) m.risk_class
            ++ (when_set (λ classes i. has_risk classes i.risk_class) m.risk_class_in
                ++ (by_executable ++ (by_command ++ by_path)))))

  -- An empty match matches everything.
  abbrev pub all_matchers : List MatchFn → MatchFn
  all_matchers fs i = if is_empty fs then true else every (λ f. f i) fs

  unfoldable mutual
    -- `compileMatch`: `not` is looked at first, then `all_of`, then `any_of`, then the fields.
    pub compile_match : RuleMatch → Result MatchFn
    compile_match (rule_match fields all_of any_of (set inner)) =
        compile_match inner >>= λ f. ok λ i. not (f i)
    compile_match (rule_match fields (set_list ms) any_of unset) =
        compile_all ms >>= λ fs. ok λ i. every (λ f. f i) fs
    compile_match (rule_match fields unset_list (set_list ms) unset) =
        compile_all ms >>= λ fs. ok λ i. some_of (λ f. f i) fs
    compile_match (rule_match fields unset_list unset_list unset) =
        field_matchers fields >>= λ fs. ok (all_matchers fs)

    pub compile_all : Matches → Result (List MatchFn)
    compile_all nil = ok []
    compile_all (cons m ms) = compile_match m >>= λ f. compile_all ms >>= λ fs. ok (f ∷ fs)

pub record CompiledRule : Type 0 where
  pub rule : PolicyRule
  pub match_fn : MatchFn

pub record CompiledPack : Type 0 where
  pub pack : PolicyPack
  pub content_hash : Text
  pub rules : List CompiledRule

-- `JSON.parse`, the `zod` parser of packs and `JSON.stringify` of what it returns: the pack and its
-- text.
abbrev pub ParsePack : Type 0
ParsePack = Text → Result (PolicyPack × Text)

module _ (reg_exp : RegExps) where
  unfoldable pub compile_rule : PolicyRule → Result CompiledRule
  compile_rule rule =
      compile_match reg_exp rule.match >>= λ f. ok (record { rule = rule; match_fn = f })

  unfoldable pub compile_pack : (Text → Text) → PolicyPack × Text → Result CompiledPack
  compile_pack sha256 (pack, text) = map_ok compile_rule pack.rules >>= λ rules.
      ok (record { pack = pack; content_hash = sha256 text; rules = rules })

  -- `loadPack`, on the engine's `compiledPacks`
  unfoldable pub load_pack :
      ParsePack → (Text → Text) → Text → Action (List CompiledPack) (Unit {0})
  load_pack parse_pack sha256 json packs = elim (parse_pack json >>= compile_pack sha256) [
    | err e ↦ (err e, packs)
    | ok compiled ↦ (ok tt, packs ++ compiled ∷ [])
  ]

unfoldable pub active_pack_hashes : List CompiledPack → List PackHash
active_pack_hashes = map λ cp. record {
  pack_id = cp.pack.pack_id;
  version = cp.pack.version;
  content_hash = cp.content_hash;
}

unfoldable pub matched : List PackHash → CompiledPack → CompiledRule → PolicyDecision
matched hashes cp r = record {
  outcome = r.rule.decision;
  matched_rule =
      some
        (record { pack_id = cp.pack.pack_id; pack_version = cp.pack.version; rule_id = r.rule.id });
  reason = r.rule.reason;
  active_pack_hashes = hashes;
}

-- The inner loop, over the rules of one pack: `none` where it ends without a return.
unfoldable pub first_of_rules :
    List PackHash → CompiledPack → List CompiledRule → ClassifiedIntent → Option PolicyDecision
first_of_rules hashes cp [] i = none
first_of_rules hashes cp (r ∷ rs) i =
    if r.match_fn i then some (matched hashes cp r) else first_of_rules hashes cp rs i

abbrev pub or_else {ℓ} : {A : Type ℓ} → Option A → Option A → Option A
or_else (some a) rest = some a
or_else none rest = rest

-- The outer loop, over the packs.
unfoldable pub first_of_packs :
    List PackHash → List CompiledPack → ClassifiedIntent → Option PolicyDecision
unfolding first_of_rules
first_of_packs hashes [] i = none
first_of_packs hashes (cp ∷ packs) i =
    or_else (first_of_rules hashes cp cp.rules i) (first_of_packs hashes packs i)

abbrev pub is_deny : Decision → Bool
is_deny deny = true
is_deny _ = false

abbrev pub is_require_approval : Decision → Bool
is_require_approval require_approval = true
is_require_approval _ = false

-- The most restrictive default across packs.
unfoldable pub default_outcome : List CompiledPack → Decision
default_outcome packs =
    let defaults = map (λ cp. cp.pack.default_decision) packs in
    if some_of is_deny defaults
    then deny
    else if some_of is_require_approval defaults
    then require_approval
    else allow

unfoldable pub by_default : List CompiledPack → PolicyDecision
unfolding default_outcome active_pack_hashes
by_default packs = record {
  outcome = default_outcome packs;
  matched_rule = none;
  reason = codes "no matching rule; default_decision = " ++ decision_text (default_outcome packs);
  active_pack_hashes = active_pack_hashes packs;
}

abbrev pub decided : Option PolicyDecision → PolicyDecision → PolicyDecision
decided (some d) default = d
decided none default = default

unfoldable pub evaluate : List CompiledPack → ClassifiedIntent → PolicyDecision
evaluate packs i = decided (first_of_packs (active_pack_hashes packs) packs i) (by_default packs)

pub data ExecutionMode : Type 0 where
  gate witness : ExecutionMode

pub record ConstraintResult : Type 0 where
  pub block : Bool
  pub reason : Option Text

unfoldable pub apply_constraint : PolicyDecision → ExecutionMode → ConstraintResult
apply_constraint decision witness = record { block = false; reason = none }
apply_constraint decision gate =
    if is_deny decision.outcome
    then record { block = true; reason = some decision.reason }
    else record { block = false; reason = none }

-- ===== src/Policy/Spec.antt =====
-- What a match says of an intent, and which rules a list of packs has, in order.
use witseal.Prelude.{ℕ, ◌≡◌, ◌⊎◌, Bool, true, List, [], ◌∷◌, ◌++◌, Option, none, some, ok, map}
use witseal.Prelude.Text.{Text, codes, join}
use witseal.Schema.Intent.{Intent, shell, write, read, action_type, ClassifiedIntent}
use witseal.Schema.Policy.{
  FieldMatch, RuleMatch, rule_match, unset, set, unset_list, set_list, Matches, nil, cons, Decision,
  allow, deny, require_approval,
}
use witseal.Policy.{RegExps, CompiledPack, CompiledRule}

-- A condition that is not set holds.
abbrev pub WhenSet {ℓ} : {A : Type ℓ} → (A → Type 0) → Option A → Type 0
WhenSet P none = Unit
WhenSet P (some a) = P a

abbrev pub Among : {A : Type 0} → A → List A → Type 0
Among a [] = ⊥
Among a (b ∷ bs) = (a ≡ b) ⊎ Among a bs

-- The text, if the intent has one, is in the language of the pattern.
abbrev pub Tested : RegExps → Option Text → Text → Type 0
Tested reg_exp none source = ⊥
Tested reg_exp (some t) source = (test : Text → Bool) × (reg_exp source ≡ ok test) × (test t ≡ true)

-- An empty pattern is no condition.
abbrev pub WhenPattern : RegExps → Option Text → Option Text → Type 0
WhenPattern reg_exp t none = Unit
WhenPattern reg_exp t (some []) = Unit
WhenPattern reg_exp t (some (c ∷ s)) = Tested reg_exp t (c ∷ s)

abbrev pub executable_of : Intent → Option Text
executable_of (shell i) = some i.executable
executable_of _ = none

abbrev pub command_of : Intent → Option Text
command_of (shell i) = some (i.executable ++ 32 ∷ join (codes " ") i.args)
command_of _ = none

abbrev pub path_of : Intent → Option Text
path_of (shell i) = none
path_of (write i) = some i.path
path_of (read i) = some i.path

module _ (reg_exp : RegExps) where
  abbrev pub MeetsFields : FieldMatch → ClassifiedIntent → Type 0
  MeetsFields m i =
      WhenSet (λ expected. action_type i.intent ≡ expected) m.action_type
      × (WhenSet (λ expected. i.risk_class ≡ expected) m.risk_class
          × (WhenSet (λ classes. Among i.risk_class classes) m.risk_class_in
              × (WhenPattern reg_exp (executable_of i.intent) m.executable_matches
                  × (WhenPattern reg_exp (command_of i.intent) m.command_matches
                      × WhenPattern reg_exp (path_of i.intent) m.path_matches))))

  unfoldable mutual
    -- The reading of a match as a proposition: `not` goes before `all_of`, that before `any_of`, and each
    -- of them before the fields, which do not count beside them.
    pub Meets : RuleMatch → ClassifiedIntent → Type 0
    Meets (rule_match fields all_of any_of (set inner)) i = ¬ Meets inner i
    Meets (rule_match fields (set_list ms) any_of unset) i = MeetsAll ms i
    Meets (rule_match fields unset_list (set_list ms) unset) i = MeetsAny ms i
    Meets (rule_match fields unset_list unset_list unset) i = MeetsFields fields i

    pub MeetsAll : Matches → ClassifiedIntent → Type 0
    MeetsAll nil i = Unit
    MeetsAll (cons m ms) i = Meets m i × MeetsAll ms i

    pub MeetsAny : Matches → ClassifiedIntent → Type 0
    MeetsAny nil i = ⊥
    MeetsAny (cons m ms) i = Meets m i ⊎ MeetsAny ms i

-- The rules of the packs in load order.
abbrev pub all_rules : List CompiledPack → List (CompiledPack × CompiledRule)
all_rules [] = []
all_rules (cp ∷ packs) = map (λ r. (cp, r)) cp.rules ++ all_rules packs

-- `deny` is stricter than `require-approval`, and that than `allow`.
abbrev pub strictness : Decision → ℕ
strictness allow = 0
strictness require_approval = 1
strictness deny = 2

-- ===== src/Policy/Matching.antt =====
-- A compiled match tests what the match says.
use witseal.Prelude.{
  ℕ, zero, suc, ◌≡◌, ◌↔◌, ◌⊎◌, refl, subst, ap, sym, ◌∙◌, Bool, true, false, not, ◌&&◌, ◌||◌, List,
  [], ◌∷◌, ◌++◌, Option, none, some, ok, inl, inr, every, some_of, arith, >>=-eq-ok, ==_iff,
}
use witseal.Prelude.Text.{Text}
use witseal.Schema.Intent.{
  ActionType, shell_command, file_write, file_read, RiskClass, c0, c1, c2, c3, c4, Intent, shell,
  write, read, action_type, ClassifiedIntent,
}
use witseal.Schema.Policy.{
  FieldMatch, RuleMatch, rule_match, unset, set, unset_list, set_list, Matches, nil, cons,
}
use witseal.Policy.{
  RegExps, MatchFn, same_action, same_risk, has_risk, test_executable, test_command, test_path,
  when_set, when_pattern, field_matchers, risk_number, all_matchers, compile_match, compile_all,
}
use witseal.Policy.Spec.{
  WhenSet, Among, Tested, WhenPattern, executable_of, command_of, path_of, MeetsFields, Meets,
  MeetsAll, MeetsAny,
}

-- A Boolean that decides a proposition.
abbrev pub Decides : Bool → Type 0 → Type 0
Decides b P = (b ≡ true) ↔ P

Decides-and : (a b : Bool) (P Q : Type 0) → Decides a P → Decides b Q → Decides (a && b) (P × Q)
Decides-and true b P Q (p, _) (q, q') = ((λ h. (p refl, q h)), (λ (_, y). q' y))
Decides-and false b P Q (_, p') _ = ((λ h. cc), (λ (x, _). p' x))

Decides-or : (a b : Bool) (P Q : Type 0) → Decides a P → Decides b Q → Decides (a || b) (P ⊎ Q)
Decides-or true b P Q (p, p') (q, q') = ((λ _. inl (p refl)), (λ _. refl))
Decides-or false b P Q (p, p') (q, q') =
    ((λ h. inr (q h)), (λ s. elim s [ inl x ↦ absurd (false_true (p' x)) | inr y ↦ q' y ]))
  where
    false_true : ¬ (false ≡ true)
    false_true h = cc

Decides-not : (a : Bool) (P : Type 0) → Decides a P → Decides (not a) (¬ P)
Decides-not true P (p, p') = ((λ h x. cc h), (λ n. absurd (n (p refl))))
Decides-not false P (p, p') = ((λ _ x. cc (p' x)), (λ _. refl))

same_action_iff : (a b : ActionType) → Decides (same_action a b) (a ≡ b)
same_action_iff shell_command shell_command = ground arith
same_action_iff shell_command file_write = ground arith
same_action_iff shell_command file_read = ground arith
same_action_iff file_write shell_command = ground arith
same_action_iff file_write file_write = ground arith
same_action_iff file_write file_read = ground arith
same_action_iff file_read shell_command = ground arith
same_action_iff file_read file_write = ground arith
same_action_iff file_read file_read = ground arith

-- The class of a number, past the fourth the last.
risk_of : ℕ → RiskClass
risk_of zero = c0
risk_of (suc zero) = c1
risk_of (suc (suc zero)) = c2
risk_of (suc (suc (suc zero))) = c3
risk_of _ = c4

risk_of-risk_number : (c : RiskClass) → risk_of (risk_number c) ≡ c
unfolding risk_of
risk_of-risk_number c0 = refl
risk_of-risk_number c1 = refl
risk_of-risk_number c2 = refl
risk_of-risk_number c3 = refl
risk_of-risk_number c4 = refl

risk_number-injective : (c d : RiskClass) → risk_number c ≡ risk_number d → c ≡ d
risk_number-injective c d h = sym (risk_of-risk_number c) ∙ ap risk_of h ∙ risk_of-risk_number d

same_risk_iff : (c d : RiskClass) → Decides (same_risk c d) (c ≡ d)
same_risk_iff c d =
    ((λ h. risk_number-injective c d ((==_iff _ _).0 h)), (λ h. (==_iff _ _).1 (ap risk_number h)))

has_risk_iff : (ds : List RiskClass) (c : RiskClass) → Decides (has_risk ds c) (Among c ds)
unfolding has_risk
has_risk_iff [] c = ((λ h. cc), (λ x. absurd x))
has_risk_iff (d ∷ ds) c =
    Decides-or (same_risk c d) (has_risk ds c) (c ≡ d) (Among c ds) (same_risk_iff c d)
      (has_risk_iff ds c)

-- What a list of matchers tests.
abbrev passes : List MatchFn → ClassifiedIntent → Bool
passes fs i = every (λ f. f i) fs

every-append :
    (fs gs : List MatchFn) (i : ClassifiedIntent)
    → passes (fs ++ gs) i ≡ (passes fs i && passes gs i)
every-append [] gs i = refl
every-append (f ∷ fs) gs i = ground (arith, every-append fs gs i)

passes-append :
    (fs gs : List MatchFn) (i : ClassifiedIntent) (P Q : Type 0)
    → Decides (passes fs i) P
    → Decides (passes gs i) Q
    → Decides (passes (fs ++ gs) i) (P × Q)
passes-append fs gs i P Q p q =
    rw (every-append fs gs i) (Decides-and (passes fs i) (passes gs i) P Q p q)

and-true : (b : Bool) → (b && true) ≡ b
and-true true = refl
and-true false = refl

passes-when_set {ℓ} :
    {A : Type ℓ} (f : A → MatchFn) (P : A → Type 0) (o : Option A) (i : ClassifiedIntent)
    → ((a : A) → Decides (f a i) (P a))
    → Decides (passes (when_set f o) i) (WhenSet P o)
passes-when_set f P none i h = ((λ _. tt), (λ _. refl))
passes-when_set f P (some a) i h = rw (and-true (f a i)) (h a)

ok-injective {ℓ} : {A : Type ℓ} (a b : A) → ok a ≡ ok b → a ≡ b
ok-injective a b h = cc

-- A test of a text that an intent may lack.
abbrev test_some : (Text → Bool) → Option Text → Bool
test_some test none = false
test_some test (some t) = test t

module _ (reg_exp : RegExps) where
  all_matchers-Test :
      (fs : List MatchFn) (i : ClassifiedIntent) → all_matchers reg_exp fs i ≡ passes fs i
  all_matchers-Test [] i = refl
  all_matchers-Test (f ∷ fs) i = refl

  test_some-Tested :
      (test : Text → Bool) (t : Option Text) (source : Text)
      → reg_exp source ≡ ok test
      → Decides (test_some test t) (Tested reg_exp t source)
  test_some-Tested test none source h = ((λ k. cc), (λ x. absurd x))
  test_some-Tested test (some t) source h = (
    (λ k. (test, h, k)),
    (λ (other, g, k). ap (λ f. f t) (ok-injective test other (sym h ∙ g)) ∙ k),
  )

  passes-when_pattern :
      (run : (Text → Bool) → Intent → Bool) (text_of : Intent → Option Text) (o : Option Text)
      (fs : List MatchFn) (i : ClassifiedIntent)
      → ((test : Text → Bool) → run test i.intent ≡ test_some test (text_of i.intent))
      → when_pattern reg_exp run o ≡ ok fs
      → Decides (passes fs i) (WhenPattern reg_exp (text_of i.intent) o)
  passes-when_pattern run text_of none fs i each h =
      ((λ _. tt), (λ _. ap (λ l. passes l i) (sym (ok-injective [] fs h))))
  passes-when_pattern run text_of (some []) fs i each h =
      ((λ _. tt), (λ _. ap (λ l. passes l i) (sym (ok-injective [] fs h))))
  passes-when_pattern run text_of (some (c ∷ s)) fs i each h =
      let (test, compiled, built) = >>=-eq-ok (reg_exp (c ∷ s)) _ h in
      let same : passes fs i ≡ test_some test (text_of i.intent) =
        ap (λ l. passes l i) (sym (ok-injective _ fs built))
        ∙ and-true (run test i.intent)
        ∙ each test in
      rw same (test_some-Tested test (text_of i.intent) (c ∷ s) compiled)

  executable-test :
      (test : Text → Bool) (i : Intent) → test_executable test i ≡ test_some test (executable_of i)
  executable-test test (shell i) = refl
  executable-test test (write i) = refl
  executable-test test (read i) = refl

  command-test :
      (test : Text → Bool) (i : Intent) → test_command test i ≡ test_some test (command_of i)
  command-test test (shell i) = refl
  command-test test (write i) = refl
  command-test test (read i) = refl

  path-test : (test : Text → Bool) (i : Intent) → test_path test i ≡ test_some test (path_of i)
  path-test test (shell i) = refl
  path-test test (write i) = refl
  path-test test (read i) = refl

  abbrev by_action : FieldMatch → List MatchFn
  by_action m = when_set (λ expected i. same_action (action_type i.intent) expected) m.action_type

  abbrev by_risk : FieldMatch → List MatchFn
  by_risk m = when_set (λ expected i. same_risk i.risk_class expected) m.risk_class

  abbrev by_risks : FieldMatch → List MatchFn
  by_risks m = when_set (λ classes i. has_risk classes i.risk_class) m.risk_class_in

  by_action-Meets :
      (m : FieldMatch) (i : ClassifiedIntent)
      → Decides
          (passes (by_action m) i)
          (WhenSet (λ expected. action_type i.intent ≡ expected) m.action_type)
  by_action-Meets m i =
      passes-when_set _ _ m.action_type i (λ a. same_action_iff (action_type i.intent) a)

  by_risk-Meets :
      (m : FieldMatch) (i : ClassifiedIntent)
      → Decides (passes (by_risk m) i) (WhenSet (λ expected. i.risk_class ≡ expected) m.risk_class)
  by_risk-Meets m i = passes-when_set _ _ m.risk_class i (λ c. same_risk_iff i.risk_class c)

  by_risks-Meets :
      (m : FieldMatch) (i : ClassifiedIntent)
      → Decides
          (passes (by_risks m) i)
          (WhenSet (λ classes. Among i.risk_class classes) m.risk_class_in)
  by_risks-Meets m i = passes-when_set _ _ m.risk_class_in i (λ cs. has_risk_iff cs i.risk_class)

  abbrev Patterned : ((Text → Bool) → Intent → Bool) → Option Text → List MatchFn → Type 0
  Patterned run o fs = when_pattern reg_exp run o ≡ ok fs

  assembled-Meets :
      (m : FieldMatch) (xs cs ps : List MatchFn) (i : ClassifiedIntent)
      → Patterned test_executable m.executable_matches xs
      → Patterned test_command m.command_matches cs
      → Patterned test_path m.path_matches ps
      → Decides
          (passes (by_action m ++ (by_risk m ++ (by_risks m ++ (xs ++ (cs ++ ps))))) i)
          (MeetsFields reg_exp m i)
  assembled-Meets m xs cs ps i hx hc hp =
      let commands =
        passes-when_pattern test_command command_of m.command_matches cs i
          (λ t. command-test t i.intent) hc in
      let paths =
        passes-when_pattern test_path path_of m.path_matches ps i (λ t. path-test t i.intent) hp in
      let executables =
        passes-when_pattern test_executable executable_of m.executable_matches xs i
          (λ t. executable-test t i.intent) hx in
      passes-append (by_action m) _ i _ _ (by_action-Meets m i) (
        passes-append (by_risk m) _ i _ _ (by_risk-Meets m i) (
          passes-append (by_risks m) _ i _ _ (by_risks-Meets m i)
            (passes-append xs _ i _ _ executables (passes-append cs ps i _ _ commands paths))))

  abbrev Assembled : FieldMatch → List MatchFn → Type 0
  Assembled m fs =
      (xs : List MatchFn) × (cs : List MatchFn) × (ps : List MatchFn) × (Patterned test_executable
        m.executable_matches xs)
      × (Patterned test_command m.command_matches cs)
      × (Patterned test_path m.path_matches ps)
      × (by_action m ++ (by_risk m ++ (by_risks m ++ (xs ++ (cs ++ ps)))) ≡ fs)

  field_matchers-Assembled :
      (m : FieldMatch) (fs : List MatchFn) → field_matchers reg_exp m ≡ ok fs → Assembled m fs
  unfolding field_matchers
  field_matchers-Assembled m fs h =
      let (xs, hx, gx) =
        >>=-eq-ok (when_pattern reg_exp test_executable m.executable_matches) _ h in
      let (cs, hc, gc) = >>=-eq-ok (when_pattern reg_exp test_command m.command_matches) _ gx in
      let (ps, hp, gp) = >>=-eq-ok (when_pattern reg_exp test_path m.path_matches) _ gc in
      (xs, cs, ps, hx, hc, hp, ok-injective _ fs gp)

  field_matchers-Meets :
      (m : FieldMatch) (fs : List MatchFn) (i : ClassifiedIntent)
      → field_matchers reg_exp m ≡ ok fs
      → Decides (passes fs i) (MeetsFields reg_exp m i)
  field_matchers-Meets m fs i h =
      let (xs, cs, ps, hx, hc, hp, same) = field_matchers-Assembled m fs h in
      subst (λ l. Decides (passes l i) (MeetsFields reg_exp m i)) same
        (assembled-Meets m xs cs ps i hx hc hp)

  abbrev Compiled : Matches → List MatchFn → ClassifiedIntent → Type 0
  Compiled ms fs i =
      Decides (every (λ f. f i) fs) (MeetsAll reg_exp ms i)
      × Decides (some_of (λ f. f i) fs) (MeetsAny reg_exp ms i)

  mutual
    unfolding compile_match Meets

    match-Meets :
        (m : RuleMatch) (f : MatchFn) (i : ClassifiedIntent)
        → compile_match reg_exp m ≡ ok f
        → (f i ≡ true) ↔ Meets reg_exp m i
    match-Meets (rule_match fields all_of any_of (set inner)) f i h =
        let (g, compiled, built) = >>=-eq-ok (compile_match reg_exp inner) _ h in
        rw (← ok-injective _ f built)
          (Decides-not (g i) (Meets reg_exp inner i) (match-Meets inner g i compiled))
    match-Meets (rule_match fields (set_list ms) any_of unset) f i h =
        let (fs, compiled, built) = >>=-eq-ok (compile_all reg_exp ms) _ h in
        rw (← ok-injective _ f built) (matches-Meets ms fs i compiled).0
    match-Meets (rule_match fields unset_list (set_list ms) unset) f i h =
        let (fs, compiled, built) = >>=-eq-ok (compile_all reg_exp ms) _ h in
        rw (← ok-injective _ f built) (matches-Meets ms fs i compiled).1
    match-Meets (rule_match fields unset_list unset_list unset) f i h =
        let (fs, compiled, built) = >>=-eq-ok (field_matchers reg_exp fields) _ h in
        rw (← ok-injective _ f built, all_matchers-Test fs i)
          (field_matchers-Meets fields fs i compiled)

    matches-Meets :
        (ms : Matches) (fs : List MatchFn) (i : ClassifiedIntent)
        → compile_all reg_exp ms ≡ ok fs
        → Compiled ms fs i
    matches-Meets nil fs i h =
        rw (← ok-injective [] fs h) (((λ _. tt), (λ _. refl)), ((λ k. cc), (λ x. absurd x)))
    matches-Meets (cons m ms) fs i h =
        let (f, first, rest) = >>=-eq-ok (compile_match reg_exp m) _ h in
        let (gs, others, built) = >>=-eq-ok (compile_all reg_exp ms) _ rest in
        let head = match-Meets m f i first in
        let (all, any) = matches-Meets ms gs i others in
        rw (← ok-injective _ fs built)
          (Decides-and (f i) _ _ _ head all, Decides-or (f i) _ _ _ head any)

  -- Where a match compiles, its predicate holds of an intent exactly if the intent meets the match: with
  -- `not` set the negation of that match alone, else with `all_of` set all of its matches, else with `any_of`
  -- set one of its matches, and without these three all of the fields that are set. The fields beside a
  -- `not`, an `all_of` or an `any_of` do not count.
  pub compile_match-Meets :
      (m : RuleMatch) (f : MatchFn) (i : ClassifiedIntent)
      → compile_match reg_exp m ≡ ok f
      → (f i ≡ true) ↔ Meets reg_exp m i
  compile_match-Meets m f i h = match-Meets m f i h

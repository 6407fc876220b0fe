-- ===== src/Approval/Settings.antt =====
-- What the environment and the terminal say of how an approval is obtained.
use witseal.Prelude.{
  ◌≡◌, ◌≢◌, ◌↔◌, ◌⊎◌, inl, inr, refl, sym, subst, ◌∙◌, Bool-cases, true, false, not, is_empty, List,
  [], ◌∷◌, map, keep, some_of, Option, none, some,
}
use witseal.Prelude.Text.{Text, codes, text_eq, text_eq_iff, option_eq_iff, split, trim}
use witseal.Policy.Spec.{Among}
use witseal.Schema.Intent.{ClassifiedIntent}
use witseal.Schema.Policy.{PolicyDecision, MatchedRule}
use witseal.Approval.{
  Prompt, is_callback, is_interactive, is_allowed, is_listed, or_empty, allow_list,
}

module _ (prompt : Prompt) (intent : ClassifiedIntent) (decision : PolicyDecision) where
  -- `WITSEAL_APPROVAL_MODE` is `callback`.
  abbrev IsCallback : Type 0
  IsCallback = prompt.env (codes "WITSEAL_APPROVAL_MODE") ≡ some (codes "callback")

  callback_iff : (is_callback prompt intent decision ≡ true) ↔ IsCallback
  callback_iff = option_eq_iff _ _

  pub callback-not : (is_callback prompt intent decision ≡ false) ↔ (¬ IsCallback)
  callback-not = (
    (λ h k. cc (sym h ∙ callback_iff.1 k)),
    (λ n. elim (Bool-cases (is_callback prompt intent decision)) [
      | inl h ↦ absurd (n (callback_iff.0 h))
      | inr h ↦ h
    ]),
  )

  -- Standard error is a terminal, and `WITSEAL_NON_INTERACTIVE` is not set or empty.
  abbrev pub AtTerminal : Type 0
  AtTerminal =
      (prompt.stderr_is_tty ≡ true)
      × ((prompt.env (codes "WITSEAL_NON_INTERACTIVE") ≡ none)
          ⊎ (prompt.env (codes "WITSEAL_NON_INTERACTIVE") ≡ some []))

  unset_or_empty : (o : Option Text) → (is_empty (or_empty o) ≡ true) ↔ ((o ≡ none) ⊎ (o ≡ some []))
  unset_or_empty none = ((λ h. inl refl), (λ h. refl))
  unset_or_empty (some []) = ((λ h. inr refl), (λ h. refl))
  unset_or_empty (some (c ∷ t)) = ((λ h. cc), (λ h. elim h [ inl e ↦ cc | inr e ↦ cc ]))

  pub interactive_iff : (is_interactive prompt intent decision ≡ true) ↔ AtTerminal
  interactive_iff =
      let unset = unset_or_empty (prompt.env (codes "WITSEAL_NON_INTERACTIVE")) in
      elim (Bool-cases prompt.stderr_is_tty) [
        | inl tty ↦ rw tty ((λ h. (refl, unset.0 h)), (λ (_, h). unset.1 h))
        | inr away ↦ rw away ((λ h. cc), (λ (h, _). cc))
      ]

  pub interactive-not : (is_interactive prompt intent decision ≡ false) ↔ (¬ AtTerminal)
  interactive-not = (
    (λ h k. cc (sym h ∙ interactive_iff.1 k)),
    (λ n. elim (Bool-cases (is_interactive prompt intent decision)) [
      | inl h ↦ absurd (n (interactive_iff.0 h))
      | inr h ↦ h
    ]),
  )

  -- The parts of `WITSEAL_AUTO_APPROVE` between its commas, without the spaces around them.
  abbrev pub listed : Option Text → List Text
  listed none = []
  listed (some t) = map trim (split b',' t)

  -- A rule matched, whose id is not empty and is one of these parts.
  abbrev pub IsListed : Type 0
  IsListed =
      (rule : MatchedRule) × (decision.matched_rule ≡ some rule)
      × (rule.rule_id ≢ [])
      × Among rule.rule_id (listed (prompt.env (codes "WITSEAL_AUTO_APPROVE")))

  kept_iff :
      (id : Text) (ts : List Text)
      → id ≢ []
      → (some_of (text_eq id) (keep (λ s. not (is_empty s)) ts) ≡ true) ↔ Among id ts
  kept_iff id [] n = ((λ h. cc), (λ h. absurd h))
  kept_iff id ([] ∷ ts) n = (
    (λ h. inr ((kept_iff id ts n).0 h)),
    (λ h. elim h [ inl e ↦ absurd (n e) | inr k ↦ (kept_iff id ts n).1 k ]),
  )
  kept_iff id ((c ∷ t) ∷ ts) n = elim (Bool-cases (text_eq id (c ∷ t))) [
    | inl same ↦ rw same ((λ h. inl ((text_eq_iff id (c ∷ t)).0 same)), (λ h. refl))
    | inr other ↦ rw other (
      (λ h. inr ((kept_iff id ts n).0 h)),
      (λ h. elim h [
        | inl e ↦ cc (sym other ∙ (text_eq_iff id (c ∷ t)).1 e)
        | inr k ↦ (kept_iff id ts n).1 k
      ]),
    )
  ]

  kept_by :
      (id : Text) (o : Option Text)
      → id ≢ []
      → (some_of (text_eq id) (keep (λ s. not (is_empty s)) (map trim (split b',' (or_empty o))))
          ≡ true)
        ↔ Among id (listed o)
  unfolding split trim
  kept_by id (some t) n = kept_iff id (map trim (split b',' t)) n
  kept_by id none n = ((λ h. cc), (λ h. absurd h))

  is_listed_iff :
      (id : Text)
      → (is_listed prompt intent decision id ≡ true)
        ↔ ((id ≢ []) × Among id (listed (prompt.env (codes "WITSEAL_AUTO_APPROVE"))))
  unfolding allow_list
  is_listed_iff [] = ((λ h. cc), (λ (n, _). absurd (n refl)))
  is_listed_iff (c ∷ t) =
      let some_iff = kept_by (c ∷ t) (prompt.env (codes "WITSEAL_AUTO_APPROVE")) (λ h. cc) in
      ((λ h. ((λ e. cc), some_iff.0 h)), (λ (_, k). some_iff.1 k))

  pub is_allowed_iff :
      (o : Option MatchedRule)
      → decision.matched_rule ≡ o
      → (is_allowed prompt intent decision o ≡ true) ↔ IsListed
  is_allowed_iff none e = ((λ h. cc), (λ (rule, same, _, _). cc (sym e ∙ same)))
  is_allowed_iff (some r) e = (
    (λ h. let (n, k) = (is_listed_iff r.rule_id).0 h in (r, e, n, k)),
    (λ (rule, same, n, k).
        let one : rule ≡ r = cc (sym same ∙ e) in
        subst (λ q. is_listed prompt intent decision q.rule_id ≡ true) one
          ((is_listed_iff rule.rule_id).1 (n, k))),
  )

-- ===== src/Chain/Verified.antt =====
-- `verifyChain` decides the chain specification.
use witseal.Prelude.{
  ℕ, ◌+◌, ◌≡◌, ◌↔◌, refl, sym, ◌∙◌, true, false, List, [], ◌∷◌, Option, none, some, ◌==◌, ok,
  Bool-cases, inl, inr, ◌⊎◌, ==_iff, ◌≢◌,
}
use witseal.Prelude.Text.{Text, option_eq, option_eq_iff}
use witseal.Schema.Witness.{WitnessEvent}
use witseal.Chain.{
  ChainVerifyResult, verify_from, verify_chain, constant_time_equals, expected_sequence, broken,
  linkage_reason, content_reason, sequence_reason,
}
use witseal.Chain.Equals.{constant_time_equals_iff}
use witseal.Chain.Digest.{event_digest, verify_event_hash-eq}
use witseal.Chain.Spec.{IsLink, IsChainFrom, IsChain, head_after}

abbrev pub accepted : Option Text → ChainVerifyResult
accepted head = record { valid = true; broken_at = none; reason = none; chain_head_after = head }

-- How an event fails to continue a chain, by the first check that it fails.
pub data BreakKind : Type 0 where
  linkage content sequence : BreakKind

abbrev pub reason_of : BreakKind → ℕ → WitnessEvent → Option ℕ → Option Text → Text
reason_of linkage j e before head = linkage_reason j head e.previous_event_hash
reason_of content j e before head = content_reason j e.event_id
reason_of sequence j e before head = sequence_reason j (expected_sequence before e) e.sequence

module _ (sha256 : Text → Text) where
  abbrev pub FailsAs : BreakKind → Option ℕ → Option Text → WitnessEvent → Type 0
  FailsAs linkage before head e = e.previous_event_hash ≢ head
  FailsAs content before head e =
      (e.previous_event_hash ≡ head) × (e.event_hash ≢ event_digest sha256 e.draft)
  FailsAs sequence before head e =
      (e.previous_event_hash ≡ head)
      × (e.event_hash ≡ event_digest sha256 e.draft)
      × (e.sequence ≢ expected_sequence before e)

  -- The events from index `i` on continue the chain up to index `j`, whose event `e` fails as `k`.
  pub data FirstBreak
      : ℕ
        → Option ℕ
        → Option Text
        → List WitnessEvent
        → ℕ
        → BreakKind
        → WitnessEvent
        → Option ℕ
        → Option Text
        → Type 0 where
    here :
        (i : ℕ) (before : Option ℕ) (head : Option Text) (e : WitnessEvent) (es : List WitnessEvent)
        (k : BreakKind)
        → FailsAs k before head e
        → FirstBreak i before head (e ∷ es) i k e before head
    later :
        {i j : ℕ} {before b : Option ℕ} {head h : Option Text} {e f : WitnessEvent}
        {es : List WitnessEvent} {k : BreakKind}
        → IsLink sha256 before head e
        → FirstBreak (i + 1) (some e.sequence) (some e.event_hash) es j k f b h
        → FirstBreak i before head (e ∷ es) j k f b h

  -- The outcome of the loop: a chain that is accepted, or the first break, reported.
  abbrev Verdict : ℕ → Option ℕ → Option Text → List WitnessEvent → Type 0
  Verdict i before head es =
      (IsChainFrom sha256 before head es
        × (verify_from sha256 i before head es ≡ ok (accepted (head_after head es))))
      ⊎ ((j : ℕ) × (k : BreakKind) × (f : WitnessEvent) × (b : Option ℕ) × (h : Option Text)
          × FirstBreak i before head es j k f b h
          × (verify_from sha256 i before head es ≡ ok (broken j (reason_of k j f b h))))

  -- What one round returns, by the event's three checks.
  module _ (i : ℕ) (before : Option ℕ) (head : Option Text) (e : WitnessEvent)
      (es : List WitnessEvent) where
    round_linkage :
        option_eq e.previous_event_hash head ≡ false
        → verify_from sha256 i before head (e ∷ es)
          ≡ ok (broken i (linkage_reason i head e.previous_event_hash))
    unfolding verify_from
    round_linkage p = rw p

    round_content :
        option_eq e.previous_event_hash head ≡ true
        → constant_time_equals e.event_hash (event_digest sha256 e.draft) ≡ false
        → verify_from sha256 i before head (e ∷ es) ≡ ok (broken i (content_reason i e.event_id))
    unfolding verify_from
    round_content p q = rw (p, verify_event_hash-eq sha256 e, q)

    round_sequence :
        option_eq e.previous_event_hash head ≡ true
        → constant_time_equals e.event_hash (event_digest sha256 e.draft) ≡ true
        → (e.sequence == expected_sequence before e) ≡ false
        → verify_from sha256 i before head (e ∷ es)
          ≡ ok (broken i (sequence_reason i (expected_sequence before e) e.sequence))
    unfolding verify_from
    round_sequence p q r = rw (p, verify_event_hash-eq sha256 e, q, r)

    round_passed :
        option_eq e.previous_event_hash head ≡ true
        → constant_time_equals e.event_hash (event_digest sha256 e.draft) ≡ true
        → (e.sequence == expected_sequence before e) ≡ true
        → verify_from sha256 i before head (e ∷ es)
          ≡ verify_from sha256 (i + 1) (some e.sequence) (some e.event_hash) es
    unfolding verify_from
    round_passed p q r = rw (p, verify_event_hash-eq sha256 e, q, r)

    round-Verdict :
        Verdict (i + 1) (some e.sequence) (some e.event_hash) es → Verdict i before head (e ∷ es)
    round-Verdict rest = elim (Bool-cases (option_eq e.previous_event_hash head)) [
      | inr p ↦ inr (
        i,
        linkage,
        e,
        before,
        head,
        here i before head e es linkage (λ x. cc (p, (option_eq_iff _ _).1 x)),
        round_linkage p,
      )
      | inl p ↦
          let same = (option_eq_iff _ _).0 p in
          elim (Bool-cases (constant_time_equals e.event_hash (event_digest sha256 e.draft))) [
            | inr q ↦ inr (
              i,
              content,
              e,
              before,
              head,
              here i before head e es content
                  (same, λ x. cc (q, (constant_time_equals_iff _ _).1 x)),
              round_content p q,
            )
            | inl q ↦
                let own = (constant_time_equals_iff _ _).0 q in
                elim (Bool-cases (e.sequence == expected_sequence before e)) [
                  | inr r ↦ inr (
                    i,
                    sequence,
                    e,
                    before,
                    head,
                    here i before head e es sequence (same, own, λ x. cc (r, (==_iff _ _).1 x)),
                    round_sequence p q r,
                  )
                  | inl r ↦
                      let next = (==_iff _ _).0 r in
                      elim rest [
                        | inl (chain, returned) ↦
                            inl (((same, own, next), chain), round_passed p q r ∙ returned)
                        | inr (j, k, f, b, h, found, returned) ↦ inr (
                          j,
                          k,
                          f,
                          b,
                          h,
                          later (same, own, next) found,
                          round_passed p q r ∙ returned,
                        )
                      ]
                ]
          ]
    ]

  verdict :
      (i : ℕ) (before : Option ℕ) (head : Option Text) (es : List WitnessEvent)
      → Verdict i before head es
  unfolding verify_from
  verdict i before head [] = inl (tt, refl)
  verdict i before head (e ∷ es) =
      round-Verdict i before head e es (verdict (i + 1) (some e.sequence) (some e.event_hash) es)

  FirstBreak-not-chain :
      {i j : ℕ} {before b : Option ℕ} {head h : Option Text} {es : List WitnessEvent}
      {k : BreakKind} {f : WitnessEvent}
      → FirstBreak i before head es j k f b h
      → ¬ IsChainFrom sha256 before head es
  FirstBreak-not-chain (here i before head e es linkage p) c = p c.0.0
  FirstBreak-not-chain (here i before head e es content p) c = p.1 c.0.1
  FirstBreak-not-chain (here i before head e es sequence p) c = p.2 c.0.2
  FirstBreak-not-chain (later l t) c = FirstBreak-not-chain t c.1

  pub verdict_of :
      (es : List WitnessEvent) (head : Option Text)
      → (IsChain sha256 head es
          × (verify_chain sha256 es head ≡ ok (accepted (head_after head es))))
        ⊎ ((j : ℕ) × (k : BreakKind) × (f : WitnessEvent) × (b : Option ℕ) × (h : Option Text)
            × FirstBreak 0 none head es j k f b h
            × (verify_chain sha256 es head ≡ ok (broken j (reason_of k j f b h))))
  unfolding verify_chain
  verdict_of es head = verdict 0 none head es

  -- `verifyChain` accepts exactly the chains from the given head, and then returns their last hash.
  pub verify_chain-valid_iff :
      (es : List WitnessEvent) (head : Option Text)
      → (verify_chain sha256 es head ≡ ok (accepted (head_after head es))) ↔ IsChain sha256 head es
  unfolding verify_chain
  verify_chain-valid_iff es head = elim (verdict 0 none head es) [
    | inl (chain, returned) ↦ (λ _. chain, λ _. returned)
    | inr (j, k, f, b, h, found, returned) ↦
        (λ e. absurd (refused (sym returned ∙ e)), λ c. absurd (FirstBreak-not-chain found c))
  ]
    where
      refused : {r : Text} {j : ℕ} {t : Option Text} → ok (broken j r) ≡ ok (accepted t) → ⊥
      refused h = cc

  -- On a list that is no chain `verifyChain` does not throw, and reports the first event that does not continue the
  -- chain, with the reason that belongs to the first check which that event fails.
  pub verify_chain-broken :
      (es : List WitnessEvent) (head : Option Text)
      → ¬ IsChain sha256 head es
      → (j : ℕ) × (k : BreakKind) × (f : WitnessEvent) × (b : Option ℕ) × (h : Option Text)
        × FirstBreak 0 none head es j k f b h
        × (verify_chain sha256 es head ≡ ok (broken j (reason_of k j f b h)))
  unfolding verify_chain
  verify_chain-broken es head n = elim (verdict 0 none head es) [
    | inl (chain, returned) ↦ absurd (n chain)
    | inr found ↦ found
  ]

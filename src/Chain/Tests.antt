-- ===== src/Chain/Tests.antt =====
-- A chain of one event, and an event that continues no chain.
use witseal.Prelude.{ℕ, ◌≡◌, ◌↔◌, ◌⊎◌, refl, sym, ◌∙◌, ok, [], ◌∷◌, Option, none, some, arith}
use witseal.Prelude.Text.{Text, codes}
use witseal.Schema.Witness.{WitnessEvent, WitnessEventDraft, pending}
use witseal.Schema.Witness.Samples.{draft_of}
use witseal.Chain.{verify_chain, broken}
use witseal.Chain.Digest.{event_digest}
use witseal.Chain.Spec.{IsChain, head_after}
use witseal.Chain.Verified.{
  verify_chain-valid_iff, verify_chain-broken, accepted, BreakKind, FirstBreak, reason_of,
}
use witseal.Chain.Tamper.{detect_tampering}
use witseal.Chain.Tamper.Kinds.{IsEventId}
use witseal.Chain.Tamper.Report.{detect_tampering_lem, clean, tampered_at}
use witseal.Chain.Commitment.{verify_chain-commits}

-- A function in the place of SHA-256: the text itself.
abbrev plain_hash : Text → Text
plain_hash t = t

abbrev first : WitnessEvent
first = record {
  draft = draft_of pending none 0;
  event_hash = event_digest plain_hash (draft_of pending none 0);
}

abbrev stray : WitnessEvent
stray = record { draft = draft_of pending (some (codes "x")) 0; event_hash = codes "y" }

verify_chain-valid_iff_example :
    (verify_chain plain_hash (first ∷ []) none ≡ ok (accepted (head_after none (first ∷ []))))
    ↔ IsChain plain_hash none (first ∷ [])
verify_chain-valid_iff_example = verify_chain-valid_iff plain_hash (first ∷ []) none

stray-not-IsChain : ¬ IsChain plain_hash none (stray ∷ [])
stray-not-IsChain c = cc (c.0.0)

verify_chain-broken_example :
    (j : ℕ) × (k : BreakKind) × (f : WitnessEvent) × (b : Option ℕ) × (h : Option Text) × FirstBreak
      plain_hash 0 none none
      (stray ∷ [])
      j
      k
      f
      b
      h
    × (verify_chain plain_hash (stray ∷ []) none ≡ ok (broken j (reason_of k j f b h)))
verify_chain-broken_example = verify_chain-broken plain_hash (stray ∷ []) none stray-not-IsChain

-- Its id is one that `generateEventId` could make.
stray_id : IsEventId stray.event_id
stray_id = (
  codes "abcdefghijklmnopqrstuv",
  refl,
  (
    refl,
    (
      refl,
      (
        refl,
        (
          refl,
          (
            refl,
            (
              refl,
              (
                refl,
                (
                  refl,
                  (
                    refl,
                    (
                      refl,
                      (
                        refl,
                        (
                          refl,
                          (
                            refl,
                            (
                              refl,
                              (refl, (refl, (refl, (refl, (refl, (refl, (refl, (refl, tt)))))))),
                            ),
                          ),
                        ),
                      ),
                    ),
                  ),
                ),
              ),
            ),
          ),
        ),
      ),
    ),
  ),
  omega arith,
)

detect_tampering_lem_example :
    (IsChain plain_hash none (stray ∷ [])
      × (detect_tampering plain_hash (stray ∷ []) none ≡ ok clean))
    ⊎ ((j : ℕ) × (k : BreakKind) × (f : WitnessEvent) × (b : Option ℕ) × (h : Option Text)
        × FirstBreak plain_hash 0 none none (stray ∷ []) j k f b h
        × (detect_tampering plain_hash (stray ∷ []) none
            ≡ ok (tampered_at j k (reason_of k j f b h))))
detect_tampering_lem_example = detect_tampering_lem plain_hash (stray ∷ []) none (stray_id, tt)

abbrev Known : WitnessEventDraft → Type 0
Known d = d ≡ draft_of pending none 0

Known-alike :
    (d d' : WitnessEventDraft)
    → Known d
    → Known d'
    → event_digest plain_hash d ≡ event_digest plain_hash d'
    → d ≡ d'
Known-alike d d' p q h = p ∙ sym q

first-accepted :
    verify_chain plain_hash (first ∷ []) none ≡ ok (accepted (head_after none (first ∷ [])))
first-accepted = (verify_chain-valid_iff plain_hash (first ∷ []) none).1 ((refl, refl, refl), tt)

verify_chain-commits_example : first ∷ [] ≡ first ∷ []
verify_chain-commits_example =
    verify_chain-commits plain_hash Known Known-alike (first ∷ []) (first ∷ [])
      (head_after none (first ∷ [])) (refl, tt) (refl, tt) first-accepted first-accepted

-- ===== src/Chain/Tamper/Report.antt =====
-- What the tamper report says of a list of events.
use witseal.Prelude.{ℕ, ◌≡◌, true, false, List, Option, some, ok, All, inl, inr, ◌⊎◌, ap}
use witseal.Prelude.Text.{Text}
use witseal.Schema.Witness.{WitnessEvent}
use witseal.Chain.Spec.{IsChain}
use witseal.Chain.Verified.{BreakKind, FirstBreak, here, later, reason_of, verdict_of}
use witseal.Chain.Tamper.{TamperKind, TamperReport, classify_break, detect_tampering}
use witseal.Chain.Tamper.Kinds.{
  IsEventId, classify_break-linkage, classify_break-content, classify_break-sequence,
}

abbrev pub kind_of : BreakKind → TamperKind
kind_of BreakKind.linkage = TamperKind.linkage
kind_of BreakKind.content = TamperKind.content
kind_of BreakKind.sequence = TamperKind.sequence

abbrev pub clean : TamperReport
clean = record {
  tampered = false;
  kind = TamperKind.none;
  at_index = Option.none;
  detail = Option.none;
}

abbrev pub tampered_at : ℕ → BreakKind → Text → TamperReport
tampered_at j k reason = record {
  tampered = true;
  kind = kind_of k;
  at_index = some j;
  detail = some reason;
}

classify_break-reason :
    (k : BreakKind) (j : ℕ) (f : WitnessEvent) (b : Option ℕ) (h : Option Text)
    → IsEventId f.event_id
    → classify_break (some (reason_of k j f b h)) ≡ kind_of k
classify_break-reason BreakKind.linkage j f b h id =
    classify_break-linkage j h f.previous_event_hash
classify_break-reason BreakKind.content j f b h id = classify_break-content j f.event_id id
classify_break-reason BreakKind.sequence j f b h id = classify_break-sequence j _ f.sequence

module _ (sha256 : Text → Text) where
  FirstBreak-All :
      (P : WitnessEvent → Type 0) {i j : ℕ} {before b : Option ℕ} {head h : Option Text}
      {es : List WitnessEvent} {k : BreakKind} {f : WitnessEvent}
      → FirstBreak sha256 i before head es j k f b h
      → All P es
      → P f
  FirstBreak-All P (here i before head e es k p) (a, _) = a
  FirstBreak-All P (later l t) (_, a) = FirstBreak-All P t a

  -- For events with ids of the schema's form: the report is clean for a chain from the given head,
  -- and otherwise names the index of the first event that breaks the chain, and how it does.
  pub detect_tampering_lem :
      (es : List WitnessEvent) (head : Option Text)
      → All (λ e. IsEventId e.event_id) es
      → (IsChain sha256 head es × (detect_tampering sha256 es head ≡ ok clean))
        ⊎ ((j : ℕ) × (k : BreakKind) × (f : WitnessEvent) × (b : Option ℕ) × (h : Option Text)
            × FirstBreak sha256 0 Option.none head es j k f b h
            × (detect_tampering sha256 es head ≡ ok (tampered_at j k (reason_of k j f b h))))
  unfolding detect_tampering
  detect_tampering_lem es head ids = elim (verdict_of sha256 es head) [
    | inl (chain, returned) ↦ inl (chain, rw returned)
    | inr (j, k, f, b, h, found, returned) ↦ inr (
      j,
      k,
      f,
      b,
      h,
      found,
      rw returned (
          ap
            (λ t. ok (record {
              tampered = true;
              kind = t;
              at_index = some j;
              detail = some (reason_of k j f b h);
            }))
            (classify_break-reason k j f b h
              (FirstBreak-All (λ e. IsEventId e.event_id) found ids))),
    )
  ]

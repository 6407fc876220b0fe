-- ===== src/Receipts/Derived.antt =====
-- What a valid receipt says of its event, and that a generated one is valid.
use witseal.Prelude.{◌≡◌, ◌↔◌, refl, Bool, true, false, Option, none, some, Result, ok}
use witseal.Prelude.Text.{Text, text_eq_iff, option_eq_iff}
use witseal.Json.Stringify.{IsPlain, plain_str, plain_obj, with_field, no_field}
use witseal.Schema.Intent.{classified_intent_value}
use witseal.Schema.Policy.{policy_decision_value}
use witseal.Schema.Execution.{ExecutionResult, execution_result_value}
use witseal.Schema.Witness.{WitnessEvent, outcome_text}
use witseal.Schema.Witness.Plain.{
  classified_intent-IsPlain, policy_decision-IsPlain, execution_result-IsPlain,
  nullable_text-IsPlain,
}
use witseal.Chain.Digest.{digest, sha256_of_canonical-eq}
use witseal.Receipts.{
  ExecutionReceiptDraft, ExecutionReceipt, receipt_draft_value, ReceiptCheck, valid_receipt,
  result_hash, generate_receipt, unless_same, verify_receipt,
}

pub receipt_draft-IsPlain : (d : ExecutionReceiptDraft) → IsPlain (receipt_draft_value d)
unfolding receipt_draft_value
receipt_draft-IsPlain d = plain_obj (
    with_field _ (plain_str _) (
      with_field _ (plain_str _) (
        with_field _ (plain_str _) (
          with_field _ (plain_str _) (
            with_field _ (plain_str _) (
              with_field _ (plain_str _) (
                with_field _ (plain_str _) (
                  with_field _ (nullable_text-IsPlain d.execution_result_hash)
                    (with_field _ (plain_str _) no_field)))))))))

abbrev IsValid : Result ReceiptCheck → Type 0
IsValid r = r ≡ ok valid_receipt

unless_same_iff :
    (b : Bool) (t : Text) (rest : Result ReceiptCheck) (P Q : Type 0)
    → (b ≡ true) ↔ P
    → IsValid rest ↔ Q
    → IsValid (unless_same b t rest) ↔ (P × Q)
unless_same_iff true t rest P Q (p, _) (q, q') = ((λ h. (p refl, q h)), (λ (_, y). q' y))
unless_same_iff false t rest P Q (_, p') _ = ((λ h. cc), (λ (x, _). cc (p' x)))

module _ (sha256 : Text → Text) where
  abbrev pub intent_digest : WitnessEvent → Text
  intent_digest e =
      digest sha256 (classified_intent_value e.classified_intent)
        (classified_intent-IsPlain e.classified_intent)

  abbrev pub decision_digest : WitnessEvent → Text
  decision_digest e =
      digest sha256 (policy_decision_value e.policy_decision)
        (policy_decision-IsPlain e.policy_decision)

  abbrev pub result_digest : Option ExecutionResult → Option Text
  result_digest none = none
  result_digest (some r) =
      some (digest sha256 (execution_result_value r) (execution_result-IsPlain r))

  abbrev pub receipt_digest : ExecutionReceiptDraft → Text
  receipt_digest d = digest sha256 (receipt_draft_value d) (receipt_draft-IsPlain d)

  pub result_hash-eq : (r : Option ExecutionResult) → result_hash sha256 r ≡ ok (result_digest r)
  result_hash-eq none = refl
  result_hash-eq (some r) =
      rw (sha256_of_canonical-eq sha256 (execution_result_value r) (execution_result-IsPlain r))
        refl

  -- The ids of the event, the digests of its parts, and the digest of the receipt itself.
  abbrev pub IsReceiptOf : ExecutionReceipt → WitnessEvent → Type 0
  IsReceiptOf r e =
      (r.witness_event_id ≡ e.event_id)
      × ((r.receipt_id ≡ e.receipt_id)
          × ((r.classified_intent_hash ≡ intent_digest e)
              × ((r.policy_decision_hash ≡ decision_digest e)
                  × ((r.execution_result_hash ≡ result_digest e.execution_result)
                      × ((receipt_digest r.draft ≡ r.receipt_hash) × Unit {0})))))

  -- `verifyReceipt` accepts exactly the receipts that have the event's ids and the digests of its
  -- intent, decision and result, and whose own hash is that of their other fields.
  pub verify_receipt-valid_iff :
      (r : ExecutionReceipt) (e : WitnessEvent)
      → (verify_receipt sha256 r e ≡ ok valid_receipt) ↔ IsReceiptOf r e
  unfolding verify_receipt
  verify_receipt-valid_iff r e =
      rw
        (
          sha256_of_canonical-eq sha256 (classified_intent_value e.classified_intent)
              (classified_intent-IsPlain e.classified_intent),
          sha256_of_canonical-eq sha256 (policy_decision_value e.policy_decision)
              (policy_decision-IsPlain e.policy_decision),
          result_hash-eq e.execution_result,
          sha256_of_canonical-eq sha256 (receipt_draft_value r.draft)
              (receipt_draft-IsPlain r.draft),
        )
        (unless_same_iff _ _ _ _ _ (text_eq_iff _ _) (
          unless_same_iff _ _ _ _ _ (text_eq_iff _ _) (
            unless_same_iff _ _ _ _ _ (text_eq_iff _ _) (
              unless_same_iff _ _ _ _ _ (text_eq_iff _ _) (
                unless_same_iff _ _ _ _ _ (option_eq_iff _ _)
                  (unless_same_iff _ _ _ _ _ (text_eq_iff _ _) ((λ _. tt), (λ _. refl))))))))

  abbrev pub receipt_draft_of : Text → WitnessEvent → ExecutionReceiptDraft
  receipt_draft_of now e = record {
    receipt_id = e.receipt_id;
    witness_event_id = e.event_id;
    chain_segment_id = e.chain_segment_id;
    finalized_at = now;
    policy_decision_hash = decision_digest e;
    classified_intent_hash = intent_digest e;
    execution_result_hash = result_digest e.execution_result;
    outcome = outcome_text e.outcome;
  }

  -- A receipt can be generated for every event, carries its outcome, and is valid for it.
  pub verify_receipt-generate_receipt :
      (now : Text) (e : WitnessEvent)
      → (r : ExecutionReceipt) × ((generate_receipt sha256 now e ≡ ok r)
          × ((r.outcome ≡ outcome_text e.outcome) × (verify_receipt sha256 r e ≡ ok valid_receipt)))
  unfolding generate_receipt
  verify_receipt-generate_receipt now e =
      let draft = receipt_draft_of now e in
      let receipt : ExecutionReceipt = record {
        draft = draft;
        receipt_hash = receipt_digest draft;
      } in
      (
        receipt,
        (
          rw
              (
                sha256_of_canonical-eq sha256 (policy_decision_value e.policy_decision)
                    (policy_decision-IsPlain e.policy_decision),
                sha256_of_canonical-eq sha256 (classified_intent_value e.classified_intent)
                    (classified_intent-IsPlain e.classified_intent),
                result_hash-eq e.execution_result,
                sha256_of_canonical-eq sha256 (receipt_draft_value draft)
                    (receipt_draft-IsPlain draft),
              )
              refl,
          (
            refl,
            (verify_receipt-valid_iff receipt e).1
                (refl, (refl, (refl, (refl, (refl, (refl, tt)))))),
          ),
        ),
      )

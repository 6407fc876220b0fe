-- ===== src/Receipts.antt =====
-- src/receipts/generate.ts, version 0.1: a receipt is derived from its witness event and checked
-- against it.
pub mod Derived
pub mod Signing
pub mod Signed
pub mod Versions
pub mod Generated
pub mod Tests
use witseal.Prelude.{
  Bool, true, false, not, Option, none, some, Result, ok, err, ◌>>=◌, if◌then◌else◌,
}
use witseal.Prelude.Text.{Text, codes, text_eq, option_eq}
use witseal.Json.{Value, Fields, end, field, str, obj, nullable}
use witseal.Schema.Intent.{classified_intent_value}
use witseal.Schema.Policy.{policy_decision_value}
use witseal.Schema.Execution.{ExecutionResult, execution_result_value}
use witseal.Schema.Witness.{WitnessEvent, outcome_text}
use witseal.Chain.{sha256_of_canonical}

pub record ExecutionReceiptDraft : Type 0 where
  pub receipt_id : Text
  pub witness_event_id : Text
  pub chain_segment_id : Text
  pub finalized_at : Text
  pub policy_decision_hash : Text
  pub classified_intent_hash : Text
  pub execution_result_hash : Option Text
  pub outcome : Text

pub record ExecutionReceipt : Type 0 where
  pub draft : ExecutionReceiptDraft
  pub open draft use *
  pub receipt_hash : Text

unfoldable pub receipt_draft_value : ExecutionReceiptDraft → Value
receipt_draft_value d = obj (
    field (codes "schema_version") (str (codes "witseal.receipt.v0.1")) (
      field (codes "receipt_id") (str d.receipt_id) (
        field (codes "witness_event_id") (str d.witness_event_id) (
          field (codes "chain_segment_id") (str d.chain_segment_id) (
            field (codes "finalized_at") (str d.finalized_at) (
              field (codes "policy_decision_hash") (str d.policy_decision_hash) (
                field (codes "classified_intent_hash") (str d.classified_intent_hash) (
                  field (codes "execution_result_hash") (nullable str d.execution_result_hash)
                    (field (codes "outcome") (str d.outcome) end)))))))))

-- `{ valid, reason }`
pub record ReceiptCheck : Type 0 where
  pub valid : Bool
  pub reason : Option Text

abbrev pub valid_receipt : ReceiptCheck
valid_receipt = record { valid = true; reason = none }

abbrev pub invalid_receipt : Text → ReceiptCheck
invalid_receipt reason = record { valid = false; reason = some reason }

-- One check: the reason where it fails.
abbrev pub unless_same : Bool → Text → Result ReceiptCheck → Result ReceiptCheck
unless_same same reason rest = if not same then ok (invalid_receipt reason) else rest

module _ (sha256 : Text → Text) where
  abbrev pub result_hash : Option ExecutionResult → Result (Option Text)
  result_hash none = ok none
  result_hash (some r) = sha256_of_canonical sha256 (execution_result_value r) >>= λ h. ok (some h)

  -- `generateReceipt`, at the time `now`
  unfoldable pub generate_receipt : Text → WitnessEvent → Result ExecutionReceipt
  generate_receipt now event =
      sha256_of_canonical sha256 (policy_decision_value event.policy_decision)
      >>= λ policy_decision_hash.
          sha256_of_canonical sha256 (classified_intent_value event.classified_intent)
          >>= λ classified_intent_hash.
              result_hash event.execution_result >>= λ execution_result_hash.
              let draft : ExecutionReceiptDraft = record {
                receipt_id = event.receipt_id;
                witness_event_id = event.event_id;
                chain_segment_id = event.chain_segment_id;
                finalized_at = now;
                policy_decision_hash = policy_decision_hash;
                classified_intent_hash = classified_intent_hash;
                execution_result_hash = execution_result_hash;
                outcome = outcome_text event.outcome;
              } in
              sha256_of_canonical sha256 (receipt_draft_value draft) >>= λ receipt_hash.
              ok (record { draft = draft; receipt_hash = receipt_hash })

  unfoldable pub verify_receipt : ExecutionReceipt → WitnessEvent → Result ReceiptCheck
  verify_receipt receipt event =
      unless_same (text_eq receipt.witness_event_id event.event_id)
        (codes "witness_event_id does not match event_id")
        (unless_same (text_eq receipt.receipt_id event.receipt_id)
          (codes "receipt_id does not match event.receipt_id")
          (sha256_of_canonical sha256 (classified_intent_value event.classified_intent)
            >>= λ intent_hash.
                unless_same (text_eq receipt.classified_intent_hash intent_hash)
                  (codes "classified_intent_hash mismatch")
                  (sha256_of_canonical sha256 (policy_decision_value event.policy_decision)
                    >>= λ decision_hash.
                        unless_same (text_eq receipt.policy_decision_hash decision_hash)
                          (codes "policy_decision_hash mismatch")
                          (result_hash event.execution_result >>= λ expected_exec_hash.
                            unless_same (option_eq receipt.execution_result_hash expected_exec_hash)
                              (codes "execution_result_hash mismatch")
                              (sha256_of_canonical sha256 (receipt_draft_value receipt.draft)
                                >>= λ own_hash.
                                    unless_same (text_eq own_hash receipt.receipt_hash)
                                      (codes "receipt_hash invalid (self-hash check failed)")
                                      (ok valid_receipt))))))

-- ===== src/Receipts/Versions.antt =====
-- `generateReceiptV02` and `generateReceiptByVersion` of src/receipts/generate.ts, and the receipt of
-- schemas/receipt-v0.2.schema.ts.
use witseal.Prelude.{Bool, Option, none, some, Result, ok, err, ◌>>=◌, if◌then◌else◌, ◌++◌}
use witseal.Prelude.Text.{Text, codes, text_eq}
use witseal.Json.{Fields, end, field, str, bool, nullable, optional}
use witseal.Json.Objects.{set_field}
use witseal.Schema.Intent.{classified_intent_value}
use witseal.Schema.Policy.{policy_decision_value}
use witseal.Schema.Witness.{WitnessEvent, outcome_text}
use witseal.Chain.{sha256_of_canonical}
use witseal.Receipts.{ExecutionReceipt, result_hash, generate_receipt}
use witseal.Receipts.Signing.{Crypto, KeyMaterial, signature_sentinel, sign_receipt_v02}

-- The signature of a draft is the sentinel.
pub record ExecutionReceiptV02Draft : Type 0 where
  pub receipt_id : Option Text
  pub witness_event_id : Text
  pub chain_segment_id : Text
  pub finalized_at : Text
  pub policy_decision_hash : Text
  pub classified_intent_hash : Text
  pub execution_result_hash : Option Text
  pub outcome : Text
  pub prev_hash : Option Text
  pub signature : Text
  pub git_commit : Text
  pub artifact_digest : Text
  pub attestation_digest : Text
  pub artifact_type : Text
  pub build_id : Text
  pub sigstore_signature : Option Text
  pub classifier_version : Option Text
  pub shadow_mode : Option Bool

pub record ExecutionReceiptV02 : Type 0 where
  pub draft : ExecutionReceiptV02Draft
  pub open draft use *
  pub receipt_hash : Text

pub record ReceiptV02ExtraInputs : Type 0 where
  pub prev_hash : Option Text
  pub git_commit : Text
  pub artifact_digest : Text
  pub attestation_digest : Text
  pub artifact_type : Text
  pub build_id : Text
  pub execution_lost : Bool
  pub sigstore_signature : Option Text
  pub classifier_version : Option Text
  pub shadow_mode : Option Bool
  pub finalized_at : Option Text

unfoldable pub receipt_draft_fields : ExecutionReceiptV02Draft → Fields
receipt_draft_fields d = field (codes "schema_version") (str (codes "witseal.receipt.v0.2")) (
    field (codes "receipt_id") (nullable str d.receipt_id) (
      field (codes "witness_event_id") (str d.witness_event_id) (
        field (codes "chain_segment_id") (str d.chain_segment_id) (
          field (codes "finalized_at") (str d.finalized_at) (
            field (codes "policy_decision_hash") (str d.policy_decision_hash) (
              field (codes "classified_intent_hash") (str d.classified_intent_hash) (
                field (codes "execution_result_hash") (nullable str d.execution_result_hash) (
                  field (codes "outcome") (str d.outcome) (
                    field (codes "prev_hash") (nullable str d.prev_hash) (
                      field (codes "signature") (str d.signature) (
                        field (codes "git_commit") (str d.git_commit) (
                          field (codes "artifact_digest") (str d.artifact_digest) (
                            field (codes "attestation_digest") (str d.attestation_digest) (
                              field (codes "artifact_type") (str d.artifact_type) (
                                field (codes "build_id") (str d.build_id) (
                                  optional (codes "sigstore_signature") str d.sigstore_signature (
                                    optional (codes "classifier_version") str d.classifier_version (
                                      optional (codes "shadow_mode") bool d.shadow_mode
                                        end))))))))))))))))))

-- The object of a receipt that has been parsed
unfoldable pub receipt_fields : ExecutionReceiptV02 → Fields
unfolding receipt_draft_fields
receipt_fields r =
    set_field (codes "receipt_hash") (str r.receipt_hash) (receipt_draft_fields r.draft)

abbrev or_default : Option Text → Text → Text
or_default none t = t
or_default (some s) t = s

-- `execution_lost` as an outcome of a receipt
unfoldable pub execution_lost_outcome : Text
execution_lost_outcome = codes "execution_lost"

-- A receipt as `generateReceiptByVersion` returns it: of version 0.1, or the object of version 0.2.
pub data AnyReceipt : Type 0 where
  v01 : ExecutionReceipt → AnyReceipt
  v02 : Fields → AnyReceipt

module _ (crypto : Crypto) where
  open crypto use {sha256, PrivateKey}

  abbrev pub result_hash_unless : Bool → WitnessEvent → Result (Option Text)
  result_hash_unless lost event =
      if lost then ok none else result_hash sha256 event.execution_result

  abbrev pub v02_draft :
      Text
      → WitnessEvent
      → ReceiptV02ExtraInputs
      → Text
      → Text
      → Option Text
      → ExecutionReceiptV02Draft
  v02_draft now event extra decision_hash intent_hash exec_hash = record {
    receipt_id = if extra.execution_lost then none else some event.receipt_id;
    witness_event_id = event.event_id;
    chain_segment_id = event.chain_segment_id;
    finalized_at = or_default extra.finalized_at now;
    policy_decision_hash = decision_hash;
    classified_intent_hash = intent_hash;
    execution_result_hash = exec_hash;
    outcome = if extra.execution_lost then execution_lost_outcome else outcome_text event.outcome;
    prev_hash = extra.prev_hash;
    signature = signature_sentinel;
    git_commit = extra.git_commit;
    artifact_digest = extra.artifact_digest;
    attestation_digest = extra.attestation_digest;
    artifact_type = extra.artifact_type;
    build_id = extra.build_id;
    sigstore_signature = extra.sigstore_signature;
    classifier_version = extra.classifier_version;
    shadow_mode = extra.shadow_mode;
  }

  -- At the time `now`, to the second
  unfoldable pub generate_receipt_v02 :
      Text → WitnessEvent → ReceiptV02ExtraInputs → KeyMaterial PrivateKey → Result Fields
  unfolding receipt_draft_fields execution_lost_outcome
  generate_receipt_v02 now event extra private_key = do
    decision_hash ← sha256_of_canonical sha256 (policy_decision_value event.policy_decision)
    intent_hash ← sha256_of_canonical sha256 (classified_intent_value event.classified_intent)
    exec_hash ← result_hash_unless extra.execution_lost event
    sign_receipt_v02 crypto
        (receipt_draft_fields (v02_draft now event extra decision_hash intent_hash exec_hash))
        private_key

  abbrev by_v02 :
      Text
      → WitnessEvent
      → Option ReceiptV02ExtraInputs
      → Option (KeyMaterial PrivateKey)
      → Result AnyReceipt
  by_v02 now event (some extra) (some key) =
      generate_receipt_v02 now event extra key >>= λ r. ok (v02 r)
  by_v02 now event _ _ =
      err (codes "generateReceiptByVersion: v0.2 requires `extra` and `privateKey`")

  unfoldable pub generate_receipt_by_version :
      Text
      → WitnessEvent
      → Text
      → Option ReceiptV02ExtraInputs
      → Option (KeyMaterial PrivateKey)
      → Result AnyReceipt
  unfolding generate_receipt_v02
  generate_receipt_by_version now event version extra key =
      if text_eq version (codes "witseal.receipt.v0.1")
      then (generate_receipt sha256 now event >>= λ r. ok (v01 r))
      else if text_eq version (codes "witseal.receipt.v0.2")
      then by_v02 now event extra key
      else err (codes "generateReceiptByVersion: unknown schema_version " ++ version)

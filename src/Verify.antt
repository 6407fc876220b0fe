-- ===== src/Verify.antt =====
-- src/verify/verify.ts: one verdict on a receipt of either version or on an evidence package.
pub mod Artifact
pub mod Package
pub mod Paired
pub mod Exact
pub mod Tests
use witseal.Prelude.{
  ℕ, zero, suc, ◌+◌, ◌==◌, Bool, true, false, not, List, [], ◌∷◌, ◌++◌, map, Option, none, some,
  Result, ok, err, ◌>>=◌, if◌then◌else◌, get_last?, is_empty,
}
use witseal.Prelude.Text.{Text, codes, text_eq, option_eq, join}
use witseal.Json.{Value, str, arr, obj, undefined, Items, nil, cons, Fields, get_field}
use witseal.Json.Decimal.{digits}
use witseal.Schema.Intent.{classified_intent_value}
use witseal.Schema.Policy.{policy_decision_value}
use witseal.Schema.Witness.{WitnessEvent}
use witseal.Chain.{sha256_of_canonical, ChainVerifyResult, verify_chain}
use witseal.Receipts.{
  ExecutionReceipt, receipt_draft_value, ReceiptCheck, valid_receipt, invalid_receipt, unless_same,
  result_hash, verify_receipt,
}
use witseal.Receipts.Signing.{Crypto, KeyMaterial, verify_receipt_v02}
use witseal.Receipts.Versions.{ExecutionReceiptV02, receipt_fields}

pub data VerifiedArtifactKind : Type 0 where
  receipt_v01 receipt_v02 evidence_package unknown_artifact : VerifiedArtifactKind

pub record ReceiptResult : Type 0 where
  pub index : ℕ
  pub check : ReceiptCheck

pub record VerifyResult : Type 0 where
  pub valid : Bool
  pub kind : VerifiedArtifactKind
  pub schema_version : Option Text
  pub reason : Option Text
  pub receipt_results : Option (List ReceiptResult)

-- An issue of zod: the path to it, in texts, and the message
pub record Issue : Type 0 where
  pub path : List Text
  pub message : Text

pub data SafeParse (A : Type 0) : Type 0 where
  parsed : A → SafeParse A
  issues : List Issue → SafeParse A

-- `EvidencePackageSchema.omit({ receipts: true })`, in the properties that are read
pub record Envelope : Type 0 where
  pub chain_head_before_range : Option Text
  pub chain_head_after_range : Text
  pub events : List WitnessEvent

-- The `safeParse` of the three schemas.
pub record Schemas : Type 0 where
  pub parse_v01 : Value → SafeParse ExecutionReceipt
  pub parse_v02 : Value → SafeParse ExecutionReceiptV02
  pub parse_envelope : Value → SafeParse Envelope

abbrev or_root : Text → Text
or_root [] = codes "<root>"
or_root (c ∷ t) = c ∷ t

unfoldable pub format_zod_error : List Issue → Text
format_zod_error errors =
    join (codes "; ")
      (map (λ e. or_root (join (codes ".") e.path) ++ (codes ": " ++ e.message)) errors)

abbrev pub text_or_none : Value → Option Text
text_or_none (str t) = some t
text_or_none _ = none

unfoldable pub read_schema_version : Value → Option Text
read_schema_version (obj fs) = text_or_none (get_field (codes "schema_version") fs)
read_schema_version _ = none

-- A later event replaces an earlier one of the same id in the map.
unfoldable pub event_by_id : Text → List WitnessEvent → Option WitnessEvent
event_by_id id [] = none
event_by_id id (e ∷ es) =
    let later = event_by_id id es in
    elim later [ some f ↦ some f | none ↦ if text_eq e.event_id id then some e else none ]

abbrev pub v01_version : Text
v01_version = codes "witseal.receipt.v0.1"

abbrev pub v02_version : Text
v02_version = codes "witseal.receipt.v0.2"

abbrev pub package_version : Text
package_version = codes "witseal.evidence-package.v0.1"

abbrev pub verdict : VerifiedArtifactKind → Text → ReceiptCheck → VerifyResult
verdict kind version check = record {
  valid = check.valid;
  kind = kind;
  schema_version = some version;
  reason = check.reason;
  receipt_results = none;
}

abbrev pub rejected : VerifiedArtifactKind → Text → Text → Result VerifyResult
rejected kind version reason = ok (verdict kind version (invalid_receipt reason))

abbrev no_companion : Text → Text
no_companion id =
    codes "witness_event_id " ++ (id ++ codes " has no companion event in the package")

-- `forVerification`: the object as received, where it is one
unfoldable pub for_verification : Value → ExecutionReceiptV02 → Fields
for_verification (obj fs) validated = fs
for_verification _ validated = receipt_fields validated

module _ (crypto : Crypto) (schemas : Schemas) where
  open crypto use {sha256, PublicKey}
  open schemas use {parse_v01, parse_v02, parse_envelope}

  abbrev by_v01_schema : SafeParse ExecutionReceipt → Result VerifyResult
  by_v01_schema (issues e) =
      rejected receipt_v01 v01_version (codes "schema validation failed: " ++ format_zod_error e)
  by_v01_schema (parsed receipt) =
      sha256_of_canonical sha256 (receipt_draft_value receipt.draft) >>= λ expected.
      if not (text_eq expected receipt.receipt_hash)
      then rejected receipt_v01 v01_version (codes "receipt_hash invalid (self-hash check failed)")
      else ok (verdict receipt_v01 v01_version valid_receipt)

  unfoldable pub verify_receipt_v01_object : Value → Result VerifyResult
  unfolding format_zod_error
  verify_receipt_v01_object value = by_v01_schema (parse_v01 value)

  abbrev by_v02_schema :
      Value → Option (KeyMaterial PublicKey) → SafeParse ExecutionReceiptV02 → Result VerifyResult
  by_v02_schema value public_key (issues e) =
      rejected receipt_v02 v02_version (codes "schema validation failed: " ++ format_zod_error e)
  by_v02_schema value none (parsed receipt) =
      rejected receipt_v02 v02_version
        (codes "v0.2 receipt verification requires a public key (none supplied)")
  by_v02_schema value (some key) (parsed receipt) =
      verify_receipt_v02 crypto (for_verification value receipt) key >>= λ sig.
      ok (verdict receipt_v02 v02_version sig)

  unfoldable pub verify_receipt_v02_object :
      Value → Option (KeyMaterial PublicKey) → Result VerifyResult
  unfolding format_zod_error for_verification
  verify_receipt_v02_object value public_key = by_v02_schema value public_key (parse_v02 value)

  abbrev pub check_execution_result : Option Text → WitnessEvent → Result ReceiptCheck
  check_execution_result none event = ok valid_receipt
  check_execution_result (some h) event = result_hash sha256 event.execution_result >>= λ expected.
      unless_same (option_eq (some h) expected)
        (codes "execution_result_hash does not match companion event") (ok valid_receipt)

  unfoldable pub cross_check_against_event :
      ExecutionReceiptV02 → WitnessEvent → Result ReceiptCheck
  cross_check_against_event receipt event =
      sha256_of_canonical sha256 (classified_intent_value event.classified_intent)
      >>= λ intent_hash.
          unless_same (text_eq receipt.classified_intent_hash intent_hash)
            (codes "classified_intent_hash does not match companion event")
            (sha256_of_canonical sha256 (policy_decision_value event.policy_decision)
              >>= λ decision_hash.
                  unless_same (text_eq receipt.policy_decision_hash decision_hash)
                    (codes "policy_decision_hash does not match companion event")
                    (check_execution_result receipt.execution_result_hash event))

  abbrev pub with_key :
      Value
      → ExecutionReceiptV02
      → WitnessEvent
      → Option (KeyMaterial PublicKey)
      → Result ReceiptCheck
  with_key raw receipt event none =
      ok (invalid_receipt (codes "v0.2 receipt in package requires a public key (none supplied)"))
  with_key raw receipt event (some key) =
      verify_receipt_v02 crypto (for_verification raw receipt) key >>= λ sig.
      if not sig.valid then ok sig else cross_check_against_event receipt event

  abbrev pub v02_companion :
      Value
      → ExecutionReceiptV02
      → Option (KeyMaterial PublicKey)
      → Option WitnessEvent
      → Result ReceiptCheck
  v02_companion raw receipt public_key none =
      ok (invalid_receipt (no_companion receipt.witness_event_id))
  v02_companion raw receipt public_key (some event) = with_key raw receipt event public_key

  abbrev pub package_v02 :
      Value
      → List WitnessEvent
      → Option (KeyMaterial PublicKey)
      → SafeParse ExecutionReceiptV02
      → Result ReceiptCheck
  package_v02 raw events public_key (issues e) =
      ok (invalid_receipt (codes "v0.2 schema validation failed: " ++ format_zod_error e))
  package_v02 raw events public_key (parsed receipt) =
      v02_companion raw receipt public_key (event_by_id receipt.witness_event_id events)

  abbrev pub v01_companion : ExecutionReceipt → Option WitnessEvent → Result ReceiptCheck
  v01_companion receipt none = ok (invalid_receipt (no_companion receipt.witness_event_id))
  v01_companion receipt (some event) = verify_receipt sha256 receipt event

  abbrev pub package_v01 : List WitnessEvent → SafeParse ExecutionReceipt → Result ReceiptCheck
  package_v01 events (issues e) =
      ok (invalid_receipt (codes "v0.1 schema validation failed: " ++ format_zod_error e))
  package_v01 events (parsed receipt) =
      v01_companion receipt (event_by_id receipt.witness_event_id events)

  unfoldable pub verify_package_receipt :
      Value → List WitnessEvent → Option (KeyMaterial PublicKey) → Result ReceiptCheck
  unfolding format_zod_error for_verification cross_check_against_event event_by_id
      read_schema_version
  verify_package_receipt raw events public_key =
      if option_eq (read_schema_version raw) (some v02_version)
      then package_v02 raw events public_key (parse_v02 raw)
      else package_v01 events (parse_v01 raw)

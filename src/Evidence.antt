-- ===== src/Evidence.antt =====
-- src/evidence/package.ts: the export of a range of events with a receipt for each.
pub mod Range
pub mod Companions
pub mod Exported
pub mod Tests
use witseal.Prelude.{
  ℕ, zero, suc, ◌+◌, ◌-◌, ◌==◌, leb, Bool, true, false, not, ◌&&◌, List, [], ◌∷◌, ◌++◌, map, Option,
  none, some, Result, ok, err, ◌>>=◌, if◌then◌else◌, get_last?, is_empty, find, keep, map_ok,
}
use witseal.Prelude.Text.{Text, codes}
use witseal.Json.{
  Value, Items, nil, cons, Fields, end, field, str, obj, arr, nat, nullable, get_field,
}
use witseal.Json.Objects.{set_field}
use witseal.Json.Decimal.{digits}
use witseal.Schema.Witness.{WitnessEvent, event_value}
use witseal.Receipts.{ExecutionReceipt, receipt_draft_value, generate_receipt}
use witseal.Receipts.Signing.{Crypto, KeyMaterial}
use witseal.Receipts.Versions.{
  ReceiptV02ExtraInputs, AnyReceipt, v01, v02, generate_receipt_by_version,
}

pub record EvidenceExportV02Options (PrivateKey : Type 0) : Type 0 where
  pub signing_key : KeyMaterial PrivateKey
  pub git_commit : Text
  pub artifact_digest : Text
  pub attestation_digest : Text
  pub artifact_type : Text
  pub build_id : Text
  pub sigstore_signature : Option Text
  pub classifier_version : Option Text
  pub shadow_mode : Option Bool

-- `v02_options` is given if the receipts are of version 0.2.
pub record ExportOptions (PrivateKey : Type 0) : Type 0 where
  pub start_sequence : Option ℕ
  pub end_sequence : Option ℕ
  pub v02_options : Option (EvidenceExportV02Options PrivateKey)

-- Policy packs are the values that the caller passes.
pub record EvidencePackage : Type 0 where
  pub package_id : Text
  pub exported_at : Text
  pub chain_segment_id : Text
  pub start_sequence : ℕ
  pub end_sequence : ℕ
  pub chain_head_before_range : Option Text
  pub chain_head_after_range : Text
  pub events : List WitnessEvent
  pub receipts : List AnyReceipt
  pub policy_packs : Items
  pub classifier_version : Text
  pub witseal_runtime_version : Text

-- `{ ...draft, receipt_hash }`
abbrev v01_value : Text → Value → Value
v01_value receipt_hash (obj draft) = obj (set_field (codes "receipt_hash") (str receipt_hash) draft)
v01_value receipt_hash v = v

unfoldable pub receipt_value : AnyReceipt → Value
receipt_value (v01 r) = v01_value r.receipt_hash (receipt_draft_value r.draft)
receipt_value (v02 fs) = obj fs

abbrev pub receipt_items : List AnyReceipt → Items
receipt_items [] = nil
receipt_items (r ∷ rs) = cons (receipt_value r) (receipt_items rs)

abbrev event_items : List WitnessEvent → Items
event_items [] = nil
event_items (ev ∷ events) = cons (event_value ev) (event_items events)

-- The package as the object that is written.
unfoldable pub package_value : EvidencePackage → Value
unfolding receipt_value
package_value p = obj (
    field (codes "schema_version") (str (codes "witseal.evidence-package.v0.1")) (
      field (codes "package_id") (str p.package_id) (
        field (codes "exported_at") (str p.exported_at) (
          field (codes "chain_segment_id") (str p.chain_segment_id) (
            field (codes "range")
              (obj (
                field (codes "start_sequence") (nat p.start_sequence)
                  (field (codes "end_sequence") (nat p.end_sequence) end)))
              (field (codes "chain_head_before_range") (nullable str p.chain_head_before_range) (
                field (codes "chain_head_after_range") (str p.chain_head_after_range) (
                  field (codes "events") (arr (event_items p.events)) (
                    field (codes "policy_packs") (arr p.policy_packs) (
                      field (codes "classifier_version") (str p.classifier_version) (
                        field (codes "witseal_runtime_version") (str p.witseal_runtime_version)
                          (field (codes "receipts") (arr (receipt_items p.receipts)) end))))))))))))

-- The random id of the package, the time of the export, and the time at which the receipt of an event
-- is made.
pub record ExportStamp : Type 0 where
  pub package_id : Text
  pub exported_at : Text
  pub now : WitnessEvent → Text
  pub runtime_version : Text

abbrev pub or_else : Option ℕ → ℕ → ℕ
or_else none n = n
or_else (some m) n = m

abbrev pub in_range : ℕ → ℕ → WitnessEvent → Bool
in_range first last ev = leb first ev.sequence && leb ev.sequence last

abbrev pub hash_of : Option WitnessEvent → Option Text
hash_of none = none
hash_of (some ev) = some ev.event_hash

unfoldable pub find_hash_before : List WitnessEvent → ℕ → Option Text
find_hash_before all_events zero = none
find_hash_before all_events (suc before) = hash_of (find (λ ev. ev.sequence == before) all_events)

-- The hash that links the receipt behind a signed one.
abbrev pub receipt_hash_of : AnyReceipt → Option Text
receipt_hash_of (v01 r) = some r.receipt_hash
receipt_hash_of (v02 fs) = elim (get_field (codes "receipt_hash") fs) [ str t ↦ some t | _ ↦ none ]

unfoldable pub empty_error : Text
empty_error = codes "Cannot export evidence: chain is empty"

abbrev no_events_error : ℕ → ℕ → Text
no_events_error first last =
    codes "No events found in range ["
    ++ (digits first ++ (codes ", " ++ (digits last ++ codes "]")))

-- The last event of a list by its first and the others
abbrev pub last_of : WitnessEvent → List WitnessEvent → WitnessEvent
last_of ev [] = ev
last_of ev (f ∷ events) = last_of f events

module _ (crypto : Crypto) (stamp : ExportStamp) where
  open crypto use {sha256, PrivateKey}
  open stamp use {package_id, exported_at, now, runtime_version}

  abbrev pub extra_inputs :
      EvidenceExportV02Options PrivateKey → Option Text → ReceiptV02ExtraInputs
  extra_inputs opts prev_hash = record {
    prev_hash = prev_hash;
    git_commit = opts.git_commit;
    artifact_digest = opts.artifact_digest;
    attestation_digest = opts.attestation_digest;
    artifact_type = opts.artifact_type;
    build_id = opts.build_id;
    execution_lost = false;
    sigstore_signature = opts.sigstore_signature;
    classifier_version = opts.classifier_version;
    shadow_mode = opts.shadow_mode;
    finalized_at = none;
  }

  -- From a previous receipt's hash on
  unfoldable pub generate_v02_receipts :
      EvidenceExportV02Options PrivateKey
      → Option Text
      → List WitnessEvent
      → Result (List AnyReceipt)
  generate_v02_receipts opts prev_hash [] = ok []
  generate_v02_receipts opts prev_hash (ev ∷ events) =
      generate_receipt_by_version crypto (now ev) ev (codes "witseal.receipt.v0.2")
        (some (extra_inputs opts prev_hash)) (some opts.signing_key)
      >>= λ receipt. generate_v02_receipts opts (receipt_hash_of receipt) events >>= λ receipts.
          ok (receipt ∷ receipts)

  unfoldable pub generate_v01_receipts : List WitnessEvent → Result (List AnyReceipt)
  generate_v01_receipts [] = ok []
  generate_v01_receipts (ev ∷ events) = generate_receipt sha256 (now ev) ev >>= λ receipt.
      generate_v01_receipts events >>= λ receipts. ok (v01 receipt ∷ receipts)

  abbrev pub generate_receipts :
      Option (EvidenceExportV02Options PrivateKey) → List WitnessEvent → Result (List AnyReceipt)
  generate_receipts none events = generate_v01_receipts events
  generate_receipts (some opts) events = generate_v02_receipts opts none events

  abbrev pub package_of :
      Items
      → Text
      → ℕ
      → ℕ
      → Option Text
      → WitnessEvent
      → WitnessEvent
      → List WitnessEvent
      → List AnyReceipt
      → EvidencePackage
  package_of policy_packs classifier_version start_seq end_seq head_before first last events
        receipts =
      record {
        package_id = package_id;
        exported_at = exported_at;
        chain_segment_id = first.chain_segment_id;
        start_sequence = start_seq;
        end_sequence = end_seq;
        chain_head_before_range = head_before;
        chain_head_after_range = last.event_hash;
        events = events;
        receipts = receipts;
        policy_packs = policy_packs;
        classifier_version = classifier_version;
        witseal_runtime_version = runtime_version;
      }

  abbrev pub package_range :
      Items
      → Text
      → Option (EvidenceExportV02Options PrivateKey)
      → ℕ
      → ℕ
      → Option Text
      → List WitnessEvent
      → Result EvidencePackage
  package_range packs version opts start_seq end_seq head_before [] =
      err (no_events_error start_seq end_seq)
  package_range packs version opts start_seq end_seq head_before (ev ∷ events) =
      generate_receipts opts (ev ∷ events) >>= λ receipts. ok (
        package_of packs version start_seq end_seq head_before ev (last_of ev events) (ev ∷ events)
          receipts)

  -- On the events that `readAllEvents` gives
  unfoldable pub export_evidence_package :
      List WitnessEvent → Items → Text → ExportOptions PrivateKey → Result EvidencePackage
  unfolding empty_error find_hash_before generate_v01_receipts generate_v02_receipts
  export_evidence_package [] policy_packs classifier_version options = err empty_error
  export_evidence_package (ev ∷ events) policy_packs classifier_version options =
      let start_seq = or_else options.start_sequence ev.sequence in
      let end_seq = or_else options.end_sequence (last_of ev events).sequence in
      package_range policy_packs classifier_version options.v02_options start_seq end_seq
        (find_hash_before (ev ∷ events) start_seq) (keep (in_range start_seq end_seq) (ev ∷ events))

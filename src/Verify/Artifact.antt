-- ===== src/Verify/Artifact.antt =====
-- src/verify/verify.ts: the verdict on an evidence package, and the choice of the verifier by the
-- schema version.
use witseal.Prelude.{
  ℕ, ◌+◌, true, false, not, List, [], ◌∷◌, ◌++◌, Option, none, some, Result, ok, ◌>>=◌,
  if◌then◌else◌, get_last?,
}
use witseal.Prelude.Text.{Text, codes, option_eq}
use witseal.Json.{Value, arr, obj, Items, nil, cons, get_field}
use witseal.Json.Decimal.{digits}
use witseal.Schema.Witness.{WitnessEvent}
use witseal.Chain.{ChainVerifyResult, verify_chain}
use witseal.Receipts.Signing.{Crypto, KeyMaterial}
use witseal.Verify.{
  evidence_package, unknown_artifact, ReceiptResult, VerifyResult, SafeParse, parsed, issues,
  Envelope, Schemas, format_zod_error, read_schema_version, v01_version, v02_version,
  package_version, rejected, verify_package_receipt, verify_receipt_v01_object,
  verify_receipt_v02_object,
}

abbrev head_text : Option Text → Text
head_text none = codes "null"
head_text (some h) = h

-- The first result that is not valid.
unfoldable pub first_failure : List ReceiptResult → Option ReceiptResult
first_failure [] = none
first_failure (r ∷ rs) = let later = first_failure rs in if not r.check.valid then some r else later

abbrev or_unknown : Option Text → Text
or_unknown none = codes "unknown receipt failure"
or_unknown (some t) = t

abbrev pub package_verdict : Option ReceiptResult → List ReceiptResult → VerifyResult
package_verdict none results = record {
  valid = true;
  kind = evidence_package;
  schema_version = some package_version;
  reason = none;
  receipt_results = some results;
}
package_verdict (some failure) results = record {
  valid = false;
  kind = evidence_package;
  schema_version = some package_version;
  reason = some (
      codes "receipt["
      ++ (digits failure.index
          ++ (codes "] verification failed: " ++ or_unknown failure.check.reason)));
  receipt_results = some results;
}

abbrev or_undefined : Option Text → Text
or_undefined none = codes "undefined"
or_undefined (some t) = t

abbrev pub receipts_of : Value → Option Items
receipts_of (arr items) = some items
receipts_of _ = none

abbrev pub raw_receipts : Value → Option Items
raw_receipts (obj fs) = receipts_of (get_field (codes "receipts") fs)
raw_receipts _ = none

abbrev pub recomputed_head : Option WitnessEvent → Option Text
recomputed_head none = none
recomputed_head (some event) = some event.event_hash

module _ (crypto : Crypto) (schemas : Schemas) where
  open crypto use {sha256, PublicKey}
  open schemas use {parse_envelope}

  -- The results for the receipts from index `i` on.
  unfoldable pub verify_receipts :
      ℕ → Items → List WitnessEvent → Option (KeyMaterial PublicKey) → Result (List ReceiptResult)
  unfolding verify_package_receipt
  verify_receipts i nil events public_key = ok []
  verify_receipts i (cons raw raws) events public_key =
      verify_package_receipt crypto schemas raw events public_key >>= λ sub.
      verify_receipts (i + 1) raws events public_key >>= λ results.
      ok (record { index = i; check = sub } ∷ results)

  abbrev pub check_receipts :
      Envelope → Option (KeyMaterial PublicKey) → Option Items → Result VerifyResult
  check_receipts pkg public_key none =
      rejected evidence_package package_version (codes "receipts: missing or not an array")
  check_receipts pkg public_key (some raws) =
      verify_receipts 0 raws pkg.events public_key >>= λ results.
      ok (package_verdict (first_failure results) results)

  abbrev head_mismatch : Envelope → Text
  head_mismatch pkg =
      codes "chain_head_after_range mismatch: declared "
      ++ (pkg.chain_head_after_range
          ++ (codes ", recomputed " ++ head_text (recomputed_head (get_last? pkg.events))))

  abbrev after_chain :
      Value → Option (KeyMaterial PublicKey) → Envelope → ChainVerifyResult → Result VerifyResult
  after_chain value public_key pkg chain =
      if not chain.valid
      then rejected evidence_package package_version
          (codes "chain verification failed: " ++ or_undefined chain.reason)
      else if not
          (option_eq (recomputed_head (get_last? pkg.events)) (some pkg.chain_head_after_range))
      then rejected evidence_package package_version (head_mismatch pkg)
      else check_receipts pkg public_key (raw_receipts value)

  abbrev by_envelope :
      Value → Option (KeyMaterial PublicKey) → SafeParse Envelope → Result VerifyResult
  by_envelope value public_key (issues e) =
      rejected evidence_package package_version
        (codes "schema validation failed: " ++ format_zod_error e)
  by_envelope value public_key (parsed pkg) =
      verify_chain sha256 pkg.events pkg.chain_head_before_range >>= λ chain.
      after_chain value public_key pkg chain

  unfoldable pub verify_evidence_package_object :
      Value → Option (KeyMaterial PublicKey) → Result VerifyResult
  unfolding format_zod_error verify_receipts first_failure
  verify_evidence_package_object value public_key =
      by_envelope value public_key (parse_envelope value)

  abbrev unknown_verdict : Option Text → VerifyResult
  unknown_verdict version = record {
    valid = false;
    kind = unknown_artifact;
    schema_version = version;
    reason = some (elim version [
      | none ↦ codes "no schema_version field: not a recognized WitSeal artifact"
      | some v ↦
          codes "unrecognized schema_version '"
          ++ (v ++ codes "' (expected a witseal.receipt.* or witseal.evidence-package.* artifact)")
    ]);
    receipt_results = none;
  }

  unfoldable pub verify_artifact : Value → Option (KeyMaterial PublicKey) → Result VerifyResult
  unfolding verify_receipt_v01_object verify_receipt_v02_object verify_evidence_package_object
  verify_artifact value public_key =
      let version = read_schema_version value in
      if option_eq version (some v01_version)
      then verify_receipt_v01_object crypto schemas value
      else if option_eq version (some v02_version)
      then verify_receipt_v02_object crypto schemas value public_key
      else if option_eq version (some package_version)
      then verify_evidence_package_object value public_key
      else ok (unknown_verdict version)

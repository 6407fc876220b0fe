-- ===== src/Verify/Tests.antt =====
-- A package with a receipt of its one event, and one without receipts.
use witseal.Prelude.{◌↔◌, refl, [], ◌∷◌, none}
use witseal.Prelude.Text.{codes, text_eq}
use witseal.Json.{Value, obj, str, arr, nil, cons, field, end, get_field}
use witseal.Schema.Witness.{WitnessEvent, pending}
use witseal.Schema.Witness.Samples.{draft_of}
use witseal.Chain.Digest.{event_digest}
use witseal.Receipts.Tests.{plain_crypto}
use witseal.Verify.{Schemas, Envelope, parsed, issues}
use witseal.Verify.Artifact.{verify_evidence_package_object}
use witseal.Receipts.{ExecutionReceipt}
use witseal.Verify.Package.{Accepts}
use witseal.Verify.Exact.{IsGenuine, verify_evidence_package-valid_iff}

abbrev first : WitnessEvent
first = record {
  draft = draft_of pending none 0;
  event_hash = event_digest plain_crypto.sha256 (draft_of pending none 0);
}

abbrev envelope : Envelope
envelope = record {
  chain_head_before_range = none;
  chain_head_after_range = first.event_hash;
  events = first ∷ [];
}

abbrev receipt : ExecutionReceipt
receipt = record {
  draft = record {
    receipt_id = codes "rcpt_1";
    witness_event_id = first.event_id;
    chain_segment_id = codes "default";
    finalized_at = codes "t";
    policy_decision_hash = codes "p";
    classified_intent_hash = codes "i";
    execution_result_hash = none;
    outcome = codes "pending";
  };
  receipt_hash = codes "r";
}

-- The schema of version 0.1 reads every object as this receipt.
abbrev schemas : Schemas
schemas = record {
  parse_v01 = λ v. parsed receipt;
  parse_v02 = λ v. issues [];
  parse_envelope = λ v. parsed envelope;
}

abbrev bare_package : Value
bare_package = obj (field (codes "receipts") (arr nil) end)

abbrev receipt_object : Value
receipt_object = obj (field (codes "witness_event_id") (str first.event_id) end)

abbrev one_receipt_package : Value
one_receipt_package = obj (field (codes "receipts") (arr (cons receipt_object nil)) end)

verify_evidence_package-valid_iff_example :
    Accepts (verify_evidence_package_object plain_crypto schemas one_receipt_package none)
    ↔ IsGenuine plain_crypto schemas none envelope (cons receipt_object nil)
unfolding get_field text_eq
verify_evidence_package-valid_iff_example =
    verify_evidence_package-valid_iff plain_crypto schemas none one_receipt_package envelope
      (cons receipt_object nil) refl refl

bare_package_iff :
    Accepts (verify_evidence_package_object plain_crypto schemas bare_package none)
    ↔ IsGenuine plain_crypto schemas none envelope nil
unfolding get_field text_eq
bare_package_iff =
    verify_evidence_package-valid_iff plain_crypto schemas none bare_package envelope nil refl refl

-- The receipt of the one event is missing, and the package is accepted.
bare_package-Accepts :
    Accepts (verify_evidence_package_object plain_crypto schemas bare_package none)
bare_package-Accepts = bare_package_iff.1 (((refl, refl, refl), tt), (first, refl, refl), tt)

-- ===== src/Receipts/Tests.antt =====
-- The receipt of a sample event.
use witseal.Prelude.{refl, false, some, err, ◌≡◌, ◌↔◌, ok, none}
use witseal.Prelude.Text.{Text, codes, text_eq, text_eq_refl}
use witseal.Schema.Witness.{WitnessEvent, pending, outcome_text}
use witseal.Schema.Witness.Samples.{draft_of}
use witseal.Json.{Fields, str, get_field}
use witseal.Receipts.Signing.{
  Crypto, key_object, coerce_private_key, coerce_public_key, verify_receipt_v02,
}
use witseal.Receipts.Signed.{ArePaired}
use witseal.Receipts.Versions.{ReceiptV02ExtraInputs, generate_receipt_v02}
use witseal.Receipts.Generated.{verify_receipt_v02-generate_receipt_v02}
use witseal.Receipts.{ExecutionReceipt, valid_receipt, generate_receipt, verify_receipt}
use witseal.Receipts.Derived.{
  IsReceiptOf, verify_receipt-valid_iff, verify_receipt-generate_receipt,
}

abbrev plain_hash : Text → Text
plain_hash t = t

abbrev event : WitnessEvent
event = record { draft = draft_of pending none 0; event_hash = codes "h" }

abbrev forged : ExecutionReceipt
forged = record {
  draft = record {
    receipt_id = codes "rcpt_1";
    witness_event_id = codes "evt_other";
    chain_segment_id = codes "default";
    finalized_at = codes "t";
    policy_decision_hash = codes "p";
    classified_intent_hash = codes "i";
    execution_result_hash = none;
    outcome = codes "pending";
  };
  receipt_hash = codes "r";
}

verify_receipt-valid_iff_example :
    (verify_receipt plain_hash forged event ≡ ok valid_receipt)
    ↔ IsReceiptOf plain_hash forged event
verify_receipt-valid_iff_example = verify_receipt-valid_iff plain_hash forged event

verify_receipt-generate_receipt_example :
    (r : ExecutionReceipt) × ((generate_receipt plain_hash (codes "t") event ≡ ok r)
      × ((r.outcome ≡ outcome_text event.outcome)
          × (verify_receipt plain_hash r event ≡ ok valid_receipt)))
verify_receipt-generate_receipt_example =
    verify_receipt-generate_receipt plain_hash (codes "t") event

-- Signatures that are the text itself, under a key that any text is.
abbrev pub plain_crypto : Crypto
plain_crypto = record {
  PrivateKey = Text;
  PublicKey = Text;
  sha256 = plain_hash;
  private_of_pem = λ t. ok t;
  private_of_der = λ b. err (codes "der");
  public_of_pem = λ t. ok t;
  public_of_der = λ b. err (codes "der");
  sign = λ k t. t;
  verify = λ k t s. text_eq t s;
  to_base64 = λ b. b;
  from_base64 = λ t. t;
}

plain_pair : ArePaired plain_crypto (key_object (codes "k")) (key_object (codes "k"))
unfolding coerce_private_key coerce_public_key
plain_pair = record {
  signing = codes "k";
  verifying = codes "k";
  private_reads = refl;
  public_reads = refl;
  verifies = λ t. text_eq_refl t;
}

abbrev extra : ReceiptV02ExtraInputs
extra = record {
  prev_hash = none;
  git_commit = codes "c0ffee";
  artifact_digest = codes "sha256:a";
  attestation_digest = codes "sha256:b";
  artifact_type = codes "generic-binary";
  build_id = codes "local";
  execution_lost = false;
  sigstore_signature = none;
  classifier_version = some (codes "1.2");
  shadow_mode = some false;
  finalized_at = none;
}

verify_receipt_v02-generate_receipt_v02_example :
    (r : Fields) × ((generate_receipt_v02 plain_crypto
          (codes "t")
          event
          extra
          (key_object (codes "k"))
        ≡ ok r)
      × ((get_field (codes "witness_event_id") r ≡ str event.event_id)
          × (verify_receipt_v02 plain_crypto r (key_object (codes "k")) ≡ ok valid_receipt)))
verify_receipt_v02-generate_receipt_v02_example =
    verify_receipt_v02-generate_receipt_v02 plain_crypto (key_object (codes "k"))
      (key_object (codes "k")) (codes "t") event extra plain_pair (λ b. refl)

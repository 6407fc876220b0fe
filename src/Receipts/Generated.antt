-- ===== src/Receipts/Generated.antt =====
-- A receipt of version 0.2 can be generated for every event and is valid.
use witseal.Prelude.{
  Bool-cases, inl, inr, ◌≡◌, refl, ap, ◌∙◌, Bool, Option, none, some, ok, true, false,
  if◌then◌else◌,
}
use witseal.Prelude.Text.{Text, codes, text_eq}
use witseal.Json.{Value, Fields, end, obj, str, get_field, optional, bool}
use witseal.Json.Objects.{delete_field, set_field, get_field-set_field_other}
use witseal.Json.Stringify.{
  IsPlain, HasPlain, plain_str, plain_bool, plain_obj, with_field, no_field,
}
use witseal.Schema.Intent.{classified_intent_value}
use witseal.Schema.Policy.{policy_decision_value}
use witseal.Schema.Witness.{WitnessEvent}
use witseal.Schema.Witness.Plain.{
  classified_intent-IsPlain, policy_decision-IsPlain, nullable_text-IsPlain,
}
use witseal.Chain.Digest.{sha256_of_canonical-eq, canonical_text, canonicalize-eq}
use witseal.Receipts.{valid_receipt}
use witseal.Receipts.Derived.{intent_digest, decision_digest, result_digest, result_hash-eq}
use witseal.Receipts.Signing.{
  Crypto, KeyMaterial, signature_sentinel, receipt_hash_placeholder, with_placeholder,
  signing_pre_image_bytes, signed_fields, signature_text, sign_receipt_v02, verify_receipt_v02,
}
use witseal.Receipts.Signed.{
  IsDraft, ArePaired, DecodesBase64, sentinel_there, verify_receipt_v02-sign_receipt_v02,
}
use witseal.Receipts.Versions.{
  ExecutionReceiptV02Draft, ReceiptV02ExtraInputs, receipt_draft_fields, result_hash_unless,
  v02_draft, generate_receipt_v02,
}

delete_field-optional :
    {A : Type 0} (j k : Text) (f : A → Value) (o : Option A) (fs : Fields)
    → text_eq j k ≡ false
    → delete_field k (optional j f o fs) ≡ optional j f o (delete_field k fs)
unfolding delete_field
delete_field-optional j k f none fs h = refl
delete_field-optional j k f (some a) fs h = rw h refl

-- The properties that may be left out.
abbrev optional_fields : Option Text → Option Text → Option Bool → Fields
optional_fields s c b =
    optional (codes "sigstore_signature") str s
      (optional (codes "classifier_version") str c (optional (codes "shadow_mode") bool b end))

delete_field-optional_fields :
    (k : Text) (s c : Option Text) (b : Option Bool)
    → text_eq (codes "sigstore_signature") k ≡ false
    → text_eq (codes "classifier_version") k ≡ false
    → text_eq (codes "shadow_mode") k ≡ false
    → delete_field k (optional_fields s c b) ≡ optional_fields s c b
unfolding delete_field
delete_field-optional_fields k s c b hs hc hb =
    delete_field-optional _ k str s _ hs
    ∙ ap (optional _ str s) (
        delete_field-optional _ k str c _ hc
        ∙ ap (optional _ str c) (delete_field-optional _ k bool b end hb))

receipt_draft_fields-IsDraft :
    (d : ExecutionReceiptV02Draft)
    → d.signature ≡ signature_sentinel
    → IsDraft (receipt_draft_fields d)
unfolding receipt_draft_fields text_eq get_field delete_field
receipt_draft_fields-IsDraft d h = record {
  once =
      rw
        (delete_field-optional_fields (codes "signature") d.sigstore_signature d.classifier_version
          d.shadow_mode refl refl refl)
        refl;
  empty = ap str h;
  no_hash =
      rw
        (delete_field-optional_fields (codes "receipt_hash") d.sigstore_signature
          d.classifier_version d.shadow_mode refl refl refl)
        refl;
}

optional-HasPlain :
    {A : Type 0} (k : Text) (f : A → Value) (o : Option A) {fs : Fields}
    → ((a : A) → IsPlain (f a))
    → HasPlain fs
    → HasPlain (optional k f o fs)
optional-HasPlain k f none p h = h
optional-HasPlain k f (some a) p h = with_field k (p a) h

delete_field-HasPlain : (k : Text) {fs : Fields} → HasPlain fs → HasPlain (delete_field k fs)
unfolding delete_field
delete_field-HasPlain k no_field = no_field
delete_field-HasPlain k (with_field j p h) = elim (Bool-cases (text_eq j k)) [
  | inl same ↦ rw same (delete_field-HasPlain k h)
  | inr apart ↦ rw apart (with_field j p (delete_field-HasPlain k h))
]

set_field-HasPlain :
    (k : Text) {v : Value} {fs : Fields} → IsPlain v → HasPlain fs → HasPlain (set_field k v fs)
unfolding set_field
set_field-HasPlain k p no_field = with_field k p no_field
set_field-HasPlain k p (with_field j q h) = elim (Bool-cases (text_eq j k)) [
  | inl same ↦ rw same (with_field k p (delete_field-HasPlain k h))
  | inr apart ↦ rw apart (with_field j q (set_field-HasPlain k p h))
]

receipt_draft_fields-HasPlain : (d : ExecutionReceiptV02Draft) → HasPlain (receipt_draft_fields d)
unfolding receipt_draft_fields
receipt_draft_fields-HasPlain d = with_field _ (plain_str _) (
    with_field _ (nullable_text-IsPlain d.receipt_id) (
      with_field _ (plain_str _) (
        with_field _ (plain_str _) (
          with_field _ (plain_str _) (
            with_field _ (plain_str _) (
              with_field _ (plain_str _) (
                with_field _ (nullable_text-IsPlain d.execution_result_hash) (
                  with_field _ (plain_str _) (
                    with_field _ (nullable_text-IsPlain d.prev_hash) (
                      with_field _ (plain_str _) (
                        with_field _ (plain_str _) (
                          with_field _ (plain_str _) (
                            with_field _ (plain_str _) (
                              with_field _ (plain_str _) (
                                with_field _ (plain_str _) (
                                  optional-HasPlain _ str d.sigstore_signature plain_str (
                                    optional-HasPlain _ str d.classifier_version plain_str (
                                      optional-HasPlain _ bool d.shadow_mode plain_bool
                                        no_field))))))))))))))))))

pub v02_pre_image-IsPlain :
    (d : ExecutionReceiptV02Draft) → IsPlain (obj (with_placeholder (receipt_draft_fields d)))
v02_pre_image-IsPlain d =
    plain_obj
      (set_field-HasPlain _ (plain_str receipt_hash_placeholder) (receipt_draft_fields-HasPlain d))

-- The text that is signed.
abbrev pub pre_image_of : ExecutionReceiptV02Draft → Text
pre_image_of d = canonical_text _ (v02_pre_image-IsPlain d)

signing_pre_image-eq :
    (d : ExecutionReceiptV02Draft)
    → d.signature ≡ signature_sentinel
    → signing_pre_image_bytes (receipt_draft_fields d) ≡ ok (pre_image_of d)
signing_pre_image-eq d h =
    sentinel_there _ ((receipt_draft_fields-IsDraft d h).empty)
    ∙ canonicalize-eq _ (v02_pre_image-IsPlain d)

-- Signing leaves the other properties as they are.
pub signed_fields-get :
    (k : Text) (d : Fields) (h s : Text)
    → text_eq (codes "signature") k ≡ false
    → text_eq (codes "receipt_hash") k ≡ false
    → get_field k (signed_fields d h s) ≡ get_field k d
signed_fields-get k d h s a b =
    get_field-set_field_other k _ a (str s) _ ∙ get_field-set_field_other k _ b (str h) d

draft_event_id :
    (d : ExecutionReceiptV02Draft)
    → get_field (codes "witness_event_id") (receipt_draft_fields d) ≡ str d.witness_event_id
unfolding receipt_draft_fields get_field text_eq
draft_event_id d = refl

module _ (crypto : Crypto) (private_key : KeyMaterial crypto.PrivateKey)
    (public_key : KeyMaterial crypto.PublicKey) where
  abbrev pub exec_digest : Bool → WitnessEvent → Option Text
  exec_digest lost e = if lost then none else result_digest crypto.sha256 e.execution_result

  result_hash_unless-eq :
      (lost : Bool) (e : WitnessEvent) → result_hash_unless crypto lost e ≡ ok (exec_digest lost e)
  result_hash_unless-eq true e = refl
  result_hash_unless-eq false e = result_hash-eq crypto.sha256 e.execution_result

  abbrev pub v02_draft_of : Text → WitnessEvent → ReceiptV02ExtraInputs → ExecutionReceiptV02Draft
  v02_draft_of now e extra =
      v02_draft crypto now e extra (decision_digest crypto.sha256 e) (intent_digest crypto.sha256 e)
        (exec_digest extra.execution_lost e)

  abbrev pub v02_receipt :
      (now : Text) (e : WitnessEvent) (extra : ReceiptV02ExtraInputs)
      → ArePaired crypto private_key public_key
      → Fields
  v02_receipt now e extra paired =
      let d = v02_draft_of now e extra in
      signed_fields (receipt_draft_fields d) (crypto.sha256 (pre_image_of d))
        (signature_text crypto paired.signing (pre_image_of d))

  sign_draft-eq :
      (d : ExecutionReceiptV02Draft) (paired : ArePaired crypto private_key public_key)
      → d.signature ≡ signature_sentinel
      → sign_receipt_v02 crypto (receipt_draft_fields d) private_key
        ≡ ok (
            signed_fields
              (receipt_draft_fields d)
              (crypto.sha256 (pre_image_of d))
              (signature_text crypto paired.signing (pre_image_of d)))
  unfolding sign_receipt_v02
  sign_draft-eq d paired h = rw (signing_pre_image-eq d h, paired.private_reads) refl

  pub generate_receipt_v02-eq :
      (now : Text) (e : WitnessEvent) (extra : ReceiptV02ExtraInputs)
      (paired : ArePaired crypto private_key public_key)
      → generate_receipt_v02 crypto now e extra private_key ≡ ok (v02_receipt now e extra paired)
  unfolding generate_receipt_v02
  generate_receipt_v02-eq now e extra paired =
      rw
        (
          sha256_of_canonical-eq crypto.sha256 (policy_decision_value e.policy_decision)
              (policy_decision-IsPlain e.policy_decision),
          sha256_of_canonical-eq crypto.sha256 (classified_intent_value e.classified_intent)
              (classified_intent-IsPlain e.classified_intent),
          result_hash_unless-eq extra.execution_lost e,
          sign_draft-eq (v02_draft_of now e extra) paired refl,
        )
        refl

  pub v02_receipt-valid :
      (now : Text) (e : WitnessEvent) (extra : ReceiptV02ExtraInputs)
      (paired : ArePaired crypto private_key public_key)
      → DecodesBase64 crypto
      → verify_receipt_v02 crypto (v02_receipt now e extra paired) public_key ≡ ok valid_receipt
  v02_receipt-valid now e extra paired decodes =
      let d = v02_draft_of now e extra in
      verify_receipt_v02-sign_receipt_v02 crypto private_key public_key _ _ paired decodes
        (receipt_draft_fields-IsDraft d refl) (sign_draft-eq d paired refl)

  -- With a key that can be read, a receipt of version 0.2 is generated for every event and all further
  -- inputs, carries the event's id, and is valid under the paired key.
  pub verify_receipt_v02-generate_receipt_v02 :
      (now : Text) (e : WitnessEvent) (extra : ReceiptV02ExtraInputs)
      → ArePaired crypto private_key public_key
      → DecodesBase64 crypto
      → (r : Fields) × ((generate_receipt_v02 crypto now e extra private_key ≡ ok r)
          × ((get_field (codes "witness_event_id") r ≡ str e.event_id)
              × (verify_receipt_v02 crypto r public_key ≡ ok valid_receipt)))
  unfolding text_eq
  verify_receipt_v02-generate_receipt_v02 now e extra paired decodes =
      let d = v02_draft_of now e extra in
      (
        v02_receipt now e extra paired,
        (
          generate_receipt_v02-eq now e extra paired,
          (
            signed_fields-get (codes "witness_event_id") _ _ _ refl refl ∙ draft_event_id d,
            v02_receipt-valid now e extra paired decodes,
          ),
        ),
      )

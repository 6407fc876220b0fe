-- ===== src/Provenance/Tests.antt =====
-- A verifier for which every text is its own bytes.
use witseal.Prelude.{◌≡◌, ◌↔◌, refl, Bool, true, false, [], ◌∷◌, ok, err, if◌then◌else◌}
use witseal.Prelude.Text.{Text, codes, text_eq}
use witseal.Json.{Value, str, arr, obj, nil, cons, field, end, get_field}
use witseal.Receipts.Signing.{key_object}
use witseal.Provenance.{
  Verifier, dsse_intoto_payload_type, intoto_statement_type, ReceiptProvenanceFields, DsseEnvelope,
  check_provenance, attestation_digest_of, read_envelope, dsse_pae,
}
use witseal.Provenance.Meaning.{IsProven, check_provenance-valid_iff}
use witseal.Provenance.Encoding.{KeepsAscii, dsse_pae-injective}

abbrev envelope_object : Value
envelope_object = obj (
    field (codes "payloadType") (str dsse_intoto_payload_type) (
      field (codes "payload") (str (codes "load")) (
        field (codes "signatures")
          (arr (cons (obj (field (codes "sig") (str (codes "s")) end)) nil)) end)))

abbrev statement_object : Value
statement_object = obj (
    field (codes "_type") (str intoto_statement_type) (
      field (codes "predicateType") (str (codes "https://slsa.dev/provenance/v1")) (
        field (codes "subject")
          (arr (
            cons
              (obj
                (field (codes "digest") (obj (field (codes "sha256") (str (codes "aa")) end)) end))
              nil))
          end)))

abbrev verifier : Verifier
verifier = record {
  PublicKey = Text;
  public_of_pem = λ t. ok t;
  public_of_der = λ b. err (codes "der");
  verify = λ k m s. text_eq s (codes "s");
  sha256_hex = λ b. b;
  encode_utf8 = λ t. t;
  decode_utf8 = λ b. b;
  decode_text = λ b. b;
  from_base64 = λ t. t;
  parse_json = λ t. ok (if text_eq t (codes "file") then envelope_object else statement_object);
  to_lower_case = λ t. t;
  names_provenance = λ t. false;
}

abbrev receipt : ReceiptProvenanceFields
receipt = record { artifact_digest = codes "sha256:aa"; attestation_digest = codes "sha256:file" }

check_provenance-valid_iff_example :
    ((check_provenance verifier (codes "file") receipt (key_object (codes "k"))).valid ≡ true)
    ↔ IsProven verifier (codes "file") receipt (key_object (codes "k"))
check_provenance-valid_iff_example =
    check_provenance-valid_iff verifier (codes "file") receipt (key_object (codes "k"))

own_bytes : KeepsAscii verifier.encode_utf8
own_bytes = record { in_front = λ s t h. refl; at_end = λ s t h. refl }

dsse_pae-injective_example : (codes "type" ≡ codes "type") × (codes "load" ≡ codes "load")
dsse_pae-injective_example =
    dsse_pae-injective verifier own_bytes (codes "type") (codes "type") (codes "load")
      (codes "load") refl

check_provenance_runs :
    (check_provenance verifier (codes "file") receipt (key_object (codes "k"))).valid ≡ true
unfolding check_provenance text_eq get_field witseal.Prelude.Text.starts_with
    dsse_intoto_payload_type intoto_statement_type witseal.Provenance.slsa_provenance_predicate_type
check_provenance_runs = refl

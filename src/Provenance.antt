-- ===== src/Provenance.antt =====
-- src/verify/provenance.ts: whether the digests of a receipt are bound to a DSSE in-toto attestation.
pub mod Shape
pub mod Statement
pub mod Meaning
pub mod Bound
pub mod Encoding
pub mod Tests
use witseal.Prelude.{
  ℕ, Bool, true, false, not, ◌||◌, ◌==◌, List, [], ◌∷◌, ◌++◌, Option, none, some, Result, ok, err,
  ◌>>=◌, if◌then◌else◌, length, drop, is_empty, some_of, map_ok,
}
use witseal.Prelude.Text.{Text, codes, text_eq, starts_with}
use witseal.Json.{Value, str, arr, obj, null, undefined, Items, nil, cons, Fields, get_field}
use witseal.Json.Decimal.{digits}
use witseal.Receipts.Signing.{Bytes, KeyMaterial, key_object, pem, raw}

-- node:crypto, the codecs (`decode_text` is TextDecoder's), `JSON.parse`, `toLowerCase` and the test of /provenance/i
pub record Verifier : Type 1 where
  pub PublicKey : Type 0
  pub public_of_pem : Text → Result PublicKey
  pub public_of_der : Bytes → Result PublicKey
  pub verify : PublicKey → Bytes → Bytes → Bool
  pub sha256_hex : Bytes → Text
  pub encode_utf8 : Text → Bytes
  pub decode_utf8 : Bytes → Text
  pub decode_text : Bytes → Text
  pub from_base64 : Text → Bytes
  pub parse_json : Text → Result Value
  pub to_lower_case : Text → Text
  pub names_provenance : Text → Bool

unfoldable pub dsse_intoto_payload_type : Text
dsse_intoto_payload_type = codes "application/vnd.in-toto+json"

unfoldable pub intoto_statement_type : Text
intoto_statement_type = codes "https://in-toto.io/Statement/v1"

unfoldable pub slsa_provenance_predicate_type : Text
slsa_provenance_predicate_type = codes "https://slsa.dev/provenance/v1"

pub record ProvenanceCheckResult : Type 0 where
  pub valid : Bool
  pub reason : Option Text
  pub artifact_digest : Option Text
  pub predicate_type : Option Text

pub record ReceiptProvenanceFields : Type 0 where
  pub artifact_digest : Text
  pub attestation_digest : Text

-- Of the signatures, what is read of them: the `sig`.
pub record DsseEnvelope : Type 0 where
  pub payload_type : Text
  pub payload : Text
  pub signatures : List Text

-- Of the subjects, the `sha256` of their digests, where it is a string.
pub record InTotoStatement : Type 0 where
  pub statement_type : Text
  pub subject : List (Option Text)
  pub predicate_type : Text

-- A property of what `typeof` calls an object; an array has none of the names here.
abbrev pub property : Text → Value → Value
property k (obj fs) = get_field k fs
property k _ = undefined

abbrev pub is_object : Value → Bool
is_object (obj fs) = true
is_object (arr vs) = true
is_object _ = false

abbrev pub text_of : Text → Value → Result Text
text_of e (str t) = ok t
text_of e _ = err e

abbrev pub items_of : Text → Value → Result Items
items_of e (arr vs) = ok vs
items_of e _ = err e

abbrev pub signature_of : Value → Result Text
signature_of s =
    if is_object s
    then text_of (codes "signature entry missing string sig") (property (codes "sig") s)
    else err (codes "signature entry is not an object")

abbrev pub signatures_of : Items → Result (List Text)
signatures_of nil = ok []
signatures_of (cons s ss) = signature_of s >>= λ sig. signatures_of ss >>= λ sigs. ok (sig ∷ sigs)

unfoldable pub as_envelope : Value → Result DsseEnvelope
as_envelope value =
    if not (is_object value)
    then err (codes "not a JSON object")
    else (text_of (codes "missing or non-string payloadType") (property (codes "payloadType") value)
        >>= λ payload_type.
            text_of (codes "missing or non-string payload") (property (codes "payload") value)
            >>= λ payload.
                items_of (codes "missing or non-array signatures")
                  (property (codes "signatures") value)
                >>= λ entries. signatures_of entries >>= λ signatures. ok (record {
                  payload_type = payload_type;
                  payload = payload;
                  signatures = signatures;
                }))

abbrev pub text_or_none : Value → Option Text
text_or_none (str t) = some t
text_or_none _ = none

abbrev pub digest_of : Value → Result (Option Text)
digest_of s =
    if not (is_object s)
    then err (codes "subject entry is not an object")
    else if not (is_object (property (codes "digest") s))
    then err (codes "subject entry missing digest object")
    else ok (text_or_none (property (codes "sha256") (property (codes "digest") s)))

abbrev pub subjects_of : Items → Result (List (Option Text))
subjects_of nil = ok []
subjects_of (cons s ss) =
    digest_of s >>= λ digest. subjects_of ss >>= λ digests. ok (digest ∷ digests)

unfoldable pub as_statement : Value → Result InTotoStatement
as_statement value =
    if not (is_object value)
    then err (codes "not a JSON object")
    else (text_of (codes "missing or non-string _type") (property (codes "_type") value)
        >>= λ statement_type.
            text_of (codes "missing or non-string predicateType")
              (property (codes "predicateType") value)
            >>= λ predicate_type.
                items_of (codes "missing or non-array subject") (property (codes "subject") value)
                >>= λ entries. subjects_of entries >>= λ subject. ok (record {
                  statement_type = statement_type;
                  subject = subject;
                  predicate_type = predicate_type;
                }))

-- `stripSha256Prefix`
unfoldable pub strip_sha256_prefix : Text → Option Text
strip_sha256_prefix digest =
    if starts_with digest (codes "sha256:") then some (drop 7 digest) else none

abbrev refusal : Text → ProvenanceCheckResult
refusal reason = record {
  valid = false;
  reason = some reason;
  artifact_digest = none;
  predicate_type = none;
}

abbrev pub unless : Bool → ProvenanceCheckResult → ProvenanceCheckResult → ProvenanceCheckResult
unless holds refused rest = if not holds then refused else rest

abbrev pub on_ok {ℓ} :
    {A : Type ℓ} → Result A → Text → (A → ProvenanceCheckResult) → ProvenanceCheckResult
on_ok (err e) reason rest = refusal (reason ++ e)
on_ok (ok a) reason rest = rest a

abbrev pub on_some {ℓ} :
    {A : Type ℓ}
    → Option A
    → ProvenanceCheckResult
    → (A → ProvenanceCheckResult)
    → ProvenanceCheckResult
on_some none refused rest = refused
on_some (some a) refused rest = rest a

abbrev pub first_of : List (Option Text) → Option (Option Text)
first_of [] = none
first_of (d ∷ ds) = some d

module _ (verifier : Verifier) where
  open verifier use {
    PublicKey, public_of_pem, public_of_der, verify, sha256_hex, encode_utf8, decode_utf8,
    decode_text, from_base64, parse_json, to_lower_case, names_provenance,
  }

  unfoldable pub dsse_pae : Text → Bytes → Bytes
  dsse_pae payload_type payload =
      encode_utf8 (
        codes "DSSEv1 "
        ++ (digits (length (encode_utf8 payload_type))
            ++ (codes " "
                ++ (payload_type ++ (codes " " ++ (digits (length payload) ++ codes " "))))))
      ++ payload

  unfoldable pub coerce_builder_key : KeyMaterial PublicKey → Result PublicKey
  coerce_builder_key (key_object k) = ok k
  coerce_builder_key (pem t) = public_of_pem t
  coerce_builder_key (raw bytes) =
      if length bytes == 32
      then public_of_der (
          0x30 ∷ 0x2a ∷ 0x30 ∷ 0x05 ∷ 0x06 ∷ 0x03 ∷ 0x2b ∷ 0x65 ∷ 0x70 ∷ 0x03 ∷ 0x21 ∷ 0x00 ∷ bytes)
      else err (codes "unsupported builder key material")

  unfoldable pub is_provenance_predicate : Text → Bool
  is_provenance_predicate t = text_eq t slsa_provenance_predicate_type || names_provenance t

  abbrev pub attestation_digest_of : Bytes → Text
  attestation_digest_of bytes = codes "sha256:" ++ sha256_hex bytes

  abbrev pub read_envelope : Bytes → Result DsseEnvelope
  read_envelope bytes = parse_json (decode_text bytes) >>= λ v. as_envelope v

  abbrev pub read_statement : Bytes → Result InTotoStatement
  read_statement payload = parse_json (decode_utf8 payload) >>= λ v. as_statement v

  abbrev pub any_sig_valid : PublicKey → Bytes → List Text → Bool
  any_sig_valid key pae sigs = some_of (λ s. verify key pae (from_base64 s)) sigs

  abbrev accepted : ReceiptProvenanceFields → InTotoStatement → ProvenanceCheckResult
  accepted receipt st = record {
    valid = true;
    reason = none;
    artifact_digest = some receipt.artifact_digest;
    predicate_type = some st.predicate_type;
  }

  abbrev not_provenance : InTotoStatement → ProvenanceCheckResult
  not_provenance st = record {
    valid = false;
    reason =
        some (codes "predicateType '" ++ (st.predicate_type ++ codes "' is not a provenance type"));
    artifact_digest = none;
    predicate_type = some st.predicate_type;
  }

  -- The digest of the first subject against the receipt's
  abbrev pub check_subject : ReceiptProvenanceFields → InTotoStatement → ProvenanceCheckResult
  check_subject receipt st =
      on_some (first_of st.subject) (refusal (codes "in-toto Statement has an empty subject array"))
        (λ digest.
          on_some digest (refusal (codes "in-toto Statement subject[0] has no sha256 digest"))
            (λ sha256.
              on_some (strip_sha256_prefix receipt.artifact_digest)
                (refusal (
                  codes "receipt artifact_digest '"
                  ++ (receipt.artifact_digest ++ codes "' is not 'sha256:'-prefixed")))
                (λ hex.
                  unless (text_eq (to_lower_case sha256) (to_lower_case hex))
                    (refusal (
                      codes "artifact digest mismatch: receipt records "
                      ++ (receipt.artifact_digest
                          ++ (codes ", attestation subject is sha256:" ++ sha256))))
                    (accepted receipt st))))

  abbrev pub check_statement : ReceiptProvenanceFields → InTotoStatement → ProvenanceCheckResult
  check_statement receipt st =
      unless (text_eq st.statement_type intoto_statement_type)
        (refusal (
          codes "unexpected in-toto Statement _type '"
          ++ (st.statement_type
              ++ (codes "' (expected '" ++ (intoto_statement_type ++ codes "')")))))
        (unless (is_provenance_predicate st.predicate_type) (not_provenance st)
          (check_subject receipt st))

  abbrev pub check_envelope :
      ReceiptProvenanceFields → KeyMaterial PublicKey → DsseEnvelope → ProvenanceCheckResult
  check_envelope receipt builder_key envelope =
      unless (text_eq envelope.payload_type dsse_intoto_payload_type)
        (refusal (
          codes "unexpected DSSE payloadType '"
          ++ (envelope.payload_type
              ++ (codes "' (expected '" ++ (dsse_intoto_payload_type ++ codes "')")))))
        (on_ok (coerce_builder_key builder_key) (codes "could not load builder public key: ")
          (λ key.
            unless (not (is_empty envelope.signatures))
              (refusal (codes "DSSE envelope carries no signatures"))
              (unless
                (any_sig_valid key (dsse_pae envelope.payload_type (from_base64 envelope.payload))
                  envelope.signatures)
                (refusal (
                  codes
                    "DSSE signature verification failed (no signature verifies under the builder key)"))
                (on_ok (read_statement (from_base64 envelope.payload))
                  (codes "DSSE payload is not a valid in-toto Statement: ")
                  (check_statement receipt)))))

  unfoldable pub check_provenance :
      Bytes → ReceiptProvenanceFields → KeyMaterial PublicKey → ProvenanceCheckResult
  unfolding dsse_pae coerce_builder_key is_provenance_predicate as_envelope as_statement
      strip_sha256_prefix
  check_provenance attestation_bytes receipt builder_key =
      unless (text_eq (attestation_digest_of attestation_bytes) receipt.attestation_digest)
        (refusal (
          codes "attestation_digest mismatch: receipt records "
          ++ (receipt.attestation_digest
              ++ (codes ", supplied attestation hashes to "
                  ++ attestation_digest_of attestation_bytes))))
        (on_ok (read_envelope attestation_bytes)
          (codes "attestation is not a valid DSSE envelope: ") (check_envelope receipt builder_key))

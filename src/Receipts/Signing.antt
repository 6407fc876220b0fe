-- ===== src/Receipts/Signing.antt =====
-- src/receipts/sign-v0.2.ts: the pre-image of a receipt of version 0.2, its signature and their check.
-- A receipt is here the JSON object that it is, with whatever further properties it has.
use witseal.Prelude.{
  ℕ, Bool, false, not, List, [], ◌∷◌, ◌++◌, Result, ok, err, ◌>>=◌, if◌then◌else◌, ◌==◌, length,
  drop,
}
use witseal.Prelude.Text.{Text, codes, text_eq, starts_with}
use witseal.Json.{Value, str, obj, Fields, get_field}
use witseal.Json.Canonical.{canonicalize}
use witseal.Json.Objects.{delete_field, set_field}
use witseal.Chain.{sha256_of_canonical}
use witseal.Receipts.{ReceiptCheck, valid_receipt, invalid_receipt}

abbrev pub Bytes : Type 0
Bytes = List ℕ

-- A key as the caller gives it: Node's object, PEM text or the raw bytes.
pub data KeyMaterial (Key : Type 0) : Type 0 where
  key_object : Key → KeyMaterial Key
  pem : Text → KeyMaterial Key
  raw : Bytes → KeyMaterial Key

-- node:crypto and the base64 of Buffer. `sign` and `verify` take a text for its UTF-8 bytes.
pub record Crypto : Type 1 where
  pub PrivateKey : Type 0
  pub PublicKey : Type 0
  pub sha256 : Text → Text
  pub private_of_pem : Text → Result PrivateKey
  pub private_of_der : Bytes → Result PrivateKey
  pub public_of_pem : Text → Result PublicKey
  pub public_of_der : Bytes → Result PublicKey
  pub sign : PrivateKey → Text → Bytes
  pub verify : PublicKey → Text → Bytes → Bool
  pub to_base64 : Bytes → Text
  pub from_base64 : Text → Bytes

unfoldable pub signature_sentinel : Text
signature_sentinel = []

unfoldable pub receipt_hash_placeholder : Text
receipt_hash_placeholder = codes "0000000000000000000000000000000000000000000000000000000000000000"

unfoldable pub signature_algorithm_prefix : Text
signature_algorithm_prefix = codes "ed25519:"

abbrev pub is_text : Text → Value → Bool
is_text t (str s) = text_eq s t
is_text t _ = false

unfoldable pub sentinel_error : Text
sentinel_error =
    codes "signingPreImageBytes: body.signature must be the empty-string sentinel (\"\")"

abbrev pub with_placeholder : Fields → Fields
with_placeholder body = set_field (codes "receipt_hash") (str receipt_hash_placeholder) body

-- The bytes are given by the text that they encode.
unfoldable pub signing_pre_image_bytes : Fields → Result Text
unfolding signature_sentinel sentinel_error
signing_pre_image_bytes body =
    if not (is_text signature_sentinel (get_field (codes "signature") body))
    then err sentinel_error
    else canonicalize (obj (with_placeholder body))

-- The octets in front of a raw key in its PKCS#8 and its SPKI encoding
abbrev pkcs8_prefix : Bytes
pkcs8_prefix =
    0x30 ∷ 0x2e ∷ 0x02 ∷ 0x01 ∷ 0x00 ∷ 0x30 ∷ 0x05 ∷ 0x06 ∷ 0x03 ∷ 0x2b ∷ 0x65 ∷ 0x70 ∷ 0x04 ∷ 0x22
    ∷ 0x04 ∷ 0x20 ∷ []

abbrev spki_prefix : Bytes
spki_prefix = 0x30 ∷ 0x2a ∷ 0x30 ∷ 0x05 ∷ 0x06 ∷ 0x03 ∷ 0x2b ∷ 0x65 ∷ 0x70 ∷ 0x03 ∷ 0x21 ∷ 0x00 ∷ []

abbrev malformed_signature : Text
malformed_signature =
    codes
      "malformed signature: missing or unknown algorithm tag (v0.2 requires \"ed25519:\" prefix)"

-- `{ ...draft, receipt_hash, signature }`
abbrev pub signed_fields : Fields → Text → Text → Fields
signed_fields draft receipt_hash signature =
    set_field (codes "signature") (str signature)
      (set_field (codes "receipt_hash") (str receipt_hash) draft)

-- `{ ...rest, signature: SIGNATURE_SENTINEL }`
abbrev pub cleared : Fields → Fields
cleared receipt =
    set_field (codes "signature") (str signature_sentinel)
      (delete_field (codes "receipt_hash") (delete_field (codes "signature") receipt))

module _ (crypto : Crypto) where
  open crypto use {
    PrivateKey, PublicKey, sha256, private_of_pem, private_of_der, public_of_pem, public_of_der,
    sign, verify, to_base64, from_base64,
  }

  unfoldable pub coerce_private_key : KeyMaterial PrivateKey → Result PrivateKey
  coerce_private_key (key_object k) = ok k
  coerce_private_key (pem t) = private_of_pem t
  coerce_private_key (raw bytes) =
      if length bytes == 32
      then private_of_der (pkcs8_prefix ++ bytes)
      else err (codes "coercePrivateKey: unsupported key material")

  unfoldable pub coerce_public_key : KeyMaterial PublicKey → Result PublicKey
  coerce_public_key (key_object k) = ok k
  coerce_public_key (pem t) = public_of_pem t
  coerce_public_key (raw bytes) =
      if length bytes == 32
      then public_of_der (spki_prefix ++ bytes)
      else err (codes "coercePublicKey: unsupported key material")

  unfoldable pub compute_receipt_hash : Fields → Result Text
  compute_receipt_hash draft =
      if not (is_text signature_sentinel (get_field (codes "signature") draft))
      then err
          (codes "computeReceiptHash: draft.signature must be the empty-string sentinel (\"\")")
      else sha256_of_canonical sha256 (obj (with_placeholder draft))

  abbrev pub signature_text : PrivateKey → Text → Text
  signature_text key pre_image = signature_algorithm_prefix ++ to_base64 (sign key pre_image)

  unfoldable pub sign_receipt_v02 : Fields → KeyMaterial PrivateKey → Result Fields
  unfolding signing_pre_image_bytes coerce_private_key
  sign_receipt_v02 draft private_key = do
    pre_image ← signing_pre_image_bytes draft
    key ← coerce_private_key private_key
    ok (signed_fields draft (sha256 pre_image) (signature_text key pre_image))

  abbrev pub check_signed : Value → Text → Text → PublicKey → ReceiptCheck
  check_signed receipt_hash sig_payload pre_image key =
      if not (verify key pre_image (from_base64 sig_payload))
      then invalid_receipt (codes "ed25519 signature verification failed")
      else if not (is_text (sha256 pre_image) receipt_hash)
      then invalid_receipt (codes "receipt_hash mismatch (self-hash check failed)")
      else valid_receipt

  abbrev pub check_signature : Fields → KeyMaterial PublicKey → Value → Result ReceiptCheck
  check_signature receipt public_key (str signature) =
      if not (starts_with signature signature_algorithm_prefix)
      then ok (invalid_receipt malformed_signature)
      else (signing_pre_image_bytes (cleared receipt) >>= λ pre_image.
          coerce_public_key public_key >>= λ key. ok (
            check_signed (get_field (codes "receipt_hash") receipt) (drop 8 signature) pre_image
              key))
  check_signature receipt public_key _ =
      err (codes "TypeError: signature.startsWith is not a function")

  unfoldable pub verify_receipt_v02 : Fields → KeyMaterial PublicKey → Result ReceiptCheck
  verify_receipt_v02 receipt public_key =
      check_signature receipt public_key (get_field (codes "signature") receipt)

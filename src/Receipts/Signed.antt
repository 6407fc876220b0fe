-- ===== src/Receipts/Signed.antt =====
-- A signed receipt of version 0.2 is valid under the paired key.
use witseal.Prelude.{
  arith, >>=-eq-ok, ◌≡◌, refl, sym, ap, subst, ◌∙◌, true, false, ok, ◌>>=◌, ◌++◌, [], ◌∷◌,
}
use witseal.Prelude.Text.{Text, codes, text_eq, text_eq_refl, starts_with}
use witseal.Json.{Value, str, obj, Fields, field, get_field}
use witseal.Json.Canonical.{canonicalize}
use witseal.Json.Order.{sorted, sorted_field}
use witseal.Json.Objects.{
  delete_field, set_field, Once, sorted-set_field, sorted-Once, canonicalize-sorted,
  delete_field_idem, delete_field_comm, delete_field-set_field, delete_field-set_field_other,
  get_field-set_field, get_field-set_field_other,
}
use witseal.Receipts.{valid_receipt}
use witseal.Receipts.Signing.{
  Crypto, KeyMaterial, Bytes, signature_sentinel, signature_algorithm_prefix, with_placeholder,
  signing_pre_image_bytes, coerce_private_key, coerce_public_key, sign_receipt_v02, signed_fields,
  signature_text, cleared, verify_receipt_v02,
}

abbrev sig : Text
sig = codes "signature"

abbrev hash : Text
hash = codes "receipt_hash"

-- Both keys can be read, and a signature by the one verifies under the other.
pub record ArePaired (crypto : Crypto) (private_key : KeyMaterial crypto.PrivateKey)
    (public_key : KeyMaterial crypto.PublicKey) : Type 0 where
  pub signing : crypto.PrivateKey
  pub verifying : crypto.PublicKey
  pub private_reads : coerce_private_key crypto private_key ≡ ok signing
  pub public_reads : coerce_public_key crypto public_key ≡ ok verifying
  pub verifies : (t : Text) → crypto.verify verifying t (crypto.sign signing t) ≡ true

-- What base64 encodes is decoded again.
abbrev pub DecodesBase64 : Crypto → Type 0
DecodesBase64 crypto = (bytes : Bytes) → crypto.from_base64 (crypto.to_base64 bytes) ≡ bytes

hash_is_not_sig : text_eq hash sig ≡ false
unfolding text_eq
hash_is_not_sig = refl

sig_is_not_hash : text_eq sig hash ≡ false
unfolding text_eq
sig_is_not_hash = refl

-- An object of the type of a draft: the signature is the sentinel, and there is no receipt hash.
pub record IsDraft (d : Fields) : Type 0 where
  pub once : Once sig d
  pub empty : get_field sig d ≡ str signature_sentinel
  pub no_hash : delete_field hash d ≡ d

-- The other properties of a signed receipt are those of its draft.
rest-signed_fields :
    (d : Fields) (h s : Text)
    → IsDraft d
    → delete_field hash (delete_field sig (signed_fields d h s)) ≡ delete_field sig d
rest-signed_fields d h s draft =
    ap (delete_field hash) (
      delete_field-set_field sig (str s) (set_field hash (str h) d)
      ∙ delete_field-set_field_other sig hash hash_is_not_sig (str h) d)
    ∙ delete_field-set_field hash (str h) (delete_field sig d)
    ∙ delete_field_comm hash sig d
    ∙ ap (delete_field sig) draft.no_hash

cleared-signed_fields :
    (d : Fields) (h s : Text)
    → IsDraft d
    → sorted (delete_field hash (cleared (signed_fields d h s))) ≡ sorted d
cleared-signed_fields d h s draft =
    let value : Value = str signature_sentinel in
    ap (λ r. sorted (delete_field hash (set_field sig value r))) (rest-signed_fields d h s draft)
    ∙ ap sorted (delete_field-set_field_other hash sig sig_is_not_hash value (delete_field sig d))
    ∙ ap (λ r. sorted (set_field sig value r))
        (delete_field_comm hash sig d ∙ ap (delete_field sig) draft.no_hash)
    ∙ sorted-set_field sig value (delete_field sig d)
    ∙ ap (λ r. sorted (field sig value r)) (delete_field_idem sig d)
    ∙ ap (λ v. sorted (field sig v (delete_field sig d))) (sym draft.empty)
    ∙ sym (sorted-Once sig d draft.once (λ u. cc (sym draft.empty ∙ u)))

pre_image-signed_fields :
    (d : Fields) (h s : Text)
    → IsDraft d
    → canonicalize (obj (with_placeholder (cleared (signed_fields d h s))))
      ≡ canonicalize (obj (with_placeholder d))
pre_image-signed_fields d h s draft = canonicalize-sorted _ _ (
    sorted-set_field hash _ (cleared (signed_fields d h s))
    ∙ sorted_field hash _ _ _ (cleared-signed_fields d h s draft ∙ ap sorted (sym draft.no_hash))
    ∙ sym (sorted-set_field hash _ d))

pub sentinel_there :
    (body : Fields)
    → get_field sig body ≡ str signature_sentinel
    → signing_pre_image_bytes body ≡ canonicalize (obj (with_placeholder body))
unfolding signing_pre_image_bytes
sentinel_there body h = rw (h, text_eq_refl signature_sentinel) refl

signing_pre_image-cleared :
    (d : Fields) (h s : Text)
    → IsDraft d
    → signing_pre_image_bytes (cleared (signed_fields d h s)) ≡ signing_pre_image_bytes d
signing_pre_image-cleared d h s draft =
    sentinel_there (cleared (signed_fields d h s))
      (get_field-set_field sig (str signature_sentinel) _)
    ∙ pre_image-signed_fields d h s draft
    ∙ sym (sentinel_there d draft.empty)

starts_with-append : (p s : Text) → starts_with (p ++ s) p ≡ true
unfolding starts_with
starts_with-append [] [] = refl
starts_with-append [] (c ∷ s) = refl
starts_with-append (c ∷ p) s = ground (arith, starts_with-append p s)

module _ (crypto : Crypto) (private_key : KeyMaterial crypto.PrivateKey)
    (public_key : KeyMaterial crypto.PublicKey) where
  valid-signed_fields :
      (d : Fields) (p : Text) (paired : ArePaired crypto private_key public_key)
      → DecodesBase64 crypto
      → IsDraft d
      → signing_pre_image_bytes d ≡ ok p
      → verify_receipt_v02 crypto
          (signed_fields d (crypto.sha256 p) (signature_text crypto paired.signing p))
          public_key
        ≡ ok valid_receipt
  unfolding verify_receipt_v02 signature_algorithm_prefix
  valid-signed_fields d p paired decodes draft h =
      let s = signature_text crypto paired.signing p in
      let hash_there =
        get_field-set_field_other hash sig sig_is_not_hash (str s)
          (set_field hash (str (crypto.sha256 p)) d)
        ∙ get_field-set_field hash (str (crypto.sha256 p)) d in
      rw
        (
          get_field-set_field sig (str s) (set_field hash (str (crypto.sha256 p)) d),
          starts_with-append signature_algorithm_prefix
              (crypto.to_base64 (crypto.sign paired.signing p)),
          signing_pre_image-cleared d (crypto.sha256 p) s draft ∙ h,
          paired.public_reads,
          hash_there,
          decodes (crypto.sign paired.signing p),
          paired.verifies p,
          text_eq_refl (crypto.sha256 p),
        )
        refl

  -- A receipt that has been signed is valid under the paired key.
  pub verify_receipt_v02-sign_receipt_v02 :
      (d r : Fields)
      → ArePaired crypto private_key public_key
      → DecodesBase64 crypto
      → IsDraft d
      → sign_receipt_v02 crypto d private_key ≡ ok r
      → verify_receipt_v02 crypto r public_key ≡ ok valid_receipt
  unfolding sign_receipt_v02 verify_receipt_v02
  verify_receipt_v02-sign_receipt_v02 d r paired decodes draft signed =
      let pre_image =
        >>=-eq-ok (signing_pre_image_bytes d)
          (λ p. coerce_private_key crypto private_key >>= λ key.
            ok (signed_fields d (crypto.sha256 p) (signature_text crypto key p)))
          signed in
      let p = pre_image.0 in
      let last = rw paired.private_reads at pre_image.2 in
      subst (λ r. verify_receipt_v02 crypto r public_key ≡ ok valid_receipt) {y = r} (cc)
        (valid-signed_fields d p paired decodes draft pre_image.1)

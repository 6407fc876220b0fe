-- ===== src/Provenance/Meaning.antt =====
-- What a valid provenance is, in terms of the bytes, the JSON values and the key alone.
use witseal.Prelude.{
  ◌≡◌, ◌↔◌, ◌⊎◌, inl, inr, refl, sym, ap, ◌∙◌, Bool, true, not, List, [], ◌∷◌, ◌++◌, Option, some,
  ok, Bool-cases, is_empty, some_of, length, ◌==◌, ==_iff, drop,
}
use witseal.Prelude.Text.{Text, codes, text_eq_iff, text_eq, starts_with}
use witseal.Json.{Value}
use witseal.Json.Decimal.{digits}
use witseal.Policy.Spec.{Among}
use witseal.Receipts.Signing.{Bytes, KeyMaterial, key_object, pem, raw}
use witseal.Provenance.{
  Verifier, ReceiptProvenanceFields, DsseEnvelope, InTotoStatement, first_of, dsse_pae,
  coerce_builder_key, is_provenance_predicate, any_sig_valid, check_provenance, strip_sha256_prefix,
  dsse_intoto_payload_type, intoto_statement_type, slsa_provenance_predicate_type,
}
use witseal.Provenance.Shape.{IsEnvelope, as_envelope_iff, bind-ok}
use witseal.Provenance.Statement.{IsStatement, as_statement_iff}
use witseal.Provenance.Bound.{IsAttested, IsProvenance, NamesArtifact, check_provenance-Bound}

starts_with-eq : (s p : Text) → starts_with s p ≡ true → s ≡ p ++ drop (length p) s
unfolding starts_with
starts_with-eq s [] h = refl
starts_with-eq [] (c ∷ p) h = cc
starts_with-eq (b ∷ s) (c ∷ p) h = elim (Bool-cases (b == c)) [
  | inl same ↦
      let rest = rw same at h in
      ap (λ x. x ∷ s) ((==_iff b c).0 same) ∙ ap (λ l. c ∷ l) (starts_with-eq s p rest)
  | inr other ↦ let no = rw other at h in cc
]

stripped_iff :
    (digest hex : Text)
    → (strip_sha256_prefix digest ≡ some hex) ↔ (digest ≡ codes "sha256:" ++ hex)
unfolding strip_sha256_prefix starts_with
stripped_iff digest hex = (
  (λ h. elim (Bool-cases (starts_with digest (codes "sha256:"))) [
    | inl there ↦
        let cut = rw there at h in
        starts_with-eq digest (codes "sha256:") there ∙ ap (λ t. codes "sha256:" ++ t) (cc cut)
    | inr absent ↦ let no = rw absent at h in cc
  ]),
  (λ h. rw h refl),
)

any_iff :
    (test : Text → Bool) (sigs : List Text)
    → (some_of test sigs ≡ true) ↔ ((s : Text) × Among s sigs × (test s ≡ true))
any_iff test [] = ((λ h. cc), (λ (s, h, _). absurd h))
any_iff test (t ∷ ts) = elim (Bool-cases (test t)) [
  | inl good ↦ rw good ((λ h. (t, inl refl, good)), (λ h. refl))
  | inr bad ↦
      let rest = any_iff test ts in
      rw bad (
        (λ h. let (s, k, valid) = rest.0 h in (s, inr k, valid)),
        (λ (s, k, valid). elim k [
          | inl same ↦ cc (sym bad ∙ ap test (sym same) ∙ valid)
          | inr later ↦ rest.1 (s, later, valid)
        ]),
      )
]

module _ (verifier : Verifier) where
  -- The key that the material stands for: itself, what its PEM text or, of 32 raw bytes, their DER
  -- encoding is read as.
  abbrev pub IsKeyOf : KeyMaterial verifier.PublicKey → verifier.PublicKey → Type 0
  IsKeyOf (key_object k) key = k ≡ key
  IsKeyOf (pem t) key = verifier.public_of_pem t ≡ ok key
  IsKeyOf (raw bytes) key =
      (length bytes ≡ 32)
      × (verifier.public_of_der (
            0x30 ∷ 0x2a ∷ 0x30 ∷ 0x05 ∷ 0x06 ∷ 0x03 ∷ 0x2b ∷ 0x65 ∷ 0x70 ∷ 0x03 ∷ 0x21 ∷ 0x00
            ∷ bytes)
          ≡ ok key)

  key_iff :
      (material : KeyMaterial verifier.PublicKey) (key : verifier.PublicKey)
      → (coerce_builder_key verifier material ≡ ok key) ↔ IsKeyOf material key
  unfolding coerce_builder_key
  key_iff (key_object k) key = ((λ h. cc), (λ h. ap ok h))
  key_iff (pem t) key = ((λ h. h), (λ h. h))
  key_iff (raw bytes) key = elim (Bool-cases (length bytes == 32)) [
    | inl whole ↦ rw whole ((λ h. ((==_iff _ _).0 whole, h)), (λ (_, h). h))
    | inr other ↦ rw other ((λ h. cc), (λ (h, _). cc (sym other ∙ (==_iff _ _).1 h)))
  ]

  -- The DSSE encoding of a type and a payload: `DSSEv1`, both lengths in bytes, and both texts.
  abbrev pub encoding : Text → Bytes → Bytes
  encoding type payload =
      verifier.encode_utf8 (
        codes "DSSEv1 "
        ++ (digits (length (verifier.encode_utf8 type))
            ++ (codes " " ++ (type ++ (codes " " ++ (digits (length payload) ++ codes " "))))))
      ++ payload

  -- One of the signatures verifies over the encoding.
  abbrev pub IsSignedBy : verifier.PublicKey → DsseEnvelope → Type 0
  IsSignedBy key envelope =
      (sig : Text) × Among sig envelope.signatures
      × (verifier.verify key
            (encoding envelope.payload_type (verifier.from_base64 envelope.payload))
            (verifier.from_base64 sig)
          ≡ true)

  signed_iff :
      (key : verifier.PublicKey) (envelope : DsseEnvelope)
      → ((not (is_empty envelope.signatures) ≡ true)
          × (any_sig_valid verifier key
                (dsse_pae verifier envelope.payload_type (verifier.from_base64 envelope.payload))
                envelope.signatures
              ≡ true))
        ↔ IsSignedBy key envelope
  unfolding dsse_pae
  signed_iff key envelope =
      let any = any_iff _ envelope.signatures in
      (
        (λ (_, h). any.0 h),
        (λ (sig, among, valid).
            (some_there envelope.signatures sig among, any.1 (sig, among, valid))),
      )
    where
      some_there : (sigs : List Text) (sig : Text) → Among sig sigs → not (is_empty sigs) ≡ true
      some_there [] sig h = absurd h
      some_there (t ∷ ts) sig h = refl

  -- The predicate type is SLSA's, or the word "provenance" is in it in any case.
  abbrev pub IsProvenanceType : Text → Type 0
  IsProvenanceType t =
      (t ≡ codes "https://slsa.dev/provenance/v1") ⊎ (verifier.names_provenance t ≡ true)

  predicate_iff : (t : Text) → (is_provenance_predicate verifier t ≡ true) ↔ IsProvenanceType t
  unfolding is_provenance_predicate slsa_provenance_predicate_type
  predicate_iff t = elim (Bool-cases (text_eq t (codes "https://slsa.dev/provenance/v1"))) [
    | inl same ↦ rw same ((λ h. inl ((text_eq_iff _ _).0 same)), (λ h. refl))
    | inr other ↦
        rw other (
          (λ h. inr h),
          (λ h. elim h [ inl e ↦ cc (sym other ∙ (text_eq_iff _ _).1 e) | inr k ↦ k ]),
        )
  ]

  -- The first subject's `sha256` is the receipt's artifact digest behind its `sha256:`, up to case.
  abbrev pub BindsArtifact : ReceiptProvenanceFields → InTotoStatement → Type 0
  BindsArtifact receipt st =
      (sha256 : Text) × (hex : Text) × (rest : List (Option Text)) × (st.subject
        ≡ some sha256 ∷ rest)
      × (receipt.artifact_digest ≡ codes "sha256:" ++ hex)
      × (verifier.to_lower_case sha256 ≡ verifier.to_lower_case hex)

  first-cons :
      (ds : List (Option Text)) (d : Option Text)
      → first_of ds ≡ some d
      → (rest : List (Option Text)) × (ds ≡ d ∷ rest)
  first-cons [] d h = cc
  first-cons (c ∷ ds) d h = (ds, ap (λ x. x ∷ ds) (cc h))

  artifact_iff :
      (receipt : ReceiptProvenanceFields) (st : InTotoStatement)
      → NamesArtifact verifier receipt st ↔ BindsArtifact receipt st
  artifact_iff receipt st = (
    (λ (d, (first, (sha256, (there, (hex, (strip, (same, _))))))).
        let (rest, whole) = first-cons st.subject d first in
        (
          sha256,
          hex,
          rest,
          whole ∙ ap (λ x. x ∷ rest) there,
          (stripped_iff receipt.artifact_digest hex).0 strip,
          same,
        )),
    (λ (sha256, hex, rest, whole, digest, same). (
      some sha256,
      (
        ap first_of whole,
        (sha256, (refl, (hex, ((stripped_iff receipt.artifact_digest hex).1 digest, (same, tt))))),
      ),
    )),
  )

  -- The statement is an in-toto statement of provenance about the receipt's artifact.
  abbrev pub IsAbout : ReceiptProvenanceFields → InTotoStatement → Type 0
  IsAbout receipt st =
      (st.statement_type ≡ codes "https://in-toto.io/Statement/v1")
      × IsProvenanceType st.predicate_type
      × BindsArtifact receipt st

  IsAbout-iff :
      (receipt : ReceiptProvenanceFields) (st : InTotoStatement)
      → IsProvenance verifier receipt st ↔ IsAbout receipt st
  unfolding intoto_statement_type
  IsAbout-iff receipt st =
      let predicate = predicate_iff st.predicate_type in
      let artifact = artifact_iff receipt st in
      (
        (λ (type, (p, a)). (type, predicate.0 p, artifact.0 a)),
        (λ (type, p, a). (type, (predicate.1 p, artifact.1 a))),
      )

  -- The payload is the JSON text of a statement about the artifact, signed under the builder's key.
  abbrev pub Attests :
      ReceiptProvenanceFields → KeyMaterial verifier.PublicKey → DsseEnvelope → Type 0
  Attests receipt material envelope =
      (envelope.payload_type ≡ codes "application/vnd.in-toto+json")
      × ((key : verifier.PublicKey) × IsKeyOf material key × IsSignedBy key envelope)
      × ((value : Value) × (st : InTotoStatement) × (verifier.parse_json
              (verifier.decode_utf8 (verifier.from_base64 envelope.payload))
            ≡ ok value)
          × IsStatement value st
          × IsAbout receipt st)

  IsAttested-iff :
      (receipt : ReceiptProvenanceFields) (material : KeyMaterial verifier.PublicKey)
      (envelope : DsseEnvelope)
      → IsAttested verifier receipt material envelope ↔ Attests receipt material envelope
  unfolding dsse_intoto_payload_type
  IsAttested-iff receipt material envelope = (
    (λ (type, (key, (k, (some_sig, (sigs, (st, (reads, p))))))).
        let (value, parses, is) = (bind-ok _ _ st).0 reads in
        (
          type,
          (key, (key_iff material key).0 k, (signed_iff key envelope).0 (some_sig, sigs)),
          (value, st, parses, (as_statement_iff value st).0 is, (IsAbout-iff receipt st).0 p),
        )),
    (λ (type, (key, k, signed), (value, st, parses, is, p)).
        let (some_sig, sigs) = (signed_iff key envelope).1 signed in
        let reads = (bind-ok _ _ st).1 (value, parses, (as_statement_iff value st).1 is) in
        (
          type,
          (
            key,
            (
              (key_iff material key).1 k,
              (some_sig, (sigs, (st, (reads, (IsAbout-iff receipt st).1 p)))),
            ),
          ),
        )),
  )

  -- The attestation's bytes are bound to the receipt and attest its artifact.
  abbrev pub IsProven : Bytes → ReceiptProvenanceFields → KeyMaterial verifier.PublicKey → Type 0
  IsProven bytes receipt material =
      (codes "sha256:" ++ verifier.sha256_hex bytes ≡ receipt.attestation_digest)
      × ((value : Value) × (envelope : DsseEnvelope) × (verifier.parse_json
              (verifier.decode_text bytes)
            ≡ ok value)
          × IsEnvelope value envelope
          × Attests receipt material envelope)

  -- The provenance of a receipt is valid exactly if the following hold. The receipt's attestation digest is
  -- `sha256:` and the digest of the attestation's bytes. These are the JSON text of an object with a payload
  -- type, a payload and signatures, and the type is in-toto's. One of the signatures verifies, under the key
  -- that the builder's material stands for, over the DSSE encoding of the type and the payload. The payload is
  -- the JSON text of an in-toto statement with a provenance type, and the digest of its first subject is the
  -- receipt's artifact digest behind `sha256:`, up to case.
  pub check_provenance-valid_iff :
      (bytes : Bytes) (receipt : ReceiptProvenanceFields)
      (material : KeyMaterial verifier.PublicKey)
      → ((check_provenance verifier bytes receipt material).valid ≡ true)
        ↔ IsProven bytes receipt material
  check_provenance-valid_iff bytes receipt material =
      let checks = check_provenance-Bound verifier bytes receipt material in
      (
        (λ h.
            let (digest, (envelope, (reads, a))) = checks.0 h in
            let (value, parses, is) = (bind-ok _ _ envelope).0 reads in
            (
              digest,
              (
                value,
                envelope,
                parses,
                (as_envelope_iff value envelope).0 is,
                (IsAttested-iff receipt material envelope).0 a,
              ),
            )),
        (λ (digest, (value, envelope, parses, is, a)).
            let reads =
              (bind-ok _ _ envelope).1 (value, parses, (as_envelope_iff value envelope).1 is) in
            checks.1 (digest, (envelope, (reads, (IsAttested-iff receipt material envelope).1 a)))),
      )

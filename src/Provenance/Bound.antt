-- ===== src/Provenance/Bound.antt =====
-- What a valid provenance is: the check decides it.
use witseal.Prelude.{
  ◌≡◌, ◌↔◌, refl, subst, Bool, true, false, not, Option, none, some, Result, ok, err, is_empty,
}
use witseal.Prelude.Text.{Text, text_eq_iff}
use witseal.Receipts.Signing.{Bytes, KeyMaterial}
use witseal.Provenance.{
  Verifier, ProvenanceCheckResult, ReceiptProvenanceFields, DsseEnvelope, InTotoStatement, unless,
  on_ok, on_some, first_of, dsse_pae, coerce_builder_key, is_provenance_predicate,
  attestation_digest_of, read_envelope, read_statement, any_sig_valid, check_subject,
  check_statement, check_envelope, check_provenance, strip_sha256_prefix, dsse_intoto_payload_type,
  intoto_statement_type,
}

abbrev IsValid : ProvenanceCheckResult → Type 0
IsValid r = r.valid ≡ true

-- A refusal is not valid; one check more asks one condition more.
unless_iff :
    (b : Bool) (refused rest : ProvenanceCheckResult) (P Q : Type 0)
    → refused.valid ≡ false
    → (b ≡ true) ↔ P
    → IsValid rest ↔ Q
    → IsValid (unless b refused rest) ↔ (P × Q)
unless_iff true refused rest P Q no_way (p, p') (q, q') = ((λ h. (p refl, q h)), (λ (x, y). q' y))
unless_iff false refused rest P Q no_way (p, p') (q, q') = ((λ h. cc), (λ (x, y). cc (p' x)))

on_ok_iff :
    {A : Type 0} (r : Result A) (reason : Text) (rest : A → ProvenanceCheckResult) (Q : A → Type 0)
    → ((a : A) → IsValid (rest a) ↔ Q a)
    → IsValid (on_ok r reason rest) ↔ ((a : A) × ((r ≡ ok a) × Q a))
on_ok_iff (ok a) reason rest Q q =
    ((λ h. (a, (refl, (q a).0 h))), (λ (b, (e, y)). (q a).1 (subst Q {x = b} {y = a} (cc) y)))
on_ok_iff (err e) reason rest Q q = ((λ h. cc), (λ (b, (e, y)). cc))

on_some_iff :
    {A : Type 0} (o : Option A) (refused : ProvenanceCheckResult) (rest : A → ProvenanceCheckResult)
    (Q : A → Type 0)
    → refused.valid ≡ false
    → ((a : A) → IsValid (rest a) ↔ Q a)
    → IsValid (on_some o refused rest) ↔ ((a : A) × ((o ≡ some a) × Q a))
on_some_iff none refused rest Q no_way q = ((λ h. cc), (λ (b, (e, y)). cc))
on_some_iff (some a) refused rest Q no_way q =
    ((λ h. (a, (refl, (q a).0 h))), (λ (b, (e, y)). (q a).1 (subst Q {x = b} {y = a} (cc) y)))

module _ (verifier : Verifier) where
  -- The first subject has the artifact's digest.
  abbrev pub NamesArtifact : ReceiptProvenanceFields → InTotoStatement → Type 0
  NamesArtifact receipt st =
      (digest : Option Text) × ((first_of st.subject ≡ some digest)
        × ((sha256 : Text) × ((digest ≡ some sha256)
              × ((hex : Text) × ((strip_sha256_prefix receipt.artifact_digest ≡ some hex)
                    × ((verifier.to_lower_case sha256 ≡ verifier.to_lower_case hex) × Unit {0}))))))

  subject_iff :
      (receipt : ReceiptProvenanceFields) (st : InTotoStatement)
      → IsValid (check_subject verifier receipt st) ↔ NamesArtifact receipt st
  subject_iff receipt st = on_some_iff (first_of st.subject) _ _ _ refl (λ digest.
      on_some_iff digest _ _ _ refl (λ sha256.
        on_some_iff (strip_sha256_prefix receipt.artifact_digest) _ _ _ refl
          (λ hex. unless_iff _ _ _ _ _ refl (text_eq_iff _ _) ((λ _. tt), (λ _. refl)))))

  abbrev pub IsProvenance : ReceiptProvenanceFields → InTotoStatement → Type 0
  IsProvenance receipt st =
      (st.statement_type ≡ intoto_statement_type)
      × ((is_provenance_predicate verifier st.predicate_type ≡ true) × NamesArtifact receipt st)

  statement_iff :
      (receipt : ReceiptProvenanceFields) (st : InTotoStatement)
      → IsValid (check_statement verifier receipt st) ↔ IsProvenance receipt st
  statement_iff receipt st =
      unless_iff _ _ _ _ _ refl (text_eq_iff _ _)
        (unless_iff _ _ _ _ _ refl ((λ h. h), (λ h. h)) (subject_iff receipt st))

  -- One of the signatures is the builder's, over the type and the payload, and the payload is a statement
  -- about the artifact.
  abbrev pub IsAttested :
      ReceiptProvenanceFields → KeyMaterial verifier.PublicKey → DsseEnvelope → Type 0
  IsAttested receipt builder_key envelope =
      (envelope.payload_type ≡ dsse_intoto_payload_type)
      × ((key : verifier.PublicKey) × ((coerce_builder_key verifier builder_key ≡ ok key)
            × ((not (is_empty envelope.signatures) ≡ true)
                × ((any_sig_valid verifier key
                        (dsse_pae verifier envelope.payload_type
                          (verifier.from_base64 envelope.payload))
                        envelope.signatures
                      ≡ true)
                    × ((st : InTotoStatement) × ((read_statement verifier
                              (verifier.from_base64 envelope.payload)
                            ≡ ok st)
                          × IsProvenance receipt st))))))

  envelope_iff :
      (receipt : ReceiptProvenanceFields) (builder_key : KeyMaterial verifier.PublicKey)
      (envelope : DsseEnvelope)
      → IsValid (check_envelope verifier receipt builder_key envelope)
        ↔ IsAttested receipt builder_key envelope
  envelope_iff receipt builder_key envelope = unless_iff _ _ _ _ _ refl (text_eq_iff _ _) (
      on_ok_iff (coerce_builder_key verifier builder_key) _ _ _ (λ key.
        unless_iff _ _ _ _ _ refl ((λ h. h), (λ h. h))
          (unless_iff _ _ _ _ _ refl ((λ h. h), (λ h. h))
            (on_ok_iff (read_statement verifier (verifier.from_base64 envelope.payload)) _ _ _
              (statement_iff receipt)))))

  -- The checks, as a chain of conditions.
  pub check_provenance-Bound :
      (bytes : Bytes) (receipt : ReceiptProvenanceFields)
      (builder_key : KeyMaterial verifier.PublicKey)
      → ((check_provenance verifier bytes receipt builder_key).valid ≡ true) ↔ (
          (attestation_digest_of verifier bytes ≡ receipt.attestation_digest)
          × ((envelope : DsseEnvelope) × ((read_envelope verifier bytes ≡ ok envelope)
                × IsAttested receipt builder_key envelope)))
  unfolding check_provenance
  check_provenance-Bound bytes receipt builder_key =
      unless_iff _ _ _ _ _ refl (text_eq_iff _ _)
        (on_ok_iff (read_envelope verifier bytes) _ _ _ (envelope_iff receipt builder_key))

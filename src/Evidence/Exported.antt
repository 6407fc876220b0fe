-- ===== src/Evidence/Exported.antt =====
-- An exported package is valid.
use witseal.Prelude.{
  ℕ, ◌≡◌, refl, sym, ap, subst, ◌∙◌, List, [], ◌∷◌, Option, none, some, ok, ◌>>=◌, >>=-eq-ok, All,
  keep, get_last?,
}
use witseal.Prelude.Text.{Text, codes, text_eq, option_eq}
use witseal.Json.{Items, Fields, get_field}
use witseal.Schema.Witness.{WitnessEvent}
use witseal.Chain.Spec.{IsChain}
use witseal.Receipts.{generate_receipt}
use witseal.Receipts.Derived.{verify_receipt-generate_receipt}
use witseal.Receipts.Signing.{Crypto, KeyMaterial}
use witseal.Receipts.Signed.{ArePaired, DecodesBase64}
use witseal.Receipts.Generated.{v02_receipt, generate_receipt_v02-eq}
use witseal.Receipts.Versions.{AnyReceipt, v01, v02, generate_receipt_by_version}
use witseal.Verify.{Schemas, Envelope, parsed, read_schema_version}
use witseal.Verify.Artifact.{raw_receipts, recomputed_head, verify_artifact}
use witseal.Verify.Package.{AllHold, Accepts, IsValidPackage, package_object-Accepts}
use witseal.Evidence.{
  EvidenceExportV02Options, ExportOptions, EvidencePackage, ExportStamp, receipt_items,
  receipt_hash_of, extra_inputs, generate_v02_receipts, generate_v01_receipts, generate_receipts,
  package_of, package_range, last_of, export_evidence_package, or_else, package_value,
  receipt_value, find_hash_before, in_range,
}
use witseal.Evidence.Range.{keep-IsChain}
use witseal.Evidence.Companions.{
  AreDistinct, AreFound, AreDistinct-AreFound, keep-AreDistinct, ReadsBack, v01-Holds, v02-Holds,
}

abbrev pub envelope_of : EvidencePackage → Envelope
envelope_of p = record {
  chain_head_before_range = p.chain_head_before_range;
  chain_head_after_range = p.chain_head_after_range;
  events = p.events;
}

last_of-get_last? :
    (e : WitnessEvent) (es : List WitnessEvent)
    → recomputed_head (get_last? (e ∷ es)) ≡ some (last_of e es).event_hash
last_of-get_last? e [] = refl
last_of-get_last? e (f ∷ es) = last_of-get_last? f es

module _ (crypto : Crypto) (stamp : ExportStamp) (schemas : Schemas)
    (events : List WitnessEvent) where
  v01_receipts-AllHold :
      (es : List WitnessEvent) (rs : List AnyReceipt)
      (public_key : Option (KeyMaterial crypto.PublicKey))
      → AreFound events es
      → generate_v01_receipts crypto stamp es ≡ ok rs
      → All (ReadsBack schemas) rs
      → AllHold crypto schemas public_key events (receipt_items rs)
  unfolding generate_v01_receipts
  v01_receipts-AllHold [] rs public_key found made reads =
      subst (λ rs. AllHold crypto schemas public_key events (receipt_items rs)) {x = []} {y = rs}
        (cc) tt
  v01_receipts-AllHold (e ∷ es) rs public_key (here, found) made reads =
      let one =
        >>=-eq-ok (generate_receipt crypto.sha256 (stamp.now e) e)
          (λ receipt.
            generate_v01_receipts crypto stamp es >>= λ receipts. ok (v01 receipt ∷ receipts))
          made in
      let more =
        >>=-eq-ok (generate_v01_receipts crypto stamp es) (λ receipts. ok (v01 one.0 ∷ receipts))
          one.2 in
      let same : v01 one.0 ∷ more.0 ≡ rs = cc (more.2) in
      let read = subst (All (ReadsBack schemas)) (sym same) reads in
      subst (λ rs. AllHold crypto schemas public_key events (receipt_items rs)) same
        (
          v01-Holds crypto schemas events (stamp.now e) e one.0 public_key here one.1 read.0,
          v01_receipts-AllHold es more.0 public_key found more.1 read.1,
        )

  module _ (opts : EvidenceExportV02Options crypto.PrivateKey)
      (public_key : KeyMaterial crypto.PublicKey)
      (paired : ArePaired crypto opts.signing_key public_key) (decodes : DecodesBase64 crypto) where
    abbrev made_behind : Option Text → WitnessEvent → Fields
    made_behind prev e =
        v02_receipt crypto opts.signing_key public_key (stamp.now e) e
          (extra_inputs crypto stamp opts prev) paired

    generate-made :
        (prev : Option Text) (e : WitnessEvent)
        → generate_receipt_by_version crypto
            (stamp.now e)
            e
            (codes "witseal.receipt.v0.2")
            (some (extra_inputs crypto stamp opts prev))
            (some opts.signing_key)
          ≡ ok (v02 (made_behind prev e))
    unfolding generate_receipt_by_version text_eq
    generate-made prev e =
        rw
          (generate_receipt_v02-eq crypto opts.signing_key public_key (stamp.now e) e
            (extra_inputs crypto stamp opts prev) paired)
          refl

    v02_receipts-AllHold :
        (es : List WitnessEvent) (prev : Option Text) (rs : List AnyReceipt)
        → AreFound events es
        → generate_v02_receipts crypto stamp opts prev es ≡ ok rs
        → All (ReadsBack schemas) rs
        → AllHold crypto schemas (some public_key) events (receipt_items rs)
    unfolding generate_v02_receipts receipt_value
    v02_receipts-AllHold [] prev rs found made reads =
        subst (λ rs. AllHold crypto schemas (some public_key) events (receipt_items rs)) {x = []}
          {y = rs} (cc) tt
    v02_receipts-AllHold (e ∷ es) prev rs (here, found) made reads =
        let behind = receipt_hash_of (v02 (made_behind prev e)) in
        let rest = rw (generate-made prev e) at made in
        let more =
          >>=-eq-ok (generate_v02_receipts crypto stamp opts behind es)
            (λ receipts. ok (v02 (made_behind prev e) ∷ receipts)) rest in
        let same : v02 (made_behind prev e) ∷ more.0 ≡ rs = cc (more.2) in
        let read = subst (All (ReadsBack schemas)) (sym same) reads in
        subst (λ rs. AllHold crypto schemas (some public_key) events (receipt_items rs)) same
          (
            v02-Holds crypto opts.signing_key public_key (stamp.now e) e
                (extra_inputs crypto stamp opts prev) paired schemas events decodes refl here
                read.0,
            v02_receipts-AllHold es behind more.0 found more.1 read.1,
          )

version_read :
    (p : EvidencePackage)
    → read_schema_version (package_value p) ≡ some (codes "witseal.evidence-package.v0.1")
unfolding read_schema_version package_value get_field text_eq
version_read p = refl

receipts_read :
    (p : EvidencePackage) → raw_receipts (package_value p) ≡ some (receipt_items p.receipts)
unfolding package_value get_field text_eq
receipts_read p = refl

module _ (crypto : Crypto) (stamp : ExportStamp) (schemas : Schemas)
    (public_key : Option (KeyMaterial crypto.PublicKey)) where
  -- What a verifier has where receipts are signed: the public key that is paired with the signing key.
  abbrev pub HasKey : Option (EvidenceExportV02Options crypto.PrivateKey) → Type 0
  HasKey none = Unit
  HasKey (some opts) =
      (key : KeyMaterial crypto.PublicKey) × ((public_key ≡ some key)
        × (ArePaired crypto opts.signing_key key × DecodesBase64 crypto))

  receipts-AllHold :
      (opts : Option (EvidenceExportV02Options crypto.PrivateKey)) (events : List WitnessEvent)
      (rs : List AnyReceipt)
      → HasKey opts
      → AreFound events events
      → generate_receipts crypto stamp opts events ≡ ok rs
      → All (ReadsBack schemas) rs
      → AllHold crypto schemas public_key events (receipt_items rs)
  receipts-AllHold none events rs k found made reads =
      v01_receipts-AllHold crypto stamp schemas events events rs public_key found made reads
  receipts-AllHold (some opts) events rs (key, (given, (paired, decodes))) found made reads =
      subst (λ k. AllHold crypto schemas k events (receipt_items rs)) (sym given)
        (v02_receipts-AllHold crypto stamp schemas events opts key paired decodes events none rs
          found made reads)

  -- Both schemas give back what is in the package.
  abbrev pub SchemasRead : EvidencePackage → Type 0
  SchemasRead p =
      (schemas.parse_envelope (package_value p) ≡ parsed (envelope_of p))
      × All (ReadsBack schemas) p.receipts

  valid_package-Accepts :
      (p : EvidencePackage)
      → IsValidPackage crypto schemas public_key (envelope_of p) (receipt_items p.receipts)
      → SchemasRead p
      → Accepts (verify_artifact crypto schemas (package_value p) public_key)
  unfolding verify_artifact option_eq text_eq
  valid_package-Accepts p valid reads = rw (version_read p) (
      (package_object-Accepts crypto schemas public_key (package_value p) (envelope_of p)
          (receipt_items p.receipts) reads.0 (receipts_read p)).1
        valid)

  package_range-Accepts :
      (packs : Items) (version : Text) (opts : Option (EvidenceExportV02Options crypto.PrivateKey))
      (first last : ℕ) (head : Option Text) (kept : List WitnessEvent) (p : EvidencePackage)
      → IsChain crypto.sha256 head kept
      → AreDistinct kept
      → HasKey opts
      → SchemasRead p
      → package_range crypto stamp packs version opts first last head kept ≡ ok p
      → Accepts (verify_artifact crypto schemas (package_value p) public_key)
  package_range-Accepts packs version opts first last head [] p chain apart key reads made = cc
  package_range-Accepts packs version opts first last head (e ∷ es) p chain apart key reads made =
      let receipts =
        >>=-eq-ok (generate_receipts crypto stamp opts (e ∷ es))
          (λ receipts. ok (
            package_of crypto stamp packs version first last head e (last_of e es) (e ∷ es)
              receipts))
          made in
      let same : package_of crypto stamp packs version first last head e (last_of e es) (e ∷ es)
            receipts.0
          ≡ p =
        cc (receipts.2) in
      subst
        (λ p. SchemasRead p → Accepts (verify_artifact crypto schemas (package_value p) public_key))
        same
        (λ reads.
          valid_package-Accepts _
            (
              chain,
              (
                last_of-get_last? e es,
                receipts-AllHold opts (e ∷ es) receipts.0 key (AreDistinct-AreFound (e ∷ es) apart)
                    receipts.1 reads.1,
              ),
            )
            reads)
        reads

  -- A package that is exported from a log that is a chain of events with distinct ids, of any range and
  -- with receipts of either version, is judged valid, provided that the schemas give back what is in it
  -- and, for signed receipts, that the verifier has the paired key.
  pub verify_artifact-export_evidence_package :
      (events : List WitnessEvent) (packs : Items) (version : Text)
      (options : ExportOptions crypto.PrivateKey) (p : EvidencePackage)
      → IsChain crypto.sha256 none events
      → AreDistinct events
      → HasKey options.v02_options
      → SchemasRead p
      → export_evidence_package crypto stamp events packs version options ≡ ok p
      → Accepts (verify_artifact crypto schemas (package_value p) public_key)
  unfolding export_evidence_package
  verify_artifact-export_evidence_package [] packs version options p chain apart key reads made = cc
  verify_artifact-export_evidence_package (e ∷ es) packs version options p chain apart key reads
        made =
      let first = or_else options.start_sequence e.sequence in
      let last = or_else options.end_sequence (last_of e es).sequence in
      package_range-Accepts packs version options.v02_options first last _ _ p
        (keep-IsChain crypto.sha256 first last (e ∷ es) chain)
        (keep-AreDistinct (in_range first last) (e ∷ es) apart) key reads made

  v01_receipts-return :
      (es : List WitnessEvent)
      → (rs : List AnyReceipt) × (generate_v01_receipts crypto stamp es ≡ ok rs)
  unfolding generate_v01_receipts
  v01_receipts-return [] = ([], refl)
  v01_receipts-return (e ∷ es) =
      let one = verify_receipt-generate_receipt crypto.sha256 (stamp.now e) e in
      let more = v01_receipts-return es in (v01 one.0 ∷ more.0, rw (one.1.0, more.1) refl)

  v02_receipts-return :
      (opts : EvidenceExportV02Options crypto.PrivateKey) (key : KeyMaterial crypto.PublicKey)
      (prev : Option Text)
      → ArePaired crypto opts.signing_key key
      → DecodesBase64 crypto
      → (es : List WitnessEvent)
      → (rs : List AnyReceipt) × (generate_v02_receipts crypto stamp opts prev es ≡ ok rs)
  unfolding generate_v02_receipts
  v02_receipts-return opts key prev paired decodes [] = ([], refl)
  v02_receipts-return opts key prev paired decodes (e ∷ es) =
      let one = generate-made crypto stamp schemas [] opts key paired decodes prev e in
      let receipt = v02 (made_behind crypto stamp schemas [] opts key paired decodes prev e) in
      let more = v02_receipts-return opts key (receipt_hash_of receipt) paired decodes es in
      (receipt ∷ more.0, rw (one, more.1) refl)

  receipts-return :
      (opts : Option (EvidenceExportV02Options crypto.PrivateKey)) (es : List WitnessEvent)
      → HasKey opts
      → (rs : List AnyReceipt) × (generate_receipts crypto stamp opts es ≡ ok rs)
  receipts-return none es key = v01_receipts-return es
  receipts-return (some opts) es (key, (given, (paired, decodes))) =
      v02_receipts-return opts key none paired decodes es

  -- A package is exported whenever an event is in the range.
  pub export_evidence_package-returns :
      (e : WitnessEvent) (es : List WitnessEvent) (packs : Items) (version : Text)
      (options : ExportOptions crypto.PrivateKey) (f : WitnessEvent) (fs : List WitnessEvent)
      → HasKey options.v02_options
      → keep
          (in_range
            (or_else options.start_sequence e.sequence)
            (or_else options.end_sequence (last_of e es).sequence))
          (e ∷ es)
        ≡ f ∷ fs
      → (p : EvidencePackage) × (export_evidence_package crypto stamp (e ∷ es) packs version options
          ≡ ok p)
  unfolding export_evidence_package
  export_evidence_package-returns e es packs version options f fs key kept =
      let made = receipts-return options.v02_options (f ∷ fs) key in
      let first = or_else options.start_sequence e.sequence in
      let last = or_else options.end_sequence (last_of e es).sequence in
      let head = find_hash_before (e ∷ es) first in
      let packed : package_range crypto stamp packs version options.v02_options first last head
            (f ∷ fs)
          ≡ ok (
              package_of crypto stamp packs version first last head f (last_of f fs) (f ∷ fs)
                made.0) =
        rw made.1 refl in
      (
        package_of crypto stamp packs version first last head f (last_of f fs) (f ∷ fs) made.0,
        ap (package_range crypto stamp packs version options.v02_options first last head) kept
            ∙ packed,
      )

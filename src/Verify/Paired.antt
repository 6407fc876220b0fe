-- ===== src/Verify/Paired.antt =====
-- What it takes that a receipt of a package holds for the event that it names.
use witseal.Prelude.{
  ◌≡◌, ◌≢◌, ◌⊎◌, ◌↔◌, inl, inr, refl, sym, ap, subst, ◌∙◌, Bool, true, false, not, if◌then◌else◌,
  List, [], ◌∷◌, All, Option, none, some, Result, ok, err, ◌>>=◌, Bool-cases, Option-cases,
}
use witseal.Prelude.Text.{Text, codes, text_eq, text_eq_iff, option_eq, option_eq_iff}
use witseal.Json.{Value, null, undefined, bool, num, str, arr, obj, unsupported, Fields, get_field}
use witseal.Schema.Intent.{classified_intent_value}
use witseal.Schema.Policy.{policy_decision_value}
use witseal.Schema.Witness.{WitnessEvent}
use witseal.Chain.{sha256_of_canonical}
use witseal.Receipts.{
  ExecutionReceipt, ReceiptCheck, valid_receipt, unless_same, result_hash, verify_receipt,
}
use witseal.Receipts.Signing.{Crypto, KeyMaterial, verify_receipt_v02}
use witseal.Receipts.Versions.{ExecutionReceiptV02}
use witseal.Verify.{
  SafeParse, parsed, issues, Schemas, event_by_id, read_schema_version, v02_version,
  for_verification, check_execution_result, cross_check_against_event, text_or_none, with_key,
  package_v02, package_v01, verify_package_receipt,
}
use witseal.Verify.Package.{Holds}

-- The event is the last of the list with this id.
abbrev pub IsLastWith : Text → List WitnessEvent → WitnessEvent → Type 0
IsLastWith id [] e = ⊥
IsLastWith id (f ∷ es) e =
    IsLastWith id es e ⊎ ((f ≡ e) × (f.event_id ≡ id) × All (λ g. g.event_id ≢ id) es)

absent :
    (id : Text) (es : List WitnessEvent) → event_by_id id es ≡ none → All (λ g. g.event_id ≢ id) es
unfolding event_by_id
absent id [] h = tt
absent id (f ∷ es) h = elim (Option-cases (event_by_id id es)) [
  | inr (g, later) ↦ let no = rw later at h in cc
  | inl alone ↦ elim (Bool-cases (text_eq f.event_id id)) [
    | inl same ↦ let no = rw (alone, same) at h in cc
    | inr other ↦ ((λ e. cc (sym other ∙ (text_eq_iff f.event_id id).1 e)), absent id es alone)
  ]
]

present :
    (id : Text) (es : List WitnessEvent) (e : WitnessEvent)
    → event_by_id id es ≡ some e
    → IsLastWith id es e
unfolding event_by_id
present id [] e h = cc
present id (f ∷ es) e h = elim (Option-cases (event_by_id id es)) [
  | inr (g, later) ↦
      let same : g ≡ e = let at_later = rw later at h in cc in
      inl (subst (IsLastWith id es) same (present id es g later))
  | inl alone ↦ elim (Bool-cases (text_eq f.event_id id)) [
    | inl same ↦
        let here : f ≡ e = let at_here = rw (alone, same) at h in cc in
        inr (here, (text_eq_iff f.event_id id).0 same, absent id es alone)
    | inr other ↦ let no = rw (alone, other) at h in cc
  ]
]

none_with :
    (id : Text) (es : List WitnessEvent) → All (λ g. g.event_id ≢ id) es → event_by_id id es ≡ none
unfolding event_by_id
none_with id [] h = refl
none_with id (f ∷ es) (apart, h) = elim (Bool-cases (text_eq f.event_id id)) [
  | inl same ↦ absurd (apart ((text_eq_iff _ _).0 same))
  | inr other ↦ rw (none_with id es h, other) refl
]

found :
    (id : Text) (es : List WitnessEvent) (e : WitnessEvent)
    → IsLastWith id es e
    → event_by_id id es ≡ some e
unfolding event_by_id
found id [] e h = absurd h
found id (f ∷ es) e (inl later) = rw (found id es e later) refl
found id (f ∷ es) e (inr (here, named, h)) =
    rw (none_with id es h, (text_eq_iff f.event_id id).1 named) (ap some here)

-- The object declares the version of signed receipts.
abbrev pub IsSigned : Value → Type 0
IsSigned raw =
    (fs : Fields) × (raw ≡ obj fs)
    × (get_field (codes "schema_version") fs ≡ str (codes "witseal.receipt.v0.2"))

text_or_none-eq : (v : Value) (t : Text) → text_or_none v ≡ some t → v ≡ str t
text_or_none-eq (str s) t e = cc
text_or_none-eq null t e = cc
text_or_none-eq undefined t e = cc
text_or_none-eq (bool b) t e = cc
text_or_none-eq (num n) t e = cc
text_or_none-eq (arr vs) t e = cc
text_or_none-eq (obj fs) t e = cc
text_or_none-eq (unsupported s) t e = cc

version_read : (raw : Value) → read_schema_version raw ≡ some v02_version → IsSigned raw
unfolding read_schema_version
version_read (obj fs) h = (fs, refl, text_or_none-eq _ _ h)
version_read (str s) h = cc
version_read null h = cc
version_read undefined h = cc
version_read (bool b) h = cc
version_read (num n) h = cc
version_read (arr vs) h = cc
version_read (unsupported s) h = cc

version_iff :
    (raw : Value) → (option_eq (read_schema_version raw) (some v02_version) ≡ true) ↔ IsSigned raw
version_iff raw = (
  (λ h. version_read raw ((option_eq_iff _ _).0 h)),
  (λ (fs, is, version).
      unfold read_schema_version in
      (option_eq_iff (read_schema_version raw) (some v02_version)).1 (rw (is, version) refl)),
)

ok-injective : (a b : ReceiptCheck) → ok a ≡ ok b → a ≡ b
ok-injective a b h = cc

-- What it takes that a chain of checks holds.
Holds-bind :
    {A : Type 0} (r : Result A) (f : A → Result ReceiptCheck)
    → Holds (r >>= f) ↔ ((a : A) × (r ≡ ok a) × Holds (f a))
Holds-bind (ok a) f =
    ((λ h. (a, refl, h)), (λ (b, e, h). subst (λ c. Holds (f c)) {x = b} {y = a} (cc) h))
Holds-bind (err t) f = ((λ (c, (e, v)). cc), (λ (b, e, h). cc))

Holds-unless :
    (b : Bool) (reason : Text) (rest : Result ReceiptCheck)
    → Holds (unless_same b reason rest) ↔ ((b ≡ true) × Holds rest)
Holds-unless true reason rest = ((λ h. (refl, h)), (λ (_, h). h))
Holds-unless false reason rest = ((λ (c, (e, v)). cc), (λ (h, _). cc))

Holds-then :
    (r rest : Result ReceiptCheck)
    → Holds (r >>= λ sig. if not sig.valid then ok sig else rest) ↔ (Holds r × Holds rest)
Holds-then (err t) rest = ((λ (c, (e, v)). cc), (λ ((c, (e, v)), _). cc))
Holds-then (ok sig) rest = go sig.valid refl
  where
    go :
        (b : Bool)
        → sig.valid ≡ b
        → Holds (if not b then ok sig else rest) ↔ (Holds (ok sig) × Holds rest)
    go true good = ((λ h. ((sig, (refl, good)), h)), (λ (_, h). h))
    go false bad = ((λ h. absurd (refused h)), (λ (h, _). absurd (refused h)))
      where
        refused : ¬ Holds (ok sig)
        refused (c, (e, v)) =
            let same : sig.valid ≡ c.valid = ap (λ k. k.valid) (ok-injective sig c e) in
            cc (sym bad ∙ same ∙ v)

module _ (crypto : Crypto) (schemas : Schemas) where
  -- The receipt's digests are those of the event's intent and decision, and of its result if the receipt
  -- has a digest of a result.
  abbrev pub MatchesEvent : ExecutionReceiptV02 → WitnessEvent → Type 0
  MatchesEvent receipt event =
      (sha256_of_canonical crypto.sha256 (classified_intent_value event.classified_intent)
        ≡ ok receipt.classified_intent_hash)
      × (sha256_of_canonical crypto.sha256 (policy_decision_value event.policy_decision)
          ≡ ok receipt.policy_decision_hash)
      × ((receipt.execution_result_hash ≡ none)
          ⊎ ((h : Text) × (receipt.execution_result_hash ≡ some h)
              × (result_hash crypto.sha256 event.execution_result ≡ ok (some h))))

  execution_result_iff :
      (o : Option Text) (event : WitnessEvent)
      → Holds (check_execution_result crypto schemas o event) ↔ (
          (o ≡ none)
          ⊎ ((h : Text) × (o ≡ some h)
              × (result_hash crypto.sha256 event.execution_result ≡ ok (some h))))
  execution_result_iff none event = ((λ h. inl refl), (λ h. (valid_receipt, (refl, refl))))
  execution_result_iff (some t) event = (
    (λ h.
        let (digest, made, rest) =
          (Holds-bind (result_hash crypto.sha256 event.execution_result) _).0 h in
        let same = (option_eq_iff (some t) digest).0 ((Holds-unless _ _ _).0 rest).0 in
        inr (t, refl, made ∙ ap ok (sym same))),
    (λ h. elim h [
      | inl e ↦ cc
      | inr (u, e, made) ↦ (Holds-bind (result_hash crypto.sha256 event.execution_result) _).1 (
        some u,
        made,
        (Holds-unless _ _ _).1
            ((option_eq_iff (some t) (some u)).1 e, (valid_receipt, (refl, refl))),
      )
    ]),
  )

  cross_check_iff :
      (receipt : ExecutionReceiptV02) (event : WitnessEvent)
      → Holds (cross_check_against_event crypto schemas receipt event) ↔ MatchesEvent receipt event
  unfolding cross_check_against_event
  cross_check_iff receipt event =
      let result = execution_result_iff receipt.execution_result_hash event in
      (
        (λ h.
            let (intent, made, rest) = (Holds-bind (sha256_of_canonical crypto.sha256 _) _).0 h in
            let (same, more) = (Holds-unless _ _ _).0 rest in
            let (decision, built, last) =
              (Holds-bind (sha256_of_canonical crypto.sha256 _) _).0 more in
            let (alike, end) = (Holds-unless _ _ _).0 last in
            (
              made ∙ ap ok (sym ((text_eq_iff _ _).0 same)),
              built ∙ ap ok (sym ((text_eq_iff _ _).0 alike)),
              result.0 end,
            )),
        (λ (intent, decision, end). (Holds-bind (sha256_of_canonical crypto.sha256 _) _).1 (
          receipt.classified_intent_hash,
          intent,
          (Holds-unless _ _ _).1 (
            (text_eq_iff _ _).1 refl,
            (Holds-bind (sha256_of_canonical crypto.sha256 _) _).1 (
              receipt.policy_decision_hash,
              decision,
              (Holds-unless _ _ _).1 ((text_eq_iff _ _).1 refl, result.1 end),
            ),
          ),
        )),
      )

  module _ (public_key : Option (KeyMaterial crypto.PublicKey)) (events : List WitnessEvent) where
    -- A signed receipt: the schema reads it, a key is given, the object as received verifies under it, and
    -- its digests are those of the event.
    abbrev pub SignedHolds : Value → Type 0
    SignedHolds raw =
        (receipt : ExecutionReceiptV02) × (event : WitnessEvent) × (fs : Fields)
        × (key : KeyMaterial crypto.PublicKey) × (schemas.parse_v02 raw ≡ parsed receipt)
        × IsLastWith receipt.witness_event_id events event
        × (raw ≡ obj fs)
        × (public_key ≡ some key)
        × Holds (verify_receipt_v02 crypto fs key)
        × MatchesEvent receipt event

    -- A receipt of the other version: the schema reads it, and it is valid for the event.
    abbrev pub PlainHolds : Value → Type 0
    PlainHolds raw =
        (receipt : ExecutionReceipt) × (event : WitnessEvent) × (schemas.parse_v01 raw
          ≡ parsed receipt)
        × IsLastWith receipt.witness_event_id events event
        × Holds (verify_receipt crypto.sha256 receipt event)

    abbrev pub ReceiptHolds : Value → Type 0
    ReceiptHolds raw = (IsSigned raw × SignedHolds raw) ⊎ ((¬ IsSigned raw) × PlainHolds raw)

    plain_by :
        (raw : Value) (parse : SafeParse ExecutionReceipt)
        → schemas.parse_v01 raw ≡ parse
        → Holds (package_v01 crypto schemas events parse) ↔ PlainHolds raw
    plain_by raw (issues e) h =
        ((λ (c, (k, v)). cc), (λ (receipt, event, reads, _, _). cc (sym h ∙ reads)))
    plain_by raw (parsed r) h = elim (Option-cases (event_by_id r.witness_event_id events)) [
      | inl gone ↦ rw gone (
        (λ (c, (k, v)). cc),
        (λ (receipt, event, reads, last, _).
            let same : receipt ≡ r = cc (sym reads ∙ h) in
            let there =
              found r.witness_event_id events event
                (subst (λ q. IsLastWith q.witness_event_id events event) same last) in
            cc (sym gone ∙ there)),
      )
      | inr (event, there) ↦ rw there (
        (λ k. (r, event, h, present r.witness_event_id events event there, k)),
        (λ (receipt, other, reads, last, k).
            let same : receipt ≡ r = cc (sym reads ∙ h) in
            let one : other ≡ event = cc (
              sym (
                found r.witness_event_id events other
                  (subst (λ q. IsLastWith q.witness_event_id events other) same last))
              ∙ there) in
            subst (λ q. Holds (verify_receipt crypto.sha256 q event)) same
              (subst (λ o. Holds (verify_receipt crypto.sha256 receipt o)) one k)),
      )
    ]

    by_key :
        (raw : Value) (fs : Fields) (r : ExecutionReceiptV02) (event : WitnessEvent)
        (o : Option (KeyMaterial crypto.PublicKey))
        → public_key ≡ o
        → raw ≡ obj fs
        → schemas.parse_v02 raw ≡ parsed r
        → event_by_id r.witness_event_id events ≡ some event
        → Holds (with_key crypto schemas raw r event o) ↔ SignedHolds raw
    unfolding for_verification
    by_key raw fs r event none k is h there = (
      (λ (c, (e, v)). cc),
      (λ (receipt, other, gs, key, reads, last, same, given, _, _). cc (sym k ∙ given)),
    )
    by_key raw fs r event (some key) k is h there =
        let both =
          Holds-then (verify_receipt_v02 crypto fs key)
            (cross_check_against_event crypto schemas r event) in
        (
          (λ holds.
              let (sig, cross) = both.0 (rw is at holds) in
              (
                r,
                event,
                fs,
                key,
                h,
                present r.witness_event_id events event there,
                is,
                k,
                sig,
                (cross_check_iff r event).0 cross,
              )),
          (λ (receipt, other, gs, given, reads, last, same, hk, sig, matches).
              let one : receipt ≡ r = cc (sym reads ∙ h) in
              let only : other ≡ event = cc (
                sym (
                  found r.witness_event_id events other
                    (subst (λ q. IsLastWith q.witness_event_id events other) one last))
                ∙ there) in
              let fields : gs ≡ fs = cc (sym same ∙ is) in
              let same_key : given ≡ key = cc (sym hk ∙ k) in
              let signed : Holds (verify_receipt_v02 crypto fs key) =
                subst (λ q. Holds (verify_receipt_v02 crypto q key)) fields
                  (subst (λ q. Holds (verify_receipt_v02 crypto gs q)) same_key sig) in
              let cross : MatchesEvent r event =
                subst (λ q. MatchesEvent q event) one
                  (subst (λ q. MatchesEvent receipt q) only matches) in
              rw is (both.1 (signed, (cross_check_iff r event).1 cross))),
        )

    signed_by :
        (raw : Value) (fs : Fields) (parse : SafeParse ExecutionReceiptV02)
        → raw ≡ obj fs
        → schemas.parse_v02 raw ≡ parse
        → Holds (package_v02 crypto schemas raw events public_key parse) ↔ SignedHolds raw
    signed_by raw fs (issues e) is h = (
      (λ (c, (k, v)). cc),
      (λ (receipt, event, gs, key, reads, _, _, _, _, _). cc (sym h ∙ reads)),
    )
    signed_by raw fs (parsed r) is h = elim (Option-cases (event_by_id r.witness_event_id events)) [
      | inl gone ↦ rw gone (
        (λ (c, (k, v)). cc),
        (λ (receipt, event, gs, key, reads, last, _, _, _, _).
            let same : receipt ≡ r = cc (sym reads ∙ h) in
            let there =
              found r.witness_event_id events event
                (subst (λ q. IsLastWith q.witness_event_id events event) same last) in
            cc (sym gone ∙ there)),
      )
      | inr (event, there) ↦ rw there (by_key raw fs r event public_key refl is h there)
    ]

    -- A receipt of a package is accepted exactly if it holds for the event that it names.
    pub package_receipt_iff :
        (raw : Value)
        → Holds (verify_package_receipt crypto schemas raw events public_key) ↔ ReceiptHolds raw
    unfolding verify_package_receipt
    package_receipt_iff raw =
        elim (Bool-cases (option_eq (read_schema_version raw) (some v02_version))) [
          | inl signed ↦
              let (fs, is, version) = (version_iff raw).0 signed in
              let way = signed_by raw fs (schemas.parse_v02 raw) is refl in
              rw signed (
                (λ h. inl ((fs, is, version), way.0 h)),
                (λ h. elim h [ inl (_, k) ↦ way.1 k | inr (n, _) ↦ absurd (n (fs, is, version)) ]),
              )
          | inr plain ↦
              let way = plain_by raw (schemas.parse_v01 raw) refl in
              let other : ¬ IsSigned raw = λ s. cc (sym plain ∙ (version_iff raw).1 s) in
              rw plain (
                (λ h. inr (other, way.0 h)),
                (λ h. elim h [ inl (s, _) ↦ absurd (other s) | inr (_, k) ↦ way.1 k ]),
              )
        ]

-- ===== src/Evidence/Companions.antt =====
-- Events are found by their ids, and the receipts generated for them hold.
use witseal.Prelude.{
  ◌≡◌, ◌≢◌, refl, sym, ap, subst, ◌∙◌, Bool, false, List, [], ◌∷◌, Option, none, some, ok,
  Bool-cases, inl, inr, All, keep, keep-skip, keep-take,
}
use witseal.Prelude.Text.{
  Text, codes, text_eq, text_eq_iff, text_eq_refl, option_eq, option_eq_refl,
}
use witseal.Json.{str, obj, Fields, get_field, nullable}
use witseal.Json.Objects.{set_field, delete_field}
use witseal.Schema.Intent.{classified_intent_value}
use witseal.Schema.Policy.{policy_decision_value}
use witseal.Schema.Witness.{WitnessEvent}
use witseal.Schema.Witness.Plain.{classified_intent-IsPlain, policy_decision-IsPlain}
use witseal.Chain.Digest.{sha256_of_canonical-eq}
use witseal.Receipts.{
  ExecutionReceipt, valid_receipt, receipt_draft_value, generate_receipt, verify_receipt,
}
use witseal.Receipts.Derived.{
  verify_receipt-generate_receipt, verify_receipt-valid_iff, intent_digest, decision_digest,
  result_digest, result_hash-eq,
}
use witseal.Receipts.Signing.{Crypto, KeyMaterial, verify_receipt_v02}
use witseal.Receipts.Signed.{ArePaired, DecodesBase64}
use witseal.Receipts.Generated.{v02_receipt, exec_digest, signed_fields-get, v02_receipt-valid}
use witseal.Receipts.Versions.{
  ExecutionReceiptV02, ReceiptV02ExtraInputs, AnyReceipt, v01, v02, receipt_draft_fields,
}
use witseal.Verify.{
  Schemas, parsed, event_by_id, verify_package_receipt, read_schema_version,
  cross_check_against_event, check_execution_result, for_verification,
}
use witseal.Verify.Package.{Holds}
use witseal.Evidence.{receipt_value}

-- No two events have one id.
abbrev pub AreDistinct : List WitnessEvent → Type 0
AreDistinct [] = Unit
AreDistinct (e ∷ es) = All (λ f. f.event_id ≢ e.event_id) es × AreDistinct es

-- Each of the events is found in the list by its id.
abbrev pub AreFound : List WitnessEvent → List WitnessEvent → Type 0
AreFound events es = All (λ e. event_by_id e.event_id events ≡ some e) es

not_found :
    (id : Text) (es : List WitnessEvent) → All (λ f. f.event_id ≢ id) es → event_by_id id es ≡ none
unfolding event_by_id
not_found id [] h = refl
not_found id (e ∷ es) (apart, h) = elim (Bool-cases (text_eq e.event_id id)) [
  | inl same ↦ absurd (apart ((text_eq_iff _ _).0 same))
  | inr other ↦ rw (not_found id es h, other) refl
]

found_behind :
    (e : WitnessEvent) (events es : List WitnessEvent)
    → AreFound events es
    → AreFound (e ∷ events) es
unfolding event_by_id
found_behind e events [] h = tt
found_behind e events (f ∷ es) (here, h) = (rw here refl, found_behind e events es h)

pub AreDistinct-AreFound :
    (events : List WitnessEvent) → AreDistinct events → AreFound events events
unfolding event_by_id
AreDistinct-AreFound [] h = tt
AreDistinct-AreFound (e ∷ events) (apart, h) = (
  rw (not_found e.event_id events apart, text_eq_refl e.event_id) refl,
  found_behind e events events (AreDistinct-AreFound events h),
)

module _ (p : WitnessEvent → Bool) where
  All-keep : (P : WitnessEvent → Type 0) (es : List WitnessEvent) → All P es → All P (keep p es)
  All-keep P [] h = tt
  All-keep P (e ∷ es) (q, h) = elim (Bool-cases (p e)) [
    | inl kept ↦ subst (All P) (sym (keep-take p e es kept)) (q, All-keep P es h)
    | inr out ↦ subst (All P) (sym (keep-skip p e es out)) (All-keep P es h)
  ]

  pub keep-AreDistinct : (es : List WitnessEvent) → AreDistinct es → AreDistinct (keep p es)
  keep-AreDistinct [] h = tt
  keep-AreDistinct (e ∷ es) (q, h) = elim (Bool-cases (p e)) [
    | inl kept ↦
        subst AreDistinct (sym (keep-take p e es kept)) (All-keep _ es q, keep-AreDistinct es h)
    | inr out ↦ subst AreDistinct (sym (keep-skip p e es out)) (keep-AreDistinct es h)
  ]

module _ (schemas : Schemas) where
  -- The schema accepts the object of a receipt and gives its properties.
  abbrev pub ReadsV02 : Fields → ExecutionReceiptV02 → Type 0
  ReadsV02 fs t =
      (schemas.parse_v02 (obj fs) ≡ parsed t)
      × ((get_field (codes "witness_event_id") fs ≡ str t.witness_event_id)
          × ((get_field (codes "classified_intent_hash") fs ≡ str t.classified_intent_hash)
              × ((get_field (codes "policy_decision_hash") fs ≡ str t.policy_decision_hash)
                  × (get_field (codes "execution_result_hash") fs
                      ≡ nullable str t.execution_result_hash))))

  abbrev pub ReadsBack : AnyReceipt → Type 0
  ReadsBack (v01 r) = schemas.parse_v01 (receipt_value (v01 r)) ≡ parsed r
  ReadsBack (v02 fs) = (t : ExecutionReceiptV02) × ReadsV02 fs t

v01_version_read :
    (r : ExecutionReceipt)
    → read_schema_version (receipt_value (v01 r)) ≡ some (codes "witseal.receipt.v0.1")
unfolding read_schema_version receipt_value receipt_draft_value set_field delete_field get_field
    text_eq
v01_version_read r = refl

module _ (crypto : Crypto) (schemas : Schemas) (events : List WitnessEvent) where
  pub v01-Holds :
      (now : Text) (e : WitnessEvent) (r : ExecutionReceipt)
      (public_key : Option (KeyMaterial crypto.PublicKey))
      → event_by_id e.event_id events ≡ some e
      → generate_receipt crypto.sha256 now e ≡ ok r
      → ReadsBack schemas (v01 r)
      → Holds (verify_package_receipt crypto schemas (receipt_value (v01 r)) events public_key)
  unfolding verify_package_receipt option_eq text_eq
  v01-Holds now e r public_key found made reads =
      let good = verify_receipt-generate_receipt crypto.sha256 now e in
      let valid : verify_receipt crypto.sha256 r e ≡ ok valid_receipt =
        subst (λ r. verify_receipt crypto.sha256 r e ≡ ok valid_receipt) {x = good.0} {y = r}
          (cc (sym good.1.0 ∙ made)) good.1.1.1 in
      let id : r.witness_event_id ≡ e.event_id =
        ((verify_receipt-valid_iff crypto.sha256 r e).0 valid).0 in
      let by_receipt = ap (λ i. event_by_id i events) id ∙ found in
      (valid_receipt, (rw (v01_version_read r, reads, by_receipt) valid, refl))

str-injective : (s t : Text) → str s ≡ str t → s ≡ t
str-injective s t h = cc

nullable-injective : (s t : Option Text) → nullable str s ≡ nullable str t → s ≡ t
nullable-injective none none h = refl
nullable-injective none (some t) h = cc
nullable-injective (some s) none h = cc
nullable-injective (some s) (some t) h = cc

module _ (crypto : Crypto) (schemas : Schemas) (e : WitnessEvent) where
  execution_result-valid :
      (o : Option Text)
      → o ≡ result_digest crypto.sha256 e.execution_result
      → check_execution_result crypto schemas o e ≡ ok valid_receipt
  execution_result-valid none h = refl
  execution_result-valid (some t) h =
      rw (result_hash-eq crypto.sha256 e.execution_result, sym h, option_eq_refl (some t)) refl

  -- The hashes of an event's parts pass the cross-check.
  cross_check-valid :
      (t : ExecutionReceiptV02)
      → t.classified_intent_hash ≡ intent_digest crypto.sha256 e
      → t.policy_decision_hash ≡ decision_digest crypto.sha256 e
      → t.execution_result_hash ≡ result_digest crypto.sha256 e.execution_result
      → cross_check_against_event crypto schemas t e ≡ ok valid_receipt
  unfolding cross_check_against_event
  cross_check-valid t hi hd hr =
      rw
        (
          sha256_of_canonical-eq crypto.sha256 (classified_intent_value e.classified_intent)
              (classified_intent-IsPlain e.classified_intent),
          (text_eq_iff _ _).1 hi,
          sha256_of_canonical-eq crypto.sha256 (policy_decision_value e.policy_decision)
              (policy_decision-IsPlain e.policy_decision),
          (text_eq_iff _ _).1 hd,
        )
        (execution_result-valid t.execution_result_hash hr)

module _ (crypto : Crypto) (private_key : KeyMaterial crypto.PrivateKey)
    (public_key : KeyMaterial crypto.PublicKey) where
  module _ (now : Text) (e : WitnessEvent) (extra : ReceiptV02ExtraInputs)
      (paired : ArePaired crypto private_key public_key) where
    abbrev made : Fields
    made = v02_receipt crypto private_key public_key now e extra paired

    made-schema : get_field (codes "schema_version") made ≡ str (codes "witseal.receipt.v0.2")
    unfolding receipt_draft_fields get_field text_eq
    made-schema = signed_fields-get (codes "schema_version") _ _ _ refl refl

    made-version : read_schema_version (obj made) ≡ some (codes "witseal.receipt.v0.2")
    unfolding read_schema_version
    made-version = rw made-schema refl

    made-intent :
        get_field (codes "classified_intent_hash") made ≡ str (intent_digest crypto.sha256 e)
    unfolding receipt_draft_fields get_field text_eq
    made-intent = signed_fields-get (codes "classified_intent_hash") _ _ _ refl refl

    made-decision :
        get_field (codes "policy_decision_hash") made ≡ str (decision_digest crypto.sha256 e)
    unfolding receipt_draft_fields get_field text_eq
    made-decision = signed_fields-get (codes "policy_decision_hash") _ _ _ refl refl

    made-result :
        get_field (codes "execution_result_hash") made
        ≡ nullable str (exec_digest crypto private_key public_key extra.execution_lost e)
    unfolding receipt_draft_fields get_field text_eq
    made-result = signed_fields-get (codes "execution_result_hash") _ _ _ refl refl

    made-event : get_field (codes "witness_event_id") made ≡ str e.event_id
    unfolding receipt_draft_fields get_field text_eq
    made-event = signed_fields-get (codes "witness_event_id") _ _ _ refl refl

    made-valid : DecodesBase64 crypto → verify_receipt_v02 crypto made public_key ≡ ok valid_receipt
    made-valid decodes = v02_receipt-valid crypto private_key public_key now e extra paired decodes

    pub v02-Holds :
        (schemas : Schemas) (events : List WitnessEvent)
        → DecodesBase64 crypto
        → extra.execution_lost ≡ false
        → event_by_id e.event_id events ≡ some e
        → ReadsBack schemas (v02 made)
        → Holds (verify_package_receipt crypto schemas (obj made) events (some public_key))
    unfolding verify_package_receipt for_verification option_eq text_eq
    v02-Holds schemas events decodes ended found (t, (reads, (id, (intent, (decision, result))))) =
        let same_id = str-injective _ _ (sym id ∙ made-event) in
        let by_receipt = ap (λ i. event_by_id i events) same_id ∙ found in
        let same_result =
          nullable-injective t.execution_result_hash _ (sym result ∙ made-result)
          ∙ ap (λ lost. exec_digest crypto private_key public_key lost e) ended in
        let crossed =
          cross_check-valid crypto schemas e t (str-injective _ _ (sym intent ∙ made-intent))
            (str-injective _ _ (sym decision ∙ made-decision)) same_result in
        (valid_receipt, (rw (made-version, reads, by_receipt, made-valid decodes) crossed, refl))

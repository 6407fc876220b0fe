-- ===== src/Provenance/Shape.antt =====
-- Which JSON values are read as an envelope.
use witseal.Prelude.{
  ◌≡◌, ◌≢◌, ◌↔◌, refl, sym, ap, subst, ◌∙◌, Bool, true, false, not, List, [], ◌∷◌, Result, ok, err,
  ◌>>=◌, if◌then◌else◌,
}
use witseal.Prelude.Text.{Text, codes}
use witseal.Json.{
  Value, null, undefined, bool, num, str, arr, obj, unsupported, Items, nil, cons, Fields,
  get_field,
}
use witseal.Provenance.{
  DsseEnvelope, property, is_object, text_of, items_of, signature_of, signatures_of, as_envelope,
}

-- A value is an object with this property.
abbrev pub Has : Text → Value → Value → Type 0
Has k value v = (fs : Fields) × (value ≡ obj fs) × (get_field k fs ≡ v)

pub bind-ok :
    {A B : Type 0} (r : Result A) (f : A → Result B) (b : B)
    → ((r >>= f) ≡ ok b) ↔ ((a : A) × (r ≡ ok a) × (f a ≡ ok b))
bind-ok (ok a) f b =
    ((λ h. (a, refl, h)), (λ (c, e, h). subst (λ x. f x ≡ ok b) {x = c} {y = a} (cc) h))
bind-ok (err t) f b = ((λ h. cc), (λ (c, e, h). cc))

text_of-ok : (e : Text) (v : Value) (t : Text) → (text_of e v ≡ ok t) ↔ (v ≡ str t)
text_of-ok e (str s) t = ((λ h. cc), (λ h. cc))
text_of-ok e null t = ((λ h. cc), (λ h. cc))
text_of-ok e undefined t = ((λ h. cc), (λ h. cc))
text_of-ok e (bool b) t = ((λ h. cc), (λ h. cc))
text_of-ok e (num n) t = ((λ h. cc), (λ h. cc))
text_of-ok e (arr vs) t = ((λ h. cc), (λ h. cc))
text_of-ok e (obj fs) t = ((λ h. cc), (λ h. cc))
text_of-ok e (unsupported s) t = ((λ h. cc), (λ h. cc))

items_of-ok : (e : Text) (v : Value) (vs : Items) → (items_of e v ≡ ok vs) ↔ (v ≡ arr vs)
items_of-ok e (arr ws) vs = ((λ h. cc), (λ h. cc))
items_of-ok e (str s) vs = ((λ h. cc), (λ h. cc))
items_of-ok e null vs = ((λ h. cc), (λ h. cc))
items_of-ok e undefined vs = ((λ h. cc), (λ h. cc))
items_of-ok e (bool b) vs = ((λ h. cc), (λ h. cc))
items_of-ok e (num n) vs = ((λ h. cc), (λ h. cc))
items_of-ok e (obj fs) vs = ((λ h. cc), (λ h. cc))
items_of-ok e (unsupported s) vs = ((λ h. cc), (λ h. cc))

-- A property that is there is one of an object.
pub property-Has :
    (k : Text) (value v : Value) → v ≢ undefined → property k value ≡ v → Has k value v
property-Has k (obj fs) v n h = (fs, refl, h)
property-Has k (arr vs) v n h = absurd (n (sym h))
property-Has k (str s) v n h = absurd (n (sym h))
property-Has k null v n h = absurd (n (sym h))
property-Has k undefined v n h = absurd (n (sym h))
property-Has k (bool b) v n h = absurd (n (sym h))
property-Has k (num m) v n h = absurd (n (sym h))
property-Has k (unsupported s) v n h = absurd (n (sym h))

pub Has-property : (k : Text) (value v : Value) → Has k value v → property k value ≡ v
Has-property k value v (fs, is, h) = rw is h

pub Has-is_object : (k : Text) (value v : Value) → Has k value v → is_object value ≡ true
Has-is_object k value v (fs, is, h) = rw is refl

pub text-Has :
    (e k : Text) (value : Value) (t : Text)
    → (text_of e (property k value) ≡ ok t) ↔ Has k value (str t)
text-Has e k value t = (
  (λ h. property-Has k value (str t) (λ u. cc) ((text_of-ok e (property k value) t).0 h)),
  (λ h. (text_of-ok e (property k value) t).1 (Has-property k value (str t) h)),
)

pub items-Has :
    (e k : Text) (value : Value) (vs : Items)
    → (items_of e (property k value) ≡ ok vs) ↔ Has k value (arr vs)
items-Has e k value vs = (
  (λ h. property-Has k value (arr vs) (λ u. cc) ((items_of-ok e (property k value) vs).0 h)),
  (λ h. (items_of-ok e (property k value) vs).1 (Has-property k value (arr vs) h)),
)

-- One entry for each: an object with this text as its `sig`.
abbrev pub AreSignatures : Items → List Text → Type 0
AreSignatures nil [] = Unit
AreSignatures (cons v vs) (t ∷ ts) = Has (codes "sig") v (str t) × AreSignatures vs ts
AreSignatures _ _ = ⊥

guarded :
    {A : Type 0} (b : Bool) (e : Text) (r : Result A) (a : A)
    → ((if b then r else err e) ≡ ok a) ↔ ((b ≡ true) × (r ≡ ok a))
guarded true e r a = ((λ h. (refl, h)), (λ (_, h). h))
guarded false e r a = ((λ h. cc), (λ (h, _). cc))

pub guarded-not :
    {A : Type 0} (b : Bool) (e : Text) (r : Result A) (a : A)
    → ((if not b then err e else r) ≡ ok a) ↔ ((b ≡ true) × (r ≡ ok a))
guarded-not true e r a = ((λ h. (refl, h)), (λ (_, h). h))
guarded-not false e r a = ((λ h. cc), (λ (h, _). cc))

signature_iff : (v : Value) (t : Text) → (signature_of v ≡ ok t) ↔ Has (codes "sig") v (str t)
signature_iff v t =
    let guard = guarded (is_object v) _ (text_of _ (property (codes "sig") v)) t in
    let has = text-Has _ (codes "sig") v t in
    ((λ h. has.0 (guard.0 h).1), (λ h. guard.1 (Has-is_object (codes "sig") v (str t) h, has.1 h)))

pub cons-ok {ℓ} :
    {A : Type ℓ} (a b : A) (xs ys : List A) → ok (a ∷ xs) ≡ ok (b ∷ ys) → (a ≡ b) × (xs ≡ ys)
cons-ok a b xs ys h = (cc, cc)

signatures_iff : (vs : Items) (ts : List Text) → (signatures_of vs ≡ ok ts) ↔ AreSignatures vs ts
signatures_iff nil [] = ((λ h. tt), (λ h. refl))
signatures_iff nil (t ∷ ts) = ((λ h. cc), (λ h. absurd h))
signatures_iff (cons v vs) [] = (
  (λ h.
      let (sig, _, more) = (bind-ok (signature_of v) _ []).0 h in
      let (sigs, _, last) = (bind-ok (signatures_of vs) _ []).0 more in cc last),
  (λ h. absurd h),
)
signatures_iff (cons v vs) (t ∷ ts) = (
  (λ h.
      let (sig, one, more) = (bind-ok (signature_of v) _ (t ∷ ts)).0 h in
      let (sigs, rest, last) = (bind-ok (signatures_of vs) _ (t ∷ ts)).0 more in
      let (head, tail) = cons-ok sig t sigs ts last in
      ((signature_iff v t).0 (one ∙ ap ok head), (signatures_iff vs ts).0 (rest ∙ ap ok tail))),
  (λ (one, rest). (bind-ok (signature_of v) _ (t ∷ ts)).1 (
    t,
    (signature_iff v t).1 one,
    (bind-ok (signatures_of vs) _ (t ∷ ts)).1 (ts, (signatures_iff vs ts).1 rest, refl),
  )),
)

-- The value is an object with a text as its `payloadType` and its `payload`, and an array of signatures.
abbrev pub IsEnvelope : Value → DsseEnvelope → Type 0
IsEnvelope value envelope =
    Has (codes "payloadType") value (str envelope.payload_type)
    × Has (codes "payload") value (str envelope.payload)
    × ((entries : Items) × Has (codes "signatures") value (arr entries)
        × AreSignatures entries envelope.signatures)

pub as_envelope_iff :
    (value : Value) (envelope : DsseEnvelope)
    → (as_envelope value ≡ ok envelope) ↔ IsEnvelope value envelope
unfolding as_envelope
as_envelope_iff value envelope = (
  (λ h.
      let (_, read) = (guarded-not (is_object value) _ _ envelope).0 h in
      let (type, has_type, behind_type) = (bind-ok _ _ envelope).0 read in
      let (payload, has_payload, behind_payload) = (bind-ok _ _ envelope).0 behind_type in
      let (entries, has_entries, behind_entries) = (bind-ok _ _ envelope).0 behind_payload in
      let (sigs, has_sigs, built) = (bind-ok _ _ envelope).0 behind_entries in
      let made : record { payload_type = type; payload = payload; signatures = sigs } ≡ envelope =
        cc built in
      subst (IsEnvelope value) made (
        (text-Has _ (codes "payloadType") value type).0 has_type,
        (text-Has _ (codes "payload") value payload).0 has_payload,
        (
          entries,
          (items-Has _ (codes "signatures") value entries).0 has_entries,
          (signatures_iff entries sigs).0 has_sigs,
        ),
      )),
  (λ (type, payload, (entries, has_entries, sigs)). (guarded-not (is_object value) _ _ envelope).1 (
    Has-is_object (codes "payloadType") value (str envelope.payload_type) type,
    (bind-ok _ _ envelope).1 (
      envelope.payload_type,
      (text-Has _ (codes "payloadType") value envelope.payload_type).1 type,
      (bind-ok _ _ envelope).1 (
        envelope.payload,
        (text-Has _ (codes "payload") value envelope.payload).1 payload,
        (bind-ok _ _ envelope).1 (
          entries,
          (items-Has _ (codes "signatures") value entries).1 has_entries,
          (bind-ok _ _ envelope).1 (envelope.signatures, (signatures_iff entries _).1 sigs, refl),
        ),
      ),
    ),
  )),
)

-- ===== src/Json/Serializable.antt =====
-- For which values `canonicalize` returns.
use witseal.Prelude.{
  Bool, List, [], ◌∷◌, ◌≡◌, ◌↔◌, refl, Result, ok, err, ◌>>=◌, All, Bool-cases, inl, inr,
}
use witseal.Prelude.Text.{Text}
use witseal.Json.{
  Number, integer, decimal, non_finite, Value, null, undefined, bool, num, str, arr, obj,
  unsupported, Items, nil, cons, Fields, end, field,
}
use witseal.Json.Stringify
use witseal.Json.Stringify.{
  IsPlain, ArePlain, HasPlain, plain_null, plain_bool, plain_int, plain_str, plain_arr, plain_obj,
  no_item, no_field, with_field,
}
use witseal.Json.Canonical.{
  Member, text_ltb, insert_member, sort_members, member_texts, canonicalize, canonical_items,
  canonical_members, member_text, array_text, object_text,
}

abbrev pub IsOk {ℓ} : {A : Type ℓ} → Result A → Type 0
IsOk (ok a) = Unit
IsOk (err e) = ⊥

abbrev pub IsFinite : Number → Type 0
IsFinite non_finite = ⊥
IsFinite n = Unit

-- No NaN or infinity, no function, symbol or bigint, and undefined only as a property.
mutual
  pub data IsSerializable : Value → Type 0 where
    of_null : IsSerializable null
    of_bool : (b : Bool) → IsSerializable (bool b)
    of_num : (n : Number) → IsFinite n → IsSerializable (num n)
    of_str : (s : Text) → IsSerializable (str s)
    of_arr : {vs : Items} → AreSerializable vs → IsSerializable (arr vs)
    of_obj : {fs : Fields} → HasSerializable fs → IsSerializable (obj fs)

  pub data AreSerializable : Items → Type 0 where
    no_items : AreSerializable nil
    item :
        {v : Value} {vs : Items}
        → IsSerializable v
        → AreSerializable vs
        → AreSerializable (cons v vs)

  pub data HasSerializable : Fields → Type 0 where
    no_fields : HasSerializable end
    absent : {k : Text} {fs : Fields} → HasSerializable fs → HasSerializable (field k undefined fs)
    present :
        {k : Text} {v : Value} {fs : Fields}
        → IsSerializable v
        → HasSerializable fs
        → HasSerializable (field k v fs)

abbrev MemberOk : Member → Type 0
MemberOk m = IsOk m.1

-- A step that cannot throw changes nothing.
IsOk-then {ℓ κ} :
    {A : Type ℓ} {B : Type κ} (m : Result A) (f : A → B) → IsOk (m >>= λ a. ok (f a)) ↔ IsOk m
IsOk-then (ok a) f = (λ h. h, λ h. h)
IsOk-then (err e) f = (λ h. h, λ h. h)

member_texts-IsOk : (ms : List Member) → IsOk (member_texts ms) ↔ All MemberOk ms
unfolding member_texts
member_texts-IsOk [] = (λ h. h, λ h. h)
member_texts-IsOk ((k, err e) ∷ ms) = (λ h. absurd h, λ h. absurd h.0)
member_texts-IsOk ((k, ok t) ∷ ms) =
    let (to, from) = member_texts-IsOk ms in
    let (peel, wrap) = IsOk-then (member_texts ms) (λ ts. member_text k t ∷ ts) in
    (λ h. (tt, to (peel h)), λ h. wrap (from h.1))

insert_member-All :
    (m : Member) (ms : List Member)
    → All MemberOk (insert_member m ms) ↔ (MemberOk m × All MemberOk ms)
unfolding insert_member
insert_member-All m [] = (λ h. h, λ h. h)
insert_member-All m (n ∷ ms) =
    let (to, from) = insert_member-All m ms in
    elim (Bool-cases (text_ltb n.0 m.0)) [
      | inl below ↦ rw below (λ h. ((to h.1).0, (h.0, (to h.1).1)), λ h. (h.1.0, from (h.0, h.1.1)))
      | inr above ↦ rw above (λ h. h, λ h. h)
    ]

sort_members-All : (ms : List Member) → All MemberOk (sort_members ms) ↔ All MemberOk ms
unfolding sort_members
sort_members-All [] = (λ h. h, λ h. h)
sort_members-All (m ∷ ms) =
    let (to, from) = sort_members-All ms in
    let (out, in_) = insert_member-All m (sort_members ms) in
    (λ h. ((out h).0, to (out h).1), λ h. in_ (h.0, from h.1))

obj-IsOk : (fs : Fields) → IsOk (canonicalize (obj fs)) ↔ All MemberOk (canonical_members fs)
unfolding canonicalize
obj-IsOk fs =
    let (peel, wrap) = IsOk-then (member_texts (sort_members (canonical_members fs))) object_text in
    let (to, from) = member_texts-IsOk (sort_members (canonical_members fs)) in
    let (unsort, resort) = sort_members-All (canonical_members fs) in
    (λ h. unsort (to (peel h)), λ h. wrap (from (resort h)))

arr-IsOk : (vs : Items) → IsOk (canonicalize (arr vs)) ↔ IsOk (canonical_items vs)
unfolding canonicalize
arr-IsOk vs = IsOk-then (canonical_items vs) array_text

-- `r` and `q` both return if the array of the two does.
IsOk-both :
    (r : Result Text) (q : Result (List Text))
    → IsOk (r >>= λ t. q >>= λ ts. ok (t ∷ ts)) ↔ (IsOk r × IsOk q)
IsOk-both (ok t) (ok ts) = (λ h. (h, h), λ h. h.0)
IsOk-both (ok t) (err e) = (λ h. absurd h, λ h. h.1)
IsOk-both (err e) q = (λ h. absurd h, λ h. h.0)

field-All :
    (k : Text) (v : Value) (fs : Fields)
    → MemberOk (k, canonicalize v)
    → All MemberOk (canonical_members fs)
    → All MemberOk (canonical_members (field k v fs))
unfolding canonical_members
field-All k undefined fs h t = t
field-All k null fs h t = (h, t)
field-All k v fs h t = (h, t)

mutual
  unfolding canonicalize

  returns : {v : Value} → IsSerializable v → IsOk (canonicalize v)
  returns of_null = tt
  returns (of_bool b) = tt
  returns (of_num (integer n) h) = tt
  returns (of_num (decimal t) h) = tt
  returns (of_num non_finite h) = h
  returns (of_str s) = tt
  returns (of_arr {vs} h) = (arr-IsOk vs).1 (items_return h)
  returns (of_obj {fs} h) = (obj-IsOk fs).1 (fields_return h)

  items_return : {vs : Items} → AreSerializable vs → IsOk (canonical_items vs)
  items_return no_items = tt
  items_return (item {v} {vs} h t) =
      (IsOk-both (canonicalize v) (canonical_items vs)).1 (returns h, items_return t)

  fields_return : {fs : Fields} → HasSerializable fs → All MemberOk (canonical_members fs)
  fields_return no_fields = tt
  fields_return (absent t) = fields_return t
  fields_return (present {k} {v} {fs} h t) = field-All k v fs (returns h) (fields_return t)

mutual
  unfolding canonicalize

  needs : (v : Value) → IsOk (canonicalize v) → IsSerializable v
  needs null h = of_null
  needs undefined h = absurd h
  needs (bool b) h = of_bool b
  needs (num (integer n)) h = of_num (integer n) tt
  needs (num (decimal t)) h = of_num (decimal t) tt
  needs (num non_finite) h = absurd h
  needs (str s) h = of_str s
  needs (arr vs) h = of_arr (items_need vs ((arr-IsOk vs).0 h))
  needs (obj fs) h = of_obj (fields_need fs ((obj-IsOk fs).0 h))
  needs (unsupported t) h = absurd h

  items_need : (vs : Items) → IsOk (canonical_items vs) → AreSerializable vs
  items_need nil h = no_items
  items_need (cons v vs) h =
      let both = (IsOk-both (canonicalize v) (canonical_items vs)).0 h in
      item (needs v both.0) (items_need vs both.1)

  fields_need : (fs : Fields) → All MemberOk (canonical_members fs) → HasSerializable fs
  fields_need end h = no_fields
  fields_need (field k undefined fs) h = absent (fields_need fs h)
  fields_need (field k null fs) h = present of_null (fields_need fs h.1)
  fields_need (field k v fs) h = present (needs v h.0) (fields_need fs h.1)

-- `canonicalize` returns a text exactly for the serializable values; for any other it throws.
pub canonicalize-IsOk : (v : Value) → IsOk (canonicalize v) ↔ IsSerializable v
canonicalize-IsOk v = (needs v, returns)

pub IsOk-eq {ℓ} : {A : Type ℓ} (r : Result A) → IsOk r → (a : A) × (r ≡ ok a)
IsOk-eq (ok a) h = (a, refl)
IsOk-eq (err e) h = absurd h

mutual
  plain-IsSerializable : {v : Value} → IsPlain v → IsSerializable v
  plain-IsSerializable plain_null = of_null
  plain-IsSerializable (plain_bool b) = of_bool b
  plain-IsSerializable (plain_int n) = of_num (integer n) tt
  plain-IsSerializable (plain_str s) = of_str s
  plain-IsSerializable (plain_arr h) = of_arr (plain_items h)
  plain-IsSerializable (plain_obj h) = of_obj (plain_fields h)

  plain_items : {vs : Items} → ArePlain vs → AreSerializable vs
  plain_items no_item = no_items
  plain_items (Stringify.item h t) = item (plain-IsSerializable h) (plain_items t)

  plain_fields : {fs : Fields} → HasPlain fs → HasSerializable fs
  plain_fields no_field = no_fields
  plain_fields (with_field k h t) = present (plain-IsSerializable h) (plain_fields t)

pub IsPlain-IsSerializable : (v : Value) → IsPlain v → IsSerializable v
IsPlain-IsSerializable v h = plain-IsSerializable h

-- ===== src/Json/Order.antt =====
-- The canonical text depends on the content of a value alone: not on the order in which an
-- object's properties were added, nor on its undefined properties, at any depth.
use witseal.Prelude.{true, false, List, [], ◌∷◌, ◌≡◌, ◌≢◌, refl, ap, ◌∙◌, arith}
use witseal.Prelude.Text.{Text}
use witseal.Json.{Value, undefined, null, arr, obj, Items, nil, cons, Fields, field}
use witseal.Json.Canonical.{
  Member, text_ltb, insert_member, sort_members, canonicalize, canonical_items, canonical_members,
}

text_ltb_cotrans : (s t u : Text) → text_ltb s u ≡ true → text_ltb s t ≡ false → text_ltb t u ≡ true
unfolding text_ltb
text_ltb_cotrans s t [] h k = cc
text_ltb_cotrans [] [] (c ∷ u) h k = refl
text_ltb_cotrans [] (b ∷ t) (c ∷ u) h k = cc
text_ltb_cotrans (a ∷ s) [] (c ∷ u) h k = refl
text_ltb_cotrans (a ∷ s) (b ∷ t) (c ∷ u) h k = ground (arith, text_ltb_cotrans s t u)

text_ltb_asym : (s t : Text) → text_ltb s t ≡ true → text_ltb t s ≡ false
unfolding text_ltb
text_ltb_asym s [] h = cc
text_ltb_asym [] (b ∷ t) h = refl
text_ltb_asym (a ∷ s) (b ∷ t) h = ground (arith, text_ltb_asym s t)

text_ltb_connex : (s t : Text) → text_ltb s t ≡ false → text_ltb t s ≡ false → s ≡ t
unfolding text_ltb
text_ltb_connex [] [] h k = refl
text_ltb_connex [] (b ∷ t) h k = cc
text_ltb_connex (a ∷ s) [] h k = cc
text_ltb_connex (a ∷ s) (b ∷ t) h k = ground (arith, text_ltb_connex s t)

insert_comm :
    (m n : Member) (ms : List Member)
    → m.0 ≢ n.0
    → insert_member m (insert_member n ms) ≡ insert_member n (insert_member m ms)
unfolding insert_member
insert_comm m n [] h = ground (arith, text_ltb_asym n.0 m.0, text_ltb_connex m.0 n.0)
insert_comm m n (x ∷ ms) h = ground (
  arith,
  insert_comm m n ms,
  text_ltb_asym n.0 m.0,
  text_ltb_asym m.0 n.0,
  text_ltb_connex m.0 n.0,
  text_ltb_cotrans x.0 n.0 m.0,
  text_ltb_cotrans x.0 m.0 n.0,
)

mutual
  -- Two values with the same JSON content.
  pub data SameValue : Value → Value → Type 0 where
    same : (v : Value) → SameValue v v
    array : {xs ys : Items} → SameItems xs ys → SameValue (arr xs) (arr ys)
    object : {fs gs : Fields} → SameFields fs gs → SameValue (obj fs) (obj gs)

  pub data SameItems : Items → Items → Type 0 where
    empty : SameItems nil nil
    each :
        {v w : Value} {xs ys : Items}
        → SameValue v w
        → SameItems xs ys
        → SameItems (cons v xs) (cons w ys)

  pub data SameFields : Fields → Fields → Type 0 where
    rest : (fs : Fields) → SameFields fs fs
    keep :
        (k : Text) {v w : Value} {fs gs : Fields}
        → SameValue v w
        → SameFields fs gs
        → SameFields (field k v fs) (field k w gs)
    skip : (k : Text) {fs gs : Fields} → SameFields fs gs → SameFields (field k undefined fs) gs
    swap :
        (j k : Text) (v w : Value) {fs : Fields}
        → j ≢ k
        → SameFields (field j v (field k w fs)) (field k w (field j v fs))
    trans : {fs gs hs : Fields} → SameFields fs gs → SameFields gs hs → SameFields fs hs

abbrev pub sorted : Fields → List Member
sorted fs = sort_members (canonical_members fs)

module _ (k : Text) where
  pub sorted_field :
      (v : Value) (fs gs : Fields)
      → sorted fs ≡ sorted gs
      → sorted (field k v fs) ≡ sorted (field k v gs)
  unfolding sort_members canonical_members
  sorted_field undefined fs gs h = h
  sorted_field null fs gs h = ap (insert_member _) h
  sorted_field v fs gs h = ap (insert_member _) h

pub sorted_swap :
    (j k : Text) (v w : Value) (fs : Fields)
    → j ≢ k
    → sorted (field j v (field k w fs)) ≡ sorted (field k w (field j v fs))
unfolding sort_members canonical_members
sorted_swap j k undefined undefined fs h = refl
sorted_swap j k undefined w fs h = refl
sorted_swap j k v undefined fs h = refl
sorted_swap j k v w fs h = insert_comm (j, canonicalize v) (k, canonicalize w) (sorted fs) h

mutual
  unfolding canonicalize sort_members

  canonicalize_same : {v w : Value} → SameValue v w → canonicalize v ≡ canonicalize w
  canonicalize_same (same v) = refl
  canonicalize_same (array h) = rw (items_same h)
  canonicalize_same (object h) = rw (fields_same h)

  items_same : {xs ys : Items} → SameItems xs ys → canonical_items xs ≡ canonical_items ys
  items_same empty = refl
  items_same (each h t) = rw (canonicalize_same h, items_same t)

  fields_same : {fs gs : Fields} → SameFields fs gs → sorted fs ≡ sorted gs
  fields_same (rest fs) = refl
  fields_same (keep k {fs} {gs} (same v) t) = sorted_field k v fs gs (fields_same t)
  fields_same (keep k (array h) t) = rw (items_same h, fields_same t)
  fields_same (keep k (object h) t) = rw (fields_same h, fields_same t)
  fields_same (skip k t) = fields_same t
  fields_same (swap j k v w {fs} h) = sorted_swap j k v w fs h
  fields_same (trans h t) = fields_same h ∙ fields_same t

-- Two values with the same content, whatever the order of properties, have one canonical text.
pub canonicalize-SameValue : (v w : Value) → SameValue v w → canonicalize v ≡ canonicalize w
canonicalize-SameValue v w h = canonicalize_same h

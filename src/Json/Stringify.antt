-- ===== src/Json/Stringify.antt =====
-- `JSON.stringify` on serializable values: the properties in their own order, undefined ones left
-- out. A line of the log is such a text, so it holds no line feed and is not blank.
use witseal.Prelude.{ℕ, suc, Bool, true, false, List, [], ◌∷◌, ◌++◌, arith, All, All-append}
use witseal.Prelude.Text.{Text, codes, join}
use witseal.Json.{
  Number, integer, decimal, non_finite, ℤ, pos, negsuc, Value, null, undefined, bool, num, str, arr,
  obj, unsupported, Items, nil, cons, Fields, end, field,
}
use witseal.Json.Decimal.{integer_text, digits, digits-IsDigit, IsDigit}
use witseal.Json.Quote.{quote, quote-NotLineFeed, NotLineFeed}
use witseal.Json.Canonical.{array_text, object_text, member_text, bool_text}

-- A non-finite number is written as null.
unfoldable pub number_text : Number → Text
unfolding integer_text
number_text (integer n) = integer_text n
number_text (decimal t) = t
number_text non_finite = codes "null"

-- In an array what has no JSON text is written as null.
unfoldable mutual
  unfolding number_text quote join

  pub stringify : Value → Text
  stringify null = codes "null"
  stringify undefined = codes "null"
  stringify (bool b) = bool_text b
  stringify (num n) = number_text n
  stringify (str s) = quote s
  stringify (arr vs) = array_text (stringify_items vs)
  stringify (obj fs) = object_text (stringify_fields fs)
  stringify (unsupported t) = codes "null"

  pub stringify_items : Items → List Text
  stringify_items nil = []
  stringify_items (cons v vs) = stringify v ∷ stringify_items vs

  pub stringify_fields : Fields → List Text
  stringify_fields end = []
  stringify_fields (field k undefined fs) = stringify_fields fs
  stringify_fields (field k (unsupported t) fs) = stringify_fields fs
  stringify_fields (field k v fs) = member_text k (stringify v) ∷ stringify_fields fs

-- The text of a number that is no safe integer has no line feed.
abbrev pub OneLine : Text → Type 0
OneLine s = All NotLineFeed s

mutual
  pub data IsPlain : Value → Type 0 where
    plain_null : IsPlain null
    plain_bool : (b : Bool) → IsPlain (bool b)
    plain_int : (n : ℤ) → IsPlain (num (integer n))
    plain_str : (s : Text) → IsPlain (str s)
    plain_arr : {vs : Items} → ArePlain vs → IsPlain (arr vs)
    plain_obj : {fs : Fields} → HasPlain fs → IsPlain (obj fs)

  pub data ArePlain : Items → Type 0 where
    no_item : ArePlain nil
    item : {v : Value} {vs : Items} → IsPlain v → ArePlain vs → ArePlain (cons v vs)

  pub data HasPlain : Fields → Type 0 where
    no_field : HasPlain end
    with_field :
        (k : Text) {v : Value} {fs : Fields} → IsPlain v → HasPlain fs → HasPlain (field k v fs)

join-OneLine : (ts : List Text) → All OneLine ts → OneLine (join (codes ",") ts)
unfolding join
join-OneLine [] h = tt
join-OneLine (t ∷ []) h = h.0
join-OneLine (t ∷ u ∷ ts) h =
    All-append NotLineFeed t _ h.0 (omega arith, join-OneLine (u ∷ ts) h.1)

bracket-OneLine :
    (a b : ℕ) (t : Text) → NotLineFeed a → NotLineFeed b → OneLine t → OneLine (a ∷ (t ++ b ∷ []))
bracket-OneLine a b t p q h = (p, All-append NotLineFeed t _ h (q, tt))

digits-OneLine : (t : Text) → All IsDigit t → OneLine t
digits-OneLine [] h = tt
digits-OneLine (c ∷ t) h = (omega arith, digits-OneLine t h.1)

integer-OneLine : (n : ℤ) → OneLine (integer_text n)
unfolding integer_text
integer-OneLine (pos n) = digits-OneLine (digits n) (digits-IsDigit n)
integer-OneLine (negsuc n) = (omega arith, digits-OneLine (digits (suc n)) (digits-IsDigit (suc n)))

member-OneLine : (k t : Text) → OneLine t → OneLine (member_text k t)
member-OneLine k t h = All-append NotLineFeed (quote k) _ (quote-NotLineFeed k) (omega arith, h)

fields-OneLine :
    (k : Text) (v : Value) (fs : Fields)
    → OneLine (stringify v)
    → All OneLine (stringify_fields fs)
    → All OneLine (stringify_fields (field k v fs))
unfolding stringify_fields
fields-OneLine k undefined fs h t = t
fields-OneLine k (unsupported s) fs h t = t
fields-OneLine k v fs h t = (member-OneLine k (stringify v) h, t)

mutual
  unfolding stringify number_text

  one_line : {v : Value} → IsPlain v → OneLine (stringify v)
  one_line plain_null = omega arith
  one_line (plain_bool true) = omega arith
  one_line (plain_bool false) = omega arith
  one_line (plain_int n) = integer-OneLine n
  one_line (plain_str s) = quote-NotLineFeed s
  one_line (plain_arr {vs} h) =
      bracket-OneLine b'[' b']' _ (omega arith) (omega arith) (join-OneLine _ (items-OneLine h))
  one_line (plain_obj {fs} h) =
      bracket-OneLine b'{' b'}' _ (omega arith) (omega arith) (join-OneLine _ (fields-OneLine' h))

  items-OneLine : {vs : Items} → ArePlain vs → All OneLine (stringify_items vs)
  items-OneLine no_item = tt
  items-OneLine (item h t) = (one_line h, items-OneLine t)

  fields-OneLine' : {fs : Fields} → HasPlain fs → All OneLine (stringify_fields fs)
  fields-OneLine' no_field = tt
  fields-OneLine' (with_field k {v} {fs} h t) =
      fields-OneLine k v fs (one_line h) (fields-OneLine' t)

-- The JSON text of a plain value, of integers, strings, Booleans, null, arrays and objects, has no
-- line feed.
pub stringify-OneLine : (v : Value) → IsPlain v → OneLine (stringify v)
stringify-OneLine v h = one_line h

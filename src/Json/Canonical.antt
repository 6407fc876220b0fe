-- ===== src/Json/Canonical.antt =====
-- `canonicalize` of src/integrity/hash-chain.ts (RFC 8785), and `JSON.stringify`.
use witseal.Prelude.{
  Bool, true, false, List, [], ◌∷◌, ◌++◌, ◌≡◌, refl, ltb, ◌==◌, Result, ok, err, ◌>>=◌,
  if◌then◌else◌, ◌&&◌, ◌||◌,
}
use witseal.Prelude.Text.{Text, codes, join}
use witseal.Json.{
  Number, integer, decimal, non_finite, Value, null, undefined, bool, num, str, arr, obj,
  unsupported, Items, nil, cons, Fields, end, field, nat,
}
use witseal.Json.Decimal.{integer_text}
use witseal.Json.Quote.{quote}

-- A text is below another by its first different unit, or as a proper prefix.
unfoldable pub text_ltb : Text → Text → Bool
text_ltb s [] = false
text_ltb [] (b ∷ t) = true
text_ltb (a ∷ s) (b ∷ t) = ltb a b || (a == b && text_ltb s t)

-- A property's name with its canonical text, or with the error that computing it throws.
abbrev pub Member : Type 0
Member = Text × Result Text

-- `keys.sort()`, by insertion
unfoldable pub insert_member : Member → List Member → List Member
unfolding text_ltb
insert_member m [] = m ∷ []
insert_member m (n ∷ ms) =
    let rest = insert_member m ms in if text_ltb n.0 m.0 then n ∷ rest else m ∷ n ∷ ms

unfoldable pub sort_members : List Member → List Member
unfolding insert_member
sort_members [] = []
sort_members (m ∷ ms) = insert_member m (sort_members ms)

abbrev pub member_text : Text → Text → Text
member_text k t = quote k ++ b':' ∷ t

-- `.map((k) => JSON.stringify(k) + ':' + canonicalize(obj[k]))`
unfoldable pub member_texts : List Member → Result (List Text)
member_texts [] = ok []
member_texts ((k, r) ∷ ms) = do t ← r; ts ← member_texts ms; ok (member_text k t ∷ ts)

abbrev pub array_text : List Text → Text
array_text ts = b'[' ∷ (join (codes ",") ts ++ b']' ∷ [])

abbrev pub object_text : List Text → Text
object_text ts = b'{' ∷ (join (codes ",") ts ++ b'}' ∷ [])

abbrev pub unsupported_type : Text → Text
unsupported_type t = codes "canonicalize: unsupported value type " ++ t

abbrev pub bool_text : Bool → Text
bool_text b = if b then codes "true" else codes "false"

unfoldable pub canonicalize_number : Number → Result Text
unfolding integer_text
canonicalize_number (integer n) = ok (integer_text n)
canonicalize_number (decimal t) = ok t
canonicalize_number non_finite = err (codes "canonicalize: non-finite number cannot be serialized")

unfoldable mutual
  unfolding canonicalize_number quote sort_members member_texts join

  pub canonicalize : Value → Result Text
  canonicalize null = ok (codes "null")
  canonicalize undefined = err (unsupported_type (codes "undefined"))
  canonicalize (bool b) = ok (bool_text b)
  canonicalize (num n) = canonicalize_number n
  canonicalize (str s) = ok (quote s)
  canonicalize (arr vs) = canonical_items vs >>= λ ts. ok (array_text ts)
  canonicalize (obj fs) =
      member_texts (sort_members (canonical_members fs)) >>= λ ts. ok (object_text ts)
  canonicalize (unsupported t) = err (unsupported_type t)

  pub canonical_items : Items → Result (List Text)
  canonical_items nil = ok []
  canonical_items (cons v vs) = canonicalize v >>= λ t. canonical_items vs >>= λ ts. ok (t ∷ ts)

  -- `Object.keys(obj).filter((k) => obj[k] !== undefined)`
  pub canonical_members : Fields → List Member
  canonical_members end = []
  canonical_members (field k undefined fs) = canonical_members fs
  canonical_members (field k v fs) = (k, canonicalize v) ∷ canonical_members fs

canonicalize_runs :
    canonicalize (
      obj (
        field (codes "b") (nat 12) (
          field
            (codes "c")
            undefined
            (field (codes "a") (arr (cons null (cons (bool true) nil))) end))))
    ≡ ok (codes "{\"a\":[null,true],\"b\":12}")
unfolding canonicalize
canonicalize_runs = refl

-- ===== src/Json.antt =====
-- JavaScript values as src/integrity/hash-chain.ts canonicalizes them and `JSON.stringify` writes
-- them. An object is its own enumerable properties in the order in which they were added.
pub mod Decimal
pub mod Quote
pub mod Canonical
pub mod Order
pub mod Objects
pub mod Serializable
pub mod Stringify
pub mod Tests
use witseal.Prelude.{ℕ, Bool, List, [], ◌∷◌, Option, none, some, if◌then◌else◌}
use witseal.Prelude.Text.{Text, text_eq}

-- `negsuc n` is -(n + 1).
pub data ℤ : Type 0 where
  pos : ℕ → ℤ
  negsuc : ℕ → ℤ

-- A number: an integer that a double holds exactly and `String` prints in digits, any other finite
-- number by the text that `String` gives it, or NaN and the infinities.
pub data Number : Type 0 where
  integer : ℤ → Number
  decimal : Text → Number
  non_finite : Number

-- `unsupported` is a function, symbol or bigint, by its `typeof`.
mutual
  pub data Value : Type 0 where
    null undefined : Value
    bool : Bool → Value
    num : Number → Value
    str : Text → Value
    arr : Items → Value
    obj : Fields → Value
    unsupported : Text → Value

  pub data Items : Type 0 where
    nil : Items
    cons : Value → Items → Items

  pub data Fields : Type 0 where
    end : Fields
    field : Text → Value → Fields → Fields

abbrev pub items : List Value → Items
items [] = nil
items (v ∷ vs) = cons v (items vs)

abbrev pub nat : ℕ → Value
nat n = num (integer (pos n))

-- `x | null`, by the value of `x`
abbrev pub nullable {ℓ} : {A : Type ℓ} → (A → Value) → Option A → Value
nullable f none = null
nullable f (some a) = f a

-- `...(x !== undefined ? { k: x } : {})`
abbrev pub optional {ℓ} : {A : Type ℓ} → Text → (A → Value) → Option A → Fields → Fields
optional k f none rest = rest
optional k f (some a) rest = field k (f a) rest

-- `o.k`: undefined where the object has no such property
unfoldable pub get_field : Text → Fields → Value
get_field k end = undefined
get_field k (field j v fs) = if text_eq j k then v else get_field k fs

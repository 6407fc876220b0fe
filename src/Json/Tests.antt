-- ===== src/Json/Tests.antt =====
-- Concrete values.
use witseal.Prelude.{ℕ, ◌≡◌, ◌↔◌, ◌≢◌, [], ◌∷◌, ap, arith}
use witseal.Prelude.Text.{Text, codes}
use witseal.Json.{Value, obj, str, nat, end, field}
use witseal.Json.Canonical.{canonicalize}
use witseal.Json.Order.{canonicalize-SameValue, object, swap}
use witseal.Json.Serializable.{canonicalize-IsOk, IsOk, IsSerializable}

abbrev two_properties : Value
two_properties = obj (field (codes "b") (nat 2) (field (codes "a") (str (codes "x\ny")) end))

canonicalize-IsOk_example : IsOk (canonicalize two_properties) ↔ IsSerializable two_properties
canonicalize-IsOk_example = canonicalize-IsOk two_properties

abbrev other_order : Value
other_order = obj (field (codes "a") (str (codes "x\ny")) (field (codes "b") (nat 2) end))

abbrev first_code : Text → ℕ
first_code [] = 0
first_code (c ∷ s) = c

letters_differ : codes "b" ≢ codes "a"
letters_differ h = omega (arith, ap first_code h)

canonicalize-SameValue_example : canonicalize two_properties ≡ canonicalize other_order
canonicalize-SameValue_example =
    canonicalize-SameValue two_properties other_order
      (object (swap (codes "b") (codes "a") (nat 2) (str (codes "x\ny")) letters_differ))

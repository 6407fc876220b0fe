-- ===== src/Json/Decimal.antt =====
-- `String(n)` for integers.
use witseal.Prelude.{
  ℕ, zero, suc, ◌+◌, ◌/◌, ◌%◌, ◌≤◌, ◌≡◌, refl, [], ◌∷◌, ◌++◌, arith, ltb, All, All-append,
  if◌then◌else◌, Bool-cases, inl, inr,
}
use witseal.Prelude.Text.{Text}
use witseal.Json.{ℤ, pos, negsuc}

unfoldable pub digits_from : ℕ → ℕ → Text
digits_from zero n = []
digits_from (suc f) n =
    let rest = digits_from f (n / 10) in
    if ltb n 10 then (48 + n) ∷ [] else rest ++ (48 + n % 10) ∷ []

-- A number has fewer digits than the fuel, one more than its value.
unfoldable pub digits : ℕ → Text
unfolding digits_from
digits n = digits_from (suc n) n

unfoldable pub integer_text : ℤ → Text
unfolding digits
integer_text (pos n) = digits n
integer_text (negsuc n) = b'-' ∷ digits (suc n)

abbrev pub IsDigit : ℕ → Type 0
IsDigit c = (48 ≤ c) × (c ≤ 57)

pub digits_from-IsDigit : (f n : ℕ) → All IsDigit (digits_from f n)
unfolding digits_from
digits_from-IsDigit zero n = tt
digits_from-IsDigit (suc f) n = elim (Bool-cases (ltb n 10)) [
  | inl small ↦ rw small (ground arith, tt)
  | inr large ↦ rw large (
      All-append IsDigit (digits_from f (n / 10)) _ (digits_from-IsDigit f (n / 10))
        (omega arith, tt))
]

pub digits-IsDigit : (n : ℕ) → All IsDigit (digits n)
unfolding digits
digits-IsDigit n = digits_from-IsDigit (suc n) n

digits_runs : digits 65536 ≡ b'6' ∷ b'5' ∷ b'5' ∷ b'3' ∷ b'6' ∷ []
unfolding digits
digits_runs = refl

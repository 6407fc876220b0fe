-- ===== src/Prelude/Bits.antt =====
-- Where `|` and `^` on native numbers are zero.
use Prim.Native.Nat.{
  ℕ, zero, suc, ◌+◌, ◌*◌, ◌/◌, ◌%◌, ◌≤◌, max, bit_or, bit_xor, digits, bitwise, differ,
  bit_or-bitwise, bit_xor-bitwise,
}
use native.Mathlib.Nat.{le_refl}
use mathlib.Core.Path.{◌≡◌, refl, ap, sym, ◌∙◌}
use native.Mathlib.Omega.{arith}

-- The digit recursion gives the same with any fuel that is enough.
module _ (z : ℕ → ℕ) (f : ℕ → ℕ → ℕ) where
  no_digits : (n b : ℕ) → digits z f n 0 b ≡ z b
  no_digits zero b = refl
  no_digits (suc n) b = refl

  same_digits : (a b n m : ℕ) → a ≤ n → a ≤ m → digits z f n a b ≡ digits z f m a b
  same_digits (suc a) b (suc n) (suc m) p q =
      ap (λ rest. rest * 2 + f (suc a % 2) (b % 2))
        (same_digits (suc a / 2) (b / 2) n m (omega arith) (omega arith))
  same_digits zero b n m p q = no_digits n b ∙ sym (no_digits m b)
  same_digits (suc a) b zero m p q = absurd (omega (arith, p))
  same_digits (suc a) b (suc n) zero p q = absurd (omega (arith, q))

  lowest_digit :
      (b a : ℕ)
      → bitwise z f (suc a) b ≡ bitwise z f (suc a / 2) (b / 2) * 2 + f (suc a % 2) (b % 2)
  lowest_digit b a =
      let fuel = same_digits (suc a / 2) (b / 2) a (suc a / 2) (omega arith) (le_refl _) in
      omega (arith, fuel)

bit_or-suc : (a b : ℕ) → bit_or (suc a) b ≡ bit_or (suc a / 2) (b / 2) * 2 + max (suc a % 2) (b % 2)
bit_or-suc a b = simp bit_or-bitwise (lowest_digit (λ y. y) max b a)

bit_xor-suc :
    (a b : ℕ) → bit_xor (suc a) b ≡ bit_xor (suc a / 2) (b / 2) * 2 + differ (suc a % 2) (b % 2)
bit_xor-suc a b = simp bit_xor-bitwise (lowest_digit (λ y. y) differ b a)

or_zero_fuel : (n a b : ℕ) → a + b ≤ n → bit_or a b ≡ 0 → (a ≡ 0) × (b ≡ 0)
or_zero_fuel zero a b h e = omega arith
or_zero_fuel (suc n) zero b h e = omega (arith, bit_or-bitwise 0 b)
or_zero_fuel (suc n) (suc a) b h e = omega (
  arith,
  bit_or-suc a b,
  or_zero_fuel n (suc a / 2) (b / 2) (omega arith) (omega (arith, bit_or-suc a b)),
)

-- `a | b` is zero only if both are.
pub bit_or-eq-zero : (a b : ℕ) → bit_or a b ≡ 0 → (a ≡ 0) × (b ≡ 0)
bit_or-eq-zero a b = or_zero_fuel (a + b) a b (le_refl _)

differ_zero : (a b : ℕ) → a ≤ 1 → b ≤ 1 → differ a b ≡ 0 → a ≡ b
differ_zero a b p q e = ground arith

xor_zero_fuel : (n a b : ℕ) → a + b ≤ n → bit_xor a b ≡ 0 → a ≡ b
xor_zero_fuel zero a b h e = omega arith
xor_zero_fuel (suc n) zero b h e = omega (arith, bit_xor-bitwise 0 b)
xor_zero_fuel (suc n) (suc a) b h e = omega (
  arith,
  bit_xor-suc a b,
  xor_zero_fuel n (suc a / 2) (b / 2) (omega arith) (omega (arith, bit_xor-suc a b)),
  differ_zero (suc a % 2) (b % 2) (omega arith) (omega arith) (omega (arith, bit_xor-suc a b)),
)

-- `a ^ b` is zero exactly if the two are equal.
pub bit_xor-eq-zero : (a b : ℕ) → bit_xor a b ≡ 0 → a ≡ b
bit_xor-eq-zero a b = xor_zero_fuel (a + b) a b (le_refl _)

differ_self : (a : ℕ) → a ≤ 1 → differ a a ≡ 0
differ_self zero h = refl
differ_self (suc zero) h = refl
differ_self (suc (suc a)) h = absurd (omega arith)

xor_self_fuel : (n a : ℕ) → a ≤ n → bit_xor a a ≡ 0
xor_self_fuel zero zero h = refl
xor_self_fuel zero (suc a) h = absurd (omega arith)
xor_self_fuel (suc n) zero h = refl
xor_self_fuel (suc n) (suc a) h = omega (
  arith,
  bit_xor-suc a (suc a),
  xor_self_fuel n (suc a / 2) (omega arith),
  differ_self (suc a % 2) (omega arith),
)

pub bit_xor_self : (a : ℕ) → bit_xor a a ≡ 0
bit_xor_self a = xor_self_fuel a a (le_refl _)

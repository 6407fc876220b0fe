-- ===== src/Chain/Equals.antt =====
-- The constant-time comparison decides equality.
use Prim.Native.Nat.{bit_or, bit_xor}
use witseal.Prelude.{
  ℕ, ◌≡◌, ◌↔◌, refl, true, [], ◌∷◌, length, ◌==◌, arith, Bool-cases, inl, inr, ==_iff, ==_refl,
}
use witseal.Prelude.Text.{Text}
use witseal.Prelude.Bits.{bit_or-eq-zero, bit_xor-eq-zero, bit_xor_self}
use witseal.Chain.{differences, constant_time_equals}

differences_sound :
    (r : ℕ) (s t : Text) → length s ≡ length t → differences r s t ≡ 0 → (r ≡ 0) × (s ≡ t)
unfolding differences
differences_sound r [] [] h e = (e, refl)
differences_sound r [] (b ∷ t) h e = absurd (omega arith)
differences_sound r (a ∷ s) [] h e = absurd (omega arith)
differences_sound r (a ∷ s) (b ∷ t) h e =
    let (seen, rest) = differences_sound (bit_or r (bit_xor a b)) s t (omega arith) e in
    let (before, here) = bit_or-eq-zero r (bit_xor a b) seen in
    (before, cc (bit_xor-eq-zero a b here, rest))

differences_self : (s : Text) → differences 0 s s ≡ 0
unfolding differences
differences_self [] = refl
differences_self (a ∷ s) = rw bit_xor_self (differences_self s)

-- `constantTimeEquals` returns true exactly for equal texts.
pub constant_time_equals_iff : (s t : Text) → (constant_time_equals s t ≡ true) ↔ (s ≡ t)
unfolding constant_time_equals
constant_time_equals_iff s t = (to, from)
  where
    to : constant_time_equals s t ≡ true → s ≡ t
    to h = elim (Bool-cases (length s == length t)) [
      | inl same ↦
          (differences_sound 0 s t ((==_iff (length s) (length t)).0 same)
            ((==_iff (differences 0 s t) 0).0 (rw same at h))).1
      | inr other ↦ absurd (ground arith)
    ]

    from : s ≡ t → constant_time_equals s t ≡ true
    from h = rw h (rw ==_refl (rw differences_self))

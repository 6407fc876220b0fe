-- ===== src/Prelude/Results.antt =====
-- A call that may throw: `err` holds the text of the error that leaves the function.
use Prim.Native.Nat.{ℕ}
use mathlib.Core.Path.{◌≡◌, refl}
use mathlib.Core.List.{List, [], ◌∷◌}

pub data Result {ℓ} (A : Type ℓ) : Type ℓ where
  ok : A → Result A
  err : List ℕ → Result A

module _ {ℓ κ} {A : Type ℓ} {B : Type κ} where
  -- what follows a call that returned
  infixl 5 ◌>>=◌
  abbrev pub ◌>>=◌ : Result A → (A → Result B) → Result B
  err e >>= f = err e
  ok a >>= f = f a

  -- The two calls behind a bind that returned.
  pub >>=-eq-ok :
      (call : Result A) (next : A → Result B) {last : B}
      → (call >>= next) ≡ ok last
      → (first : A) × (call ≡ ok first) × (next first ≡ ok last)
  >>=-eq-ok (err e) next returned = cc
  >>=-eq-ok (ok first) next returned = (first, refl, returned)

module _ {ℓ κ} {A : Type ℓ} {B : Type κ} where
  -- `xs.map(f)` where `f` may throw
  abbrev pub map_ok : (A → Result B) → List A → Result (List B)
  map_ok f [] = ok []
  map_ok f (x ∷ xs) = do y ← f x; ys ← map_ok f xs; ok (y ∷ ys)

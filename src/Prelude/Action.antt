-- ===== src/Prelude/Action.antt =====
-- Methods on a mutable object that may throw: what was written before the throw stays written.
use mathlib.Core.Path.{◌≡◌}
use mathlib.Core.List.{List}
use Prim.Native.Nat.{ℕ}
use witseal.Prelude.Results.{Result, ok, err}

abbrev pub Action {ℓ κ} : Type ℓ → Type κ → Type (ℓ ⊔ κ)
Action S A = S → Result A × S

module _ {ℓ κ} {S : Type ℓ} {A : Type κ} where
  abbrev pub return : A → Action S A
  return a s = (ok a, s)

  abbrev pub throw : List ℕ → Action S A
  throw e s = (err e, s)

  -- a pure computation that may throw
  abbrev pub attempt : Result A → Action S A
  attempt r s = (r, s)

  abbrev pub asks : (S → A) → Action S A
  asks f s = (ok (f s), s)

abbrev pub modify {ℓ} : {S : Type ℓ} → (S → S) → Action S (Unit {0})
modify f s = (ok tt, f s)

module _ {ℓ κ μ} {S : Type ℓ} {A : Type κ} {B : Type μ} where
  abbrev pub proceed : Result A × S → (A → Action S B) → Result B × S
  proceed (ok a, s) f = f a s
  proceed (err e, s) f = (err e, s)

  infixl 5 ◌>>=◌ ◌>>◌
  abbrev pub ◌>>=◌ : Action S A → (A → Action S B) → Action S B
  ◌>>=◌ m f s = proceed (m s) f

  abbrev pub ◌>>◌ : Action S A → Action S B → Action S B
  m >> n = m >>= λ _. n

  -- A step that returned, or threw, is followed by its continuation, or by none.
  pub proceed-ok :
      (r : Result A × S) (a : A) (f : A → Action S B) → r.0 ≡ ok a → proceed r f ≡ f a r.1
  proceed-ok (ok b, s) a f h = cc
  proceed-ok (err e, s) a f h = cc

  pub proceed-err :
      (r : Result A × S) (e : List ℕ) (f : A → Action S B)
      → r.0 ≡ err e
      → proceed r f ≡ (err e, r.1)
  proceed-err (ok b, s) e f h = cc
  proceed-err (err d, s) e f h = cc

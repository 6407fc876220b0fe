-- ===== src/Lock/Exclusive.antt =====
-- `acquireExclusive`, `withExclusive` and the release of their locks: the choice of a backend, and the
-- entry in the environment by which a call inside the lock finds it held.
use witseal.Prelude.{
  ℕ, zero, suc, ◌≡◌, ◌≢◌, refl, subst, Bool, true, false, Option, none, some, if◌then◌else◌, Result,
  ok, err, Bool-cases, inl, inr,
}
use witseal.Prelude.Text.{Text, option_eq}
use witseal.Json.Decimal.{digits}
use witseal.Lock.{Os, LockDir, shim_release}
use witseal.Lock.Acquire.{Surroundings, acquire_shim, timeout_error, timed_out}
use witseal.Lock.Ancestor.{held_by_ancestor, held_by_ancestor_self}

-- A handle, by what its release does.
pub data LockHandle : Type 0 where
  inherited by_flock advisory by_shim : LockHandle

-- `entry` is the variable WITSEAL_LOCK_HELD_BY_PID, and `flocked` whether the process has the flock.
pub record LockState : Type 0 where
  pub dir : LockDir
  pub entry : Option Text
  pub flocked : Bool

-- The runtime and the process: whether Node has `flockSync`, what each attempt of it gives, the
-- opt-out from locking, and the process's number and own holder text.
pub record Host : Type 0 where
  pub os : Os
  pub around : Surroundings
  pub ps_ppid : ℕ → Result Text
  pub has_flock : Bool
  pub flock_once : ℕ → Result Bool
  pub unsafe_lockless : Bool
  pub self : ℕ
  pub own : Text

module _ (host : Host) (timeout_ms : ℕ) where
  open host use {os, around, ps_ppid, has_flock, flock_once, unsafe_lockless, self, own}

  abbrev flock_round :
      ℕ
      → LockState
      → Result Bool
      → Option (Result LockHandle × LockState)
      → Option (Result LockHandle × LockState)
  flock_round n s (err e) again = some (err e, s)
  flock_round n s (ok true) again =
      some (ok by_flock, record s { entry = some (digits self); flocked = true })
  flock_round n s (ok false) again =
      if timed_out around timeout_ms n then some (err timeout_error, s) else again

  -- `acquireFlock` from its `n`-th round on; a flock that fails for good throws.
  unfoldable pub acquire_flock : ℕ → ℕ → LockState → Option (Result LockHandle × LockState)
  acquire_flock zero n s = none
  acquire_flock (suc fuel) n s =
      let again = acquire_flock fuel (suc n) s in flock_round n s (flock_once n) again

  abbrev pub shim_result :
      LockState → Option (Result (Unit {0}) × LockDir) → Option (Result LockHandle × LockState)
  shim_result s none = none
  shim_result s (some (err e, d)) = some (err e, record s { dir = d })
  shim_result s (some (ok u, d)) =
      some (ok by_shim, record s { dir = d; entry = some (digits self) })

  unfoldable pub acquire_exclusive : ℕ → LockState → Option (Result LockHandle × LockState)
  unfolding acquire_flock
  acquire_exclusive fuel s =
      if held_by_ancestor ps_ppid self s.entry
      then some (ok inherited, s)
      else if has_flock
      then acquire_flock fuel 0 s
      else if unsafe_lockless
      then some (ok advisory, s)
      else shim_result s (acquire_shim os around own timeout_ms fuel 0 s.dir)

  -- The entry is deleted if it is the process's own.
  abbrev own_entry_deleted : Option Text → Option Text
  own_entry_deleted entry = if option_eq entry (some (digits self)) then none else entry

  unfoldable pub release : LockHandle → LockState → LockState
  release inherited s = s
  release advisory s = s
  release by_flock s = record s { entry = own_entry_deleted s.entry; flocked = false }
  release by_shim s = record s { dir = shim_release s.dir; entry = own_entry_deleted s.entry }

  abbrev run_and_release {ℓ} :
      {A : Type ℓ}
      → (LockState → Result A × LockState)
      → Option (Result LockHandle × LockState)
      → Option (Result A × LockState)
  run_and_release fn none = none
  run_and_release fn (some (err e, s)) = some (err e, s)
  run_and_release fn (some (ok handle, s)) = some ((fn s).0, release handle (fn s).1)

  -- The release is in a `finally`: it follows a `fn` that throws as well.
  unfoldable pub with_exclusive {ℓ} :
      {A : Type ℓ}
      → ℕ
      → (LockState → Result A × LockState)
      → LockState
      → Option (Result A × LockState)
  unfolding acquire_exclusive release
  with_exclusive fuel fn s = run_and_release fn (acquire_exclusive fuel s)

  -- The lock is found held.
  abbrev IsEntered : LockState → Type 0
  IsEntered s = held_by_ancestor ps_ppid self s.entry ≡ true

  own_entry-IsEntered : (s : LockState) → s.entry ≡ some (digits self) → IsEntered s
  own_entry-IsEntered s h = rw h (held_by_ancestor_self ps_ppid self)

  abbrev Entered : Option (Result LockHandle × LockState) → Type 0
  Entered o = (h : LockHandle) (t : LockState) → o ≡ some (ok h, t) → h ≢ advisory → IsEntered t

  flock_round-Entered :
      (n : ℕ) (s : LockState) (r : Result Bool) (again : Option (Result LockHandle × LockState))
      → Entered again
      → Entered (flock_round n s r again)
  flock_round-Entered n s (err x) again rest h t e a = cc
  flock_round-Entered n s (ok true) again rest h t e a = own_entry-IsEntered t (cc)
  flock_round-Entered n s (ok false) again rest h t e a =
      elim (Bool-cases (timed_out around timeout_ms n)) [
        | inl late ↦ let refused = rw late at e in cc
        | inr early ↦ let e' = rw early at e in rest h t e' a
      ]

  acquire_flock-Entered : (fuel n : ℕ) (s : LockState) → Entered (acquire_flock fuel n s)
  unfolding acquire_flock
  acquire_flock-Entered zero n s h t e a = cc
  acquire_flock-Entered (suc fuel) n s h t e a =
      flock_round-Entered n s (flock_once n) _ (acquire_flock-Entered fuel (suc n) s) h t e a

  shim_result-Entered :
      (s : LockState) (o : Option (Result (Unit {0}) × LockDir)) → Entered (shim_result s o)
  shim_result-Entered s none h t e a = cc
  shim_result-Entered s (some (err x, d)) h t e a = cc
  shim_result-Entered s (some (ok u, d)) h t e a = own_entry-IsEntered t (cc)

  acquire_exclusive-Entered : (fuel : ℕ) (s : LockState) → Entered (acquire_exclusive fuel s)
  unfolding acquire_exclusive
  acquire_exclusive-Entered fuel s = elim (Bool-cases (held_by_ancestor ps_ppid self s.entry)) [
    | inl held ↦ rw held (λ h t e a. subst IsEntered {x = s} {y = t} (cc) held)
    | inr free ↦ elim (Bool-cases has_flock) [
      | inl h ↦ rw (free, h) (acquire_flock-Entered fuel 0 s)
      | inr h ↦ elim (Bool-cases unsafe_lockless) [
        | inl u ↦ rw (free, h, u) (λ h t e a. absurd (a cc))
        | inr u ↦ rw (free, h, u) (shim_result-Entered s _)
      ]
    ]
  ]

  -- Within a lock that is not advisory, a nested `withExclusive` runs its function at once and leaves
  -- the state that the function leaves: it neither waits for the lock nor gives it back.
  pub with_exclusive-nested {ℓ} :
      {A : Type ℓ} (fuel nested : ℕ) (fn : LockState → Result A × LockState) (s t : LockState)
      (handle : LockHandle)
      → acquire_exclusive fuel s ≡ some (ok handle, t)
      → handle ≢ advisory
      → with_exclusive nested fn t ≡ some (fn t)
  unfolding with_exclusive acquire_exclusive release
  with_exclusive-nested fuel nested fn s t handle e a =
      rw (acquire_exclusive-Entered fuel s handle t e a) refl

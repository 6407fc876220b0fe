-- ===== src/Lock/Acquire.antt =====
-- The loops that acquire a lock: `acquireShim`, and the choice of a backend with its shortcut for a
-- lock that an ancestor holds.
use witseal.Prelude.{
  ℕ, zero, suc, ◌-◌, Bool, Option, none, some, if◌then◌else◌, Result, ok, err, ltb,
}
use witseal.Prelude.Text.{Text, codes}
use witseal.Lock.{
  Os, LockDir, acquired, exists, shim_try_create, shim_try_steal, shim_holder_provably_dead,
}

unfoldable pub timeout_error : Text
timeout_error = codes "ChainLock: timeout waiting for exclusive lock"

-- What a wait meets, by the number of the round: the clock, read at each check of the timeout, and
-- what other processes do to the directory between the exclusive open and the verdict on the holder,
-- between the verdict and the steal, and before the next round, which is during a sleep or right
-- behind a steal.
pub record Surroundings : Type 0 where
  pub now : ℕ → ℕ
  pub before_verdict : ℕ → LockDir → LockDir
  pub before_steal : ℕ → LockDir → LockDir
  pub before_round : ℕ → LockDir → LockDir

-- `Date.now() - start > timeoutMs`, at the check of a round
abbrev pub timed_out : Surroundings → ℕ → ℕ → Bool
timed_out around timeout_ms n = ltb timeout_ms (around.now (suc n) - around.now 0)

-- The directory at the verdict of a round, and at the round behind a steal.
abbrev pub seen : Surroundings → ℕ → LockDir → LockDir
seen around n dir = around.before_verdict n dir

abbrev pub stolen : Surroundings → ℕ → LockDir → LockDir
stolen around n dir =
    around.before_round n (shim_try_steal (around.before_steal n (seen around n dir)))

module _ (os : Os) (around : Surroundings) (own : Text) (timeout_ms : ℕ) where
  abbrev dead : LockDir → Bool
  dead dir = shim_holder_provably_dead os dir.lockfile

  -- `acquireShim` from its `n`-th round on: `none` where the fuel is short. A steal is followed by a
  -- round with no sleep and no check of the timeout.
  unfoldable pub acquire_shim : ℕ → ℕ → LockDir → Option (Result (Unit {0}) × LockDir)
  unfolding timeout_error
  acquire_shim zero n dir = none
  acquire_shim (suc fuel) n dir =
      let after_steal = acquire_shim fuel (suc n) (stolen around n dir) in
      let after_sleep = acquire_shim fuel (suc n) (around.before_round n (seen around n dir)) in
      elim (shim_try_create own dir).0 [
        | err e ↦ some (err e, dir)
        | ok acquired ↦ some (ok tt, (shim_try_create own dir).1)
        | ok exists ↦
            if dead (seen around n dir)
            then after_steal
            else if timed_out around timeout_ms n
            then some (err timeout_error, seen around n dir)
            else after_sleep
      ]

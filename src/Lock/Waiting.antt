-- ===== src/Lock/Waiting.antt =====
-- How a wait for the lockfile ends: with the lock, with the timeout, or, where an orphan cannot be
-- removed, not at all.
use witseal.Prelude.{
  ℕ, zero, suc, ◌+◌, ◌<◌, ◌≡◌, refl, ap, subst, sym, ◌⊎◌, Option-cases, ◌∙◌, ◌≤◌, Bool, true, false,
  Option, none, some, if◌then◌else◌, Result, ok, err, Bool-cases, inl, inr, arith,
}
use witseal.Prelude.Text.{Text}
use witseal.Lock.{
  Os, LockDir, acquired, exists, unavailable_error, shim_try_create, shim_try_steal,
  shim_holder_provably_dead,
}
use witseal.Lock.Acquire.{Surroundings, acquire_shim, timeout_error, timed_out, seen, stolen}

-- The lockfile is there.
abbrev pub IsThere : LockDir → Type 0
IsThere dir = (content : Text) × (dir.lockfile ≡ some content)

-- The lockfile is there, and its holder is not provably dead.
abbrev pub IsHeld : Os → LockDir → Type 0
IsHeld os dir =
    (content : Text) × ((dir.lockfile ≡ some content)
      × (shim_holder_provably_dead os dir.lockfile ≡ false))

-- The lockfile is there, and its holder is provably dead.
abbrev pub IsOrphan : Os → LockDir → Type 0
IsOrphan os dir =
    (content : Text) × ((dir.lockfile ≡ some content)
      × (shim_holder_provably_dead os dir.lockfile ≡ true))

shim_try_create-exists :
    (own content : Text) (dir : LockDir)
    → dir.lockfile ≡ some content
    → shim_try_create own dir ≡ (ok exists, dir)
unfolding shim_try_create
shim_try_create-exists own content dir h = ground arith

shim_try_create-acquired :
    (own : Text) (dir : LockDir)
    → dir.lockfile ≡ none
    → dir.can_create ≡ true
    → shim_try_create own dir ≡ (ok acquired, record dir { lockfile = some own })
unfolding shim_try_create
shim_try_create-acquired own dir h c = ground arith

shim_try_steal-removes :
    (dir : LockDir) → dir.can_remove ≡ true → (shim_try_steal dir).lockfile ≡ none
unfolding shim_try_steal
shim_try_steal-removes dir h = ground arith

shim_try_steal-keeps : (dir : LockDir) → dir.can_remove ≡ false → shim_try_steal dir ≡ dir
unfolding shim_try_steal
shim_try_steal-keeps dir h = ground arith

shim_try_steal-can_remove : (dir : LockDir) → (shim_try_steal dir).can_remove ≡ dir.can_remove
unfolding shim_try_steal
shim_try_steal-can_remove dir = go dir.can_remove
  where
    go :
        (b : Bool) → (if b then record dir { lockfile = none } else dir).can_remove ≡ dir.can_remove
    go true = refl
    go false = refl

shim_try_create-fails :
    (own : Text) (dir : LockDir)
    → dir.lockfile ≡ none
    → dir.can_create ≡ false
    → shim_try_create own dir ≡ (err unavailable_error, dir)
unfolding shim_try_create
shim_try_create-fails own dir h c = ground arith

late_at :
    (around : Surroundings) (timeout_ms a b : ℕ)
    → a ≡ b
    → timed_out around timeout_ms a ≡ true
    → timed_out around timeout_ms b ≡ true
late_at around timeout_ms a b e h = subst (λ m. timed_out around timeout_ms m ≡ true) e h

IsThere-cases : (dir : LockDir) → (dir.lockfile ≡ none) ⊎ IsThere dir
IsThere-cases dir = Option-cases dir.lockfile

-- A wait that returns within its rounds.
abbrev pub Returns : Option (Result (Unit {0}) × LockDir) → Type 0
Returns o = (r : Result (Unit {0}) × LockDir) × (o ≡ some r)

-- What other processes do leaves the process the right to move files.
pub record KeepsRights (around : Surroundings) : Type 0 where
  pub verdict_keeps :
      (m : ℕ) (d : LockDir) → d.can_remove ≡ true → (around.before_verdict m d).can_remove ≡ true
  pub steal_keeps :
      (m : ℕ) (d : LockDir) → d.can_remove ≡ true → (around.before_steal m d).can_remove ≡ true
  pub round_keeps :
      (m : ℕ) (d : LockDir) → d.can_remove ≡ true → (around.before_round m d).can_remove ≡ true

stolen-can_remove :
    (around : Surroundings) (m : ℕ) (d : LockDir)
    → KeepsRights around
    → d.can_remove ≡ true
    → (stolen around m d).can_remove ≡ true
stolen-can_remove around m d keeps rm =
    let at_steal = around.before_steal m (seen around m d) in
    keeps.round_keeps m (shim_try_steal at_steal) (
      shim_try_steal-can_remove at_steal
      ∙ keeps.steal_keeps m (seen around m d) (keeps.verdict_keeps m d rm))

-- The verdict of a round that comes behind a steal is not again that a holder is dead.
abbrev pub Clears : Os → Surroundings → Type 0
Clears os around =
    (m : ℕ) (d : LockDir)
    → d.can_remove ≡ true
    → shim_holder_provably_dead os (seen around (suc m) (stolen around m d)).lockfile ≡ false

-- What other processes do leaves an orphan at the path that the process cannot move.
abbrev pub IsStuck : Os → LockDir → Type 0
IsStuck os dir = IsOrphan os dir × (dir.can_remove ≡ false)

pub record KeepsStuck (os : Os) (around : Surroundings) : Type 0 where
  pub verdict_keeps : (m : ℕ) (d : LockDir) → IsStuck os d → IsStuck os (around.before_verdict m d)
  pub steal_keeps : (m : ℕ) (d : LockDir) → IsStuck os d → IsStuck os (around.before_steal m d)
  pub round_keeps : (m : ℕ) (d : LockDir) → IsStuck os d → IsStuck os (around.before_round m d)

stolen-IsStuck :
    (os : Os) (around : Surroundings) (m : ℕ) (d : LockDir)
    → KeepsStuck os around
    → IsStuck os d
    → IsStuck os (stolen around m d)
stolen-IsStuck os around m d keeps h =
    let at_steal = around.before_steal m (seen around m d) in
    let stuck = keeps.steal_keeps m (seen around m d) (keeps.verdict_keeps m d h) in
    keeps.round_keeps m (shim_try_steal at_steal)
      (subst (IsStuck os) (sym (shim_try_steal-keeps at_steal stuck.1)) stuck)

module _ (os : Os) (around : Surroundings) (own : Text) (timeout_ms : ℕ) where
  -- What a round does, by what is at the path.
  round-acquired :
      (fuel n : ℕ) (dir : LockDir)
      → dir.lockfile ≡ none
      → dir.can_create ≡ true
      → acquire_shim os around own timeout_ms (suc fuel) n dir
        ≡ some (ok tt, record dir { lockfile = some own })
  unfolding acquire_shim
  round-acquired fuel n dir h c =
      rw (shim_try_create-acquired own dir h c, acquire_shim)
        (ap (λ r. some (ok tt, r.1)) (shim_try_create-acquired own dir h c))

  round-steals :
      (fuel n : ℕ) (dir : LockDir)
      → IsThere dir
      → shim_holder_provably_dead os (seen around n dir).lockfile ≡ true
      → acquire_shim os around own timeout_ms (suc fuel) n dir
        ≡ acquire_shim os around own timeout_ms fuel (suc n) (stolen around n dir)
  unfolding acquire_shim
  round-steals fuel n dir (content, there) d =
      rw (shim_try_create-exists own content dir there, d, acquire_shim) refl

  round-waits :
      (fuel n : ℕ) (dir : LockDir)
      → IsThere dir
      → shim_holder_provably_dead os (seen around n dir).lockfile ≡ false
      → acquire_shim os around own timeout_ms (suc fuel) n dir ≡ (
          if timed_out around timeout_ms n
          then some (err timeout_error, seen around n dir)
          else acquire_shim os around own timeout_ms fuel
              (suc n)
              (around.before_round n (seen around n dir)))
  unfolding acquire_shim
  round-waits fuel n dir (content, there) d =
      rw (shim_try_create-exists own content dir there, d, acquire_shim) refl

  round-absent :
      (fuel n : ℕ) (dir : LockDir)
      → dir.lockfile ≡ none
      → Returns (acquire_shim os around own timeout_ms (suc fuel) n dir)
  unfolding acquire_shim
  round-absent fuel n dir h = elim (Bool-cases dir.can_create) [
    | inl c ↦ (_, round-acquired fuel n dir h c)
    | inr c ↦
        ((err unavailable_error, dir), rw (shim_try_create-fails own dir h c, acquire_shim) refl)
  ]

  -- A round past the timeout that finds no dead holder is the last one.
  round-late :
      (fuel n : ℕ) (dir : LockDir)
      → timed_out around timeout_ms n ≡ true
      → shim_holder_provably_dead os (seen around n dir).lockfile ≡ false
      → Returns (acquire_shim os around own timeout_ms (suc fuel) n dir)
  round-late fuel n dir late d = elim (IsThere-cases dir) [
    | inl h ↦ round-absent fuel n dir h
    | inr there ↦
        ((err timeout_error, seen around n dir), round-waits fuel n dir there d ∙ rw late refl)
  ]

  pub acquire_shim-takes_over :
      (fuel n : ℕ) (dir : LockDir)
      → IsThere dir
      → shim_holder_provably_dead os (seen around n dir).lockfile ≡ true
      → (stolen around n dir).lockfile ≡ none
      → (stolen around n dir).can_create ≡ true
      → acquire_shim os around own timeout_ms (suc (suc fuel)) n dir
        ≡ some (ok tt, record (stolen around n dir) { lockfile = some own })
  acquire_shim-takes_over fuel n dir there d gone cr =
      round-steals (suc fuel) n dir there d
      ∙ round-acquired fuel (suc n) (stolen around n dir) gone cr

  -- An orphan that cannot be removed, and that other processes leave there, keeps the wait from
  -- ending: no number of rounds is enough, whatever the timeout and the clock.
  pub acquire_shim-spins :
      (fuel n : ℕ) (dir : LockDir)
      → KeepsStuck os around
      → IsOrphan os dir
      → dir.can_remove ≡ false
      → acquire_shim os around own timeout_ms fuel n dir ≡ none
  unfolding acquire_shim
  acquire_shim-spins zero n dir keeps o rm = refl
  acquire_shim-spins (suc fuel) n dir keeps (content, (there, d)) rm =
      let ((_, (_, dead)), _) = keeps.verdict_keeps n dir ((content, (there, d)), rm) in
      let (orphan, fixed) = stolen-IsStuck os around n dir keeps ((content, (there, d)), rm) in
      round-steals fuel n dir (content, there) dead
      ∙ acquire_shim-spins fuel (suc n) (stolen around n dir) keeps orphan fixed

  -- While the lock stays with a holder that is not provably dead, the wait ends with the error of the
  -- timeout, once the clock is past it at the `k`-th check and with a round for each check.
  pub acquire_shim-times_out :
      (k fuel n : ℕ) (dir : LockDir)
      → k < fuel
      → timed_out around timeout_ms (n + k) ≡ true
      → IsHeld os dir
      → ((m : ℕ) (d : LockDir) → IsHeld os d → IsHeld os (around.before_verdict m d))
      → ((m : ℕ) (d : LockDir) → IsHeld os d → IsHeld os (around.before_round m d))
      → (final : LockDir) × (acquire_shim os around own timeout_ms fuel n dir
          ≡ some (err timeout_error, final))
  acquire_shim-times_out k zero n dir lt late h at_verdict stays = absurd (omega (arith, lt))
  acquire_shim-times_out zero (suc fuel) n dir lt late (c, (there, d)) at_verdict stays =
      let now = late_at around timeout_ms (n + 0) n (omega arith) late in
      let (_, (_, live)) = at_verdict n dir (c, (there, d)) in
      (seen around n dir, round-waits fuel n dir (c, there) live ∙ rw now refl)
  acquire_shim-times_out (suc k) (suc fuel) n dir lt late (c, (there, d)) at_verdict stays =
      let held = at_verdict n dir (c, (there, d)) in
      let waits = round-waits fuel n dir (c, there) held.1.1 in
      elim (Bool-cases (timed_out around timeout_ms n)) [
        | inl now ↦ (seen around n dir, waits ∙ rw now refl)
        | inr early ↦
            let later = late_at around timeout_ms (n + suc k) (suc n + k) (omega arith) late in
            let rest =
              acquire_shim-times_out k fuel (suc n) (around.before_round n (seen around n dir))
                (omega (arith, lt)) later (stays n (seen around n dir) held) at_verdict stays in
            (rest.0, waits ∙ rw early rest.1)
      ]

  -- Whatever other processes do and hold: where they leave the process the right to move files, and
  -- behind a steal the next verdict is not again that a holder is dead, the wait returns, with a lock
  -- or an error, once the clock is past the timeout from the `k`-th check on and with two rounds more.
  pub acquire_shim-Returns :
      (k fuel n : ℕ) (dir : LockDir)
      → suc k < fuel
      → ((m : ℕ) → n + k ≤ m → timed_out around timeout_ms m ≡ true)
      → dir.can_remove ≡ true
      → KeepsRights around
      → Clears os around
      → Returns (acquire_shim os around own timeout_ms fuel n dir)
  acquire_shim-Returns k zero n dir lt late rm keeps clears = absurd (omega (arith, lt))
  acquire_shim-Returns k (suc zero) n dir lt late rm keeps clears = absurd (omega (arith, lt))
  acquire_shim-Returns zero (suc (suc fuel)) n dir lt late rm keeps clears =
      elim (IsThere-cases dir) [
        | inl h ↦ round-absent (suc fuel) n dir h
        | inr there ↦
            elim (Bool-cases (shim_holder_provably_dead os (seen around n dir).lockfile)) [
              | inl d ↦
                  let last =
                    round-late fuel (suc n) (stolen around n dir) (late (suc n) (omega arith))
                      (clears n dir rm) in
                  (last.0, round-steals (suc fuel) n dir there d ∙ last.1)
              | inr d ↦ round-late (suc fuel) n dir (late n (omega arith)) d
            ]
      ]
  acquire_shim-Returns (suc k) (suc (suc fuel)) n dir lt late rm keeps clears =
      let from : (m : ℕ) → suc n + k ≤ m → timed_out around timeout_ms m ≡ true =
        λ m h. late m (omega (arith, h)) in
      elim (IsThere-cases dir) [
        | inl h ↦ round-absent (suc fuel) n dir h
        | inr there ↦
            elim (Bool-cases (shim_holder_provably_dead os (seen around n dir).lockfile)) [
              | inl d ↦
                  let rest =
                    acquire_shim-Returns k (suc fuel) (suc n) (stolen around n dir)
                      (omega (arith, lt)) from (stolen-can_remove around n dir keeps rm) keeps
                      clears in
                  (rest.0, round-steals (suc fuel) n dir there d ∙ rest.1)
              | inr d ↦ elim (Bool-cases (timed_out around timeout_ms n)) [
                | inl now ↦ round-late (suc fuel) n dir now d
                | inr early ↦
                    let rest =
                      acquire_shim-Returns k (suc fuel) (suc n)
                        (around.before_round n (seen around n dir)) (omega (arith, lt)) from
                        (keeps.round_keeps n (seen around n dir) (keeps.verdict_keeps n dir rm))
                        keeps clears in
                    (rest.0, round-waits (suc fuel) n dir there d ∙ rw early rest.1)
              ]
            ]
      ]

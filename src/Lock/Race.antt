-- ===== src/Lock/Race.antt =====
-- Two processes that hold the lock together: a steal acts on a verdict that has become stale.
use witseal.Prelude.{ℕ, false, none, some}
use witseal.Lock.System.{
  trying, created, holding, judged, looked, System, update, move, write_holder, start,
}

-- From the head of its loop, with no file there, a process comes to hold the lock.
abbrev taken : System → ℕ → System
taken s k =
    let new = move s k created (some (record { owner = k; written = false })) in
    move new k holding (write_holder k new.file)

module _ (i j d : ℕ) where
  abbrev orphaned : System
  orphaned =
      let held = taken (move start d trying none) d in
      record { file = held.file; pc = held.pc; alive = update held.alive d false }

  -- A process comes to the head of its loop, reads the orphan's holder and judges it.
  abbrev judged_by : ℕ → System → System
  judged_by k s = move (move (move s k trying s.file) k (looked d) s.file) k judged s.file

  abbrev both_judged : System
  both_judged = judged_by j (judged_by i orphaned)

  abbrev both_hold : System
  both_hold = taken (move (taken (move both_judged i trying none) i) j trying none) j

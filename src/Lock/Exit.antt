-- ===== src/Lock/Exit.antt =====
-- Two processes that hold the lock together without a crash: a holder that has released the lock and
-- exited is found missing, and the file at the path is another's by then.
use witseal.Prelude.{ℕ, false, none, some}
use witseal.Lock.System.{
  idle, trying, created, holding, judged, looked, System, update, move, write_holder, Step, crash,
  start, Reach, initial, later,
}

-- The step is not a crash.
abbrev pub IsNoCrash : {s t : System} → Step false s t → Type 0
IsNoCrash (crash i) = ⊥
IsNoCrash _ = Unit

-- No step of the run is a crash.
abbrev pub IsCrashFree : {s : System} → Reach false s → Type 0
IsCrashFree initial = Unit
IsCrashFree (later r st) = IsCrashFree r × IsNoCrash st

-- A run to a state without a crash.
abbrev Safely : System → Type 0
Safely s = (r : Reach false s) × IsCrashFree r

-- From before its loop, with no file there, a process comes to hold the lock.
abbrev locked : System → ℕ → System
locked s k =
    let new =
      move (move s k trying s.file) k created (some (record { owner = k; written = false })) in
    move new k holding (write_holder k new.file)

module _ (i j d : ℕ) where
  -- The first has read the holder, which has then released the lock and exited.
  abbrev left : System
  left =
      let held = locked start d in
      let read = move (move held i trying held.file) i (looked d) held.file in
      let released = move read d idle none in
      record { file = none; pc = released.pc; alive = update released.alive d false }

  -- The second has the lock, and the first finds the holder that it read missing, and moves the file.
  abbrev stolen_live : System
  stolen_live = let s = locked left j in move (move s i judged s.file) i trying none

  abbrev both : System
  both =
      let new = move stolen_live i created (some (record { owner = i; written = false })) in
      move new i holding (write_holder i new.file)

-- ===== src/Lock/System.antt =====
-- Several processes at one lockfile. A step is one system call of one process, and a process may
-- end between any two: crash, or exit where it is outside the lock. The processes are numbered; a number is not used again.
use witseal.Prelude.{ℕ, ◌≡◌, ◌⊎◌, Bool, true, false, Option, none, some, if◌then◌else◌, ◌==◌}

-- The lockfile at its path: the process that made it, and whether its holder is written.
pub record Lockfile : Type 0 where
  pub owner : ℕ
  pub written : Bool

-- Where a process stands: before `acquireShim`, at the head of its loop, behind the exclusive open,
-- behind the write, behind the read of the file's holder, or behind a verdict that the holder is dead.
pub data Pc : Type 0 where
  idle trying created holding judged : Pc
  looked : ℕ → Pc

pub record System : Type 0 where
  pub file : Option Lockfile
  pub pc : ℕ → Pc
  pub alive : ℕ → Bool

abbrev pub update {ℓ} : {A : Type ℓ} → (ℕ → A) → ℕ → A → ℕ → A
update f i a j = if i == j then a else f j

abbrev pub move : System → ℕ → Pc → Option Lockfile → System
move s i p file = record { file = file; pc = update s.pc i p; alive = s.alive }

-- The open file is written, which is the one at the path unless another process has moved it.
abbrev pub write_holder : ℕ → Option Lockfile → Option Lockfile
write_holder i none = none
write_holder i (some f) =
    if f.owner == i then some (record { owner = i; written = true }) else some f

-- The owner of the file at the path is dead.
abbrev pub IsStale : System → Type 0
IsStale s = (f : Lockfile) × ((s.file ≡ some f) × (s.alive f.owner ≡ false))

-- Nothing to move, or a file that is still stale.
abbrev pub IsPrompt : System → Type 0
IsPrompt s = (s.file ≡ none) ⊎ IsStale s

-- The steps of the code. With `prompt`, only those runs in which a file that is stolen is still the
-- stale one when it is moved.
pub data Step (prompt : Bool) (s : System) : System → Type 0 where
  begin : (i : ℕ) → s.alive i ≡ true → s.pc i ≡ idle → Step prompt s (move s i trying s.file)
  open_new :
      (i : ℕ)
      → s.alive i ≡ true
      → s.pc i ≡ trying
      → s.file ≡ none
      → Step prompt s (move s i created (some (record { owner = i; written = false })))
  write_new :
      (i : ℕ)
      → s.alive i ≡ true
      → s.pc i ≡ created
      → Step prompt s (move s i holding (write_holder i s.file))
  read_holder :
      (i : ℕ) (f : Lockfile)
      → s.alive i ≡ true
      → s.pc i ≡ trying
      → s.file ≡ some f
      → f.written ≡ true
      → Step prompt s (move s i (looked f.owner) s.file)
  judge :
      (i d : ℕ)
      → s.alive i ≡ true
      → s.pc i ≡ looked d
      → s.alive d ≡ false
      → Step prompt s (move s i judged s.file)
  retry : (i d : ℕ) → s.alive i ≡ true → s.pc i ≡ looked d → Step prompt s (move s i trying s.file)
  steal :
      (i : ℕ)
      → s.alive i ≡ true
      → s.pc i ≡ judged
      → (prompt ≡ true → IsPrompt s)
      → Step prompt s (move s i trying none)
  give_up : (i : ℕ) → s.alive i ≡ true → s.pc i ≡ trying → Step prompt s (move s i idle s.file)
  give_up_looked :
      (i d : ℕ) → s.alive i ≡ true → s.pc i ≡ looked d → Step prompt s (move s i idle s.file)
  release : (i : ℕ) → s.alive i ≡ true → s.pc i ≡ holding → Step prompt s (move s i idle none)
  exit :
      (i : ℕ)
      → s.alive i ≡ true
      → s.pc i ≡ idle
      → Step prompt s (record { file = s.file; pc = s.pc; alive = update s.alive i false })
  crash :
      (i : ℕ) → Step prompt s (record { file = s.file; pc = s.pc; alive = update s.alive i false })

abbrev pub start : System
start = record { file = none; pc = λ i. idle; alive = λ i. true }

pub data Reach (prompt : Bool) : System → Type 0 where
  initial : Reach prompt start
  later : {s t : System} → Reach prompt s → Step prompt s t → Reach prompt t

-- A process that runs and has the lock.
abbrev pub Holds : System → ℕ → Type 0
Holds s i = (s.alive i ≡ true) × (s.pc i ≡ holding)

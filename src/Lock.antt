-- ===== src/Lock.antt =====
-- src/integrity/lock.ts: the lock of a chain segment. This file has the primitives of the lockfile
-- shim and the loop that acquires it; Lock/System has the steps of several processes.
pub mod Acquire
pub mod Ancestor
pub mod Exclusive
pub mod Verdict
pub mod Waiting
pub mod System
pub mod Exclusion
pub mod Race
pub mod Exit
pub mod Tests
use witseal.Prelude.{
  ℕ, zero, suc, Bool, true, false, not, ◌&&◌, ◌||◌, List, [], ◌∷◌, ◌++◌, Option, none, some,
  if◌then◌else◌, Result, ok, err, ◌+◌, ◌==◌, drop,
}
use witseal.Prelude.Text.{Text, codes, text_eq, is_space, trim, extend, starts_with}
use witseal.Prelude.Action.{Action}
use witseal.Log.{last_index_of}
use witseal.Json.{
  Value, str, num, obj, Number, integer, decimal, non_finite, ℤ, pos, negsuc, get_field,
}

-- `process.kill(pid, 0)`: it returns, or throws ESRCH, EPERM or another error
pub data KillResult : Type 0 where
  returned no_such_process not_permitted other_error : KillResult

-- What the operating system tells of processes. `stat` is /proc/<pid>/stat, `none` if it is not
-- there; `ps` is the output of `ps -o lstart=`.
pub record Os : Type 0 where
  pub parse_json : Text → Result Value
  pub kill : Number → KillResult
  pub stat : Number → Result (Option Text)
  pub ps : Number → Result Text

pub record ShimHolder : Type 0 where
  pub pid : Number
  pub start_time : Option Text

-- `stat.slice(stat.lastIndexOf(')') + 1)`
unfoldable pub behind_name : Text → Text
behind_name stat = elim (last_index_of b')' stat) [ none ↦ stat | some i ↦ drop (i + 1) stat ]

abbrev starts_with_space : Text → Bool
starts_with_space [] = false
starts_with_space (c ∷ s) = is_space c

-- `s.split(/\s+/)`
unfoldable pub split_spaces : Text → List Text
split_spaces [] = [] ∷ []
split_spaces (c ∷ s) =
    let rest = split_spaces s in
    if not (is_space c) then extend c rest else if starts_with_space s then rest else [] ∷ rest

abbrev first_of : List Text → Option Text
first_of [] = none
first_of (t ∷ ts) = some t

-- Field 22 of a stat line.
unfoldable pub start_of_stat : Text → Option Text
unfolding behind_name split_spaces
start_of_stat stat = first_of (drop 19 (split_spaces (trim (behind_name stat))))

abbrev text_or_null : Text → Option Text
text_or_null [] = none
text_or_null (c ∷ s) = some (c ∷ s)

abbrev is_positive : Number → Bool
is_positive (integer (pos n)) = not (n == 0)
is_positive (decimal t) = not (starts_with t (codes "-"))
is_positive _ = false

abbrev pub text_of : Value → Option Text
text_of (str t) = some t
text_of _ = none

abbrev pub holder_of : Value → Value → Option ShimHolder
holder_of (num n) start = some (record { pid = n; start_time = text_of start })
holder_of _ start = none

abbrev pub parsed_holder : Result Value → Option ShimHolder
parsed_holder (ok (obj fs)) =
    holder_of (get_field (codes "pid") fs) (get_field (codes "startTime") fs)
parsed_holder _ = none

abbrev pub differs : Option Text → Option Text → Bool
differs (some s) (some t) = not (text_eq s t)
differs _ _ = false

module _ (os : Os) where
  open os use {parse_json, kill, stat, ps}

  abbrev start_by_ps : Number → Option Text
  start_by_ps pid = elim (ps pid) [ err e ↦ none | ok out ↦ text_or_null (trim out) ]

  abbrev start_by : Number → Result (Option Text) → Option Text
  start_by pid (ok (some text)) = start_of_stat text
  start_by pid (ok none) = start_by_ps pid
  start_by pid (err e) = start_by_ps pid

  unfoldable pub process_start_time : Number → Option Text
  unfolding start_of_stat
  process_start_time pid = if not (is_positive pid) then none else start_by pid (stat pid)

  -- On the content of the file, `none` if it cannot be read.
  unfoldable pub shim_read_holder : Option Text → Option ShimHolder
  shim_read_holder none = none
  shim_read_holder (some content) = parsed_holder (parse_json content)

  abbrev pub dead_by : KillResult → ShimHolder → Bool
  dead_by no_such_process holder = true
  dead_by other_error holder = false
  dead_by _ holder = differs (process_start_time holder.pid) holder.start_time

  abbrev pub dead_holder : Option ShimHolder → Bool
  dead_holder none = false
  dead_holder (some holder) = dead_by (kill holder.pid) holder

  unfoldable pub shim_holder_provably_dead : Option Text → Bool
  shim_holder_provably_dead file = dead_holder (shim_read_holder file)

-- The directory of the lockfile: the file, and whether the process may make a file in it and may move
-- or remove one.
pub record LockDir : Type 0 where
  pub lockfile : Option Text
  pub can_create : Bool
  pub can_remove : Bool

pub data CreateResult : Type 0 where
  acquired exists : CreateResult

unfoldable pub unavailable_error : Text
unavailable_error = codes "ChainLock: cannot create the lock file"

-- `own` is the JSON text of the process's own holder.
unfoldable pub shim_try_create : Text → Action LockDir CreateResult
unfolding unavailable_error
shim_try_create own dir = elim dir.lockfile [
  | some content ↦ (ok exists, dir)
  | none ↦
      if dir.can_create
      then (ok acquired, record dir { lockfile = some own })
      else (err unavailable_error, dir)
]

abbrev removed : LockDir → LockDir
removed dir = if dir.can_remove then record dir { lockfile = none } else dir

-- A file that cannot be moved stays, and the error is caught.
unfoldable pub shim_try_steal : LockDir → LockDir
shim_try_steal dir = removed dir

unfoldable pub shim_release : LockDir → LockDir
shim_release dir = removed dir

pub data UnlockStatus : Type 0 where
  absent removed_orphan held : UnlockStatus

-- The status that `forceUnlockIfDead` reports; an error of the removal is caught.
unfoldable pub force_unlock_if_dead : Os → LockDir → UnlockStatus × LockDir
force_unlock_if_dead os dir = elim dir.lockfile [
  | none ↦ (absent, dir)
  | some content ↦
      if shim_holder_provably_dead os (some content)
      then (removed_orphan, removed dir)
      else (held, dir)
]

-- ===== src/Lock/Tests.antt =====
-- The lock at concrete inputs.
use witseal.Prelude.{
  ℕ, ◌↔◌, ◌+◌, ◌≤◌, ◌*◌, ◌≡◌, ◌≢◌, ap, ◌⊎◌, inl, inr, refl, Bool, true, false, Option, none, some,
  Result, ok, err, [], ◌∷◌, ◌++◌, arith,
}
use witseal.Prelude.Text.{Text, codes, text_eq}
use witseal.Json.{Value, str, num, obj, field, end, get_field, integer, pos}
use witseal.Lock.{
  Os, ShimHolder, KillResult, returned, no_such_process, LockDir, shim_read_holder, shim_try_steal,
  shim_holder_provably_dead, process_start_time, start_of_stat, force_unlock_if_dead,
  removed_orphan,
}
use witseal.Lock.Acquire.{Surroundings, acquire_shim, timeout_error, timed_out}
use witseal.Lock.Verdict.{RecordsGone, shim_holder_provably_dead_iff}
use witseal.Lock.Waiting.{
  Clears, acquire_shim-takes_over, acquire_shim-spins, acquire_shim-Returns, acquire_shim-times_out,
}
use witseal.Lock.System.{
  trying, created, holding, move, System, begin, open_new, write_new, start, Reach, initial, later,
}
use witseal.Lock.Exclusion.{mutual_exclusion}
use witseal.Lock.Exclusive.{
  Host, by_shim, LockState, acquire_exclusive, shim_result, with_exclusive, with_exclusive-nested,
}
use witseal.Json.Decimal.{digits}

abbrev holder_text : Text
holder_text = codes "{\"pid\":42,\"startTime\":\"777\"}"

abbrev own_text : Text
own_text = codes "{\"pid\":43}"

-- A parser that knows one text.
abbrev parse_json : Text → Result Value
parse_json t = elim (text_eq t holder_text) [
  | true ↦ ok (
      obj (
        field (codes "pid") (num (integer (pos 42)))
          (field (codes "startTime") (str (codes "777")) end)))
  | false ↦ err (codes "SyntaxError")
]

abbrev stat_line : Text
stat_line = codes "42 (node (x) y) S 1 42 42 0 -1 4194560 9 0 0 0 1 2 0 0 20 0 11 0 777 12 13"

start_of_stat_example : start_of_stat stat_line ≡ some (codes "777")
unfolding start_of_stat witseal.Prelude.Text.trim witseal.Log.last_index_of
start_of_stat_example = refl

-- The process with the number 42 runs, or is gone.
abbrev os_running : Os
os_running = record {
  parse_json = parse_json;
  kill = λ n. returned;
  stat = λ n. ok (some stat_line);
  ps = λ n. err [];
}

abbrev os_gone : Os
os_gone = record {
  parse_json = parse_json;
  kill = λ n. no_such_process;
  stat = λ n. ok none;
  ps = λ n. err [];
}

abbrev around : Surroundings
around = record {
  now = λ n. n * 15;
  before_verdict = λ n dir. dir;
  before_steal = λ n dir. dir;
  before_round = λ n dir. dir;
}

abbrev orphan_dir : LockDir
orphan_dir = record { lockfile = some holder_text; can_create = true; can_remove = true }

abbrev stuck_dir : LockDir
stuck_dir = record { lockfile = some holder_text; can_create = false; can_remove = false }

verdict_example :
    (shim_holder_provably_dead os_running (some holder_text) ≡ true)
    ↔ RecordsGone os_running (some holder_text)
verdict_example = shim_holder_provably_dead_iff os_running (some holder_text)

alive_42 : shim_holder_provably_dead os_running (some holder_text) ≡ false
unfolding shim_holder_provably_dead shim_read_holder get_field text_eq process_start_time
    start_of_stat witseal.Prelude.Text.trim witseal.Log.last_index_of
alive_42 = refl

orphan_dead : shim_holder_provably_dead os_gone (some holder_text) ≡ true
unfolding shim_holder_provably_dead shim_read_holder get_field text_eq
orphan_dead = refl

acquire_shim-takes_over_example :
    acquire_shim os_gone around own_text 30 2 0 orphan_dir
    ≡ some (ok tt, record { lockfile = some own_text; can_create = true; can_remove = true })
unfolding shim_try_steal
acquire_shim-takes_over_example =
    acquire_shim-takes_over os_gone around own_text 30 0 0 orphan_dir (holder_text, refl)
      orphan_dead refl refl

acquire_shim-spins_example : acquire_shim os_gone around own_text 30 1000 0 stuck_dir ≡ none
acquire_shim-spins_example =
    acquire_shim-spins os_gone around own_text 30 1000 0 stuck_dir
      (record { verdict_keeps = λ m d h. h; steal_keeps = λ m d h. h; round_keeps = λ m d h. h })
      (holder_text, (refl, orphan_dead)) refl

around-Clears : Clears os_gone around
unfolding shim_try_steal shim_holder_provably_dead shim_read_holder
around-Clears m d rm = rw rm refl

late_from_3 : (m : ℕ) → 0 + 3 ≤ m → timed_out around 30 m ≡ true
late_from_3 m h = ground (arith, h)

acquire_shim-Returns_example :
    (r : Result (Unit {0}) × LockDir) × (acquire_shim os_gone around own_text 30 9 0 orphan_dir
      ≡ some r)
acquire_shim-Returns_example =
    acquire_shim-Returns os_gone around own_text 30 3 9 0 orphan_dir (omega arith) late_from_3 refl
      (record { verdict_keeps = λ m d h. h; steal_keeps = λ m d h. h; round_keeps = λ m d h. h })
      around-Clears

times_out_runs :
    (final : LockDir) × (acquire_shim os_running around own_text 30 9 0 orphan_dir
      ≡ some (err timeout_error, final))
times_out_runs =
    acquire_shim-times_out os_running around own_text 30 3 9 0 orphan_dir (omega arith) refl
      (holder_text, (refl, alive_42)) (λ m d h. h) (λ m d h. h)

first_holds : Reach true (
    move
      (move (move start 5 trying none) 5 created (some (record { owner = 5; written = false })))
      5
      holding
      (some (record { owner = 5; written = true })))
first_holds =
    later (later (later initial (begin 5 refl refl)) (open_new 5 refl refl refl))
      (write_new 5 refl refl)

mutual_exclusion_example : ◌≡◌ {A = ℕ} 5 5
mutual_exclusion_example = mutual_exclusion _ (inl first_holds) 5 5 (refl, refl) (refl, refl)

removed_example : force_unlock_if_dead os_gone stuck_dir ≡ (removed_orphan, stuck_dir)
unfolding force_unlock_if_dead shim_holder_provably_dead shim_read_holder get_field text_eq
removed_example = refl

-- Node without `flockSync`, where the process 43 finds an orphan.
abbrev host_43 : Host
host_43 = record {
  os = os_gone;
  around = around;
  ps_ppid = λ n. err [];
  has_flock = false;
  flock_once = λ n. ok false;
  unsafe_lockless = false;
  self = 43;
  own = own_text;
}

abbrev locked_by_43 : LockState
locked_by_43 = record {
  dir = record { lockfile = some own_text; can_create = true; can_remove = true };
  entry = some (digits 43);
  flocked = false;
}

acquires_43 :
    acquire_exclusive host_43 30 2 (record { dir = orphan_dir; entry = none; flocked = false })
    ≡ some (ok by_shim, locked_by_43)
unfolding acquire_exclusive witseal.Lock.Ancestor.held_by_ancestor
acquires_43 =
    ap (shim_result host_43 30 (record { dir = orphan_dir; entry = none; flocked = false }))
      acquire_shim-takes_over_example

abbrev count_dir : LockState → Result Bool × LockState
count_dir s = (ok s.dir.can_create, s)

with_exclusive-nested_example :
    with_exclusive host_43 30 0 count_dir locked_by_43 ≡ some (ok true, locked_by_43)
with_exclusive-nested_example =
    with_exclusive-nested host_43 30 2 0 count_dir
      (record { dir = orphan_dir; entry = none; flocked = false }) locked_by_43 by_shim acquires_43
      (λ h. cc)

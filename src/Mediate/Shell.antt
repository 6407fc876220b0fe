-- ===== src/Mediate/Shell.antt =====
-- `mediateShell` of src/execution/mediator.ts. What the child process does is a parameter; the kill that
-- the timeout sends is part of how it ends.
use witseal.Prelude.{List, [], ◌∷◌, Option, none, some, if◌then◌else◌}
use witseal.Prelude.Text.{Text, codes, join}
use witseal.Json.{ℤ, negsuc}
use witseal.Json.Canonical.{text_ltb}
use witseal.Schema.Intent.{ShellCommandIntent}
use witseal.Schema.Execution.{ExecutionResult}
use witseal.Capture.{Bytes, Codecs, summarize, write_all, new_capture, head_tail_bytes}

-- How the child ended: at its exit, with what it was found under, or by an error of the spawn.
pub data ChildEnd : Type 0 where
  exited : Option ℤ → Option Text → Option Text → ChildEnd
  spawn_failed : Text → ChildEnd

pub record ChildRun : Type 0 where
  pub ended : ChildEnd
  pub stdout : List Bytes
  pub stderr : List Bytes

-- A variable and its value
abbrev pub Environment : Type 0
Environment = List (Text × Text)

pub record ShellHost : Type 0 where
  pub codecs : Codecs
  pub encode_utf8 : Text → Bytes
  pub process_env : Text → Option Text
  pub spawn : Text → List Text → Text → Environment → ChildRun

unfoldable pub default_env_keys : List Text
default_env_keys =
    codes "PATH"
    ∷ codes "HOME"
    ∷ codes "USER"
    ∷ codes "LOGNAME"
    ∷ codes "LANG"
    ∷ codes "LC_ALL"
    ∷ codes "TERM"
    ∷ codes "TMPDIR"
    ∷ []

-- `keys.slice().sort()`
abbrev insert_key : Text → List Text → List Text
insert_key k [] = k ∷ []
insert_key k (j ∷ ks) = let rest = insert_key k ks in if text_ltb j k then j ∷ rest else k ∷ j ∷ ks

abbrev sort_keys : List Text → List Text
sort_keys [] = []
sort_keys (k ∷ ks) = insert_key k (sort_keys ks)

abbrev first_given : Option (List Text) → Option (List Text) → List Text → List Text
first_given (some keys) more default = keys
first_given none (some keys) default = keys
first_given none none default = default

module _ (host : ShellHost) where
  open host use {codecs, encode_utf8, process_env, spawn}
  open codecs use {sha256_hex}

  abbrev with_value : Text → Option Text → Environment → Environment
  with_value k none env = env
  with_value k (some v) env = (k, v) ∷ env

  unfoldable pub filter_env : List Text → Environment
  filter_env [] = []
  filter_env (k ∷ keys) = with_value k (process_env k) (filter_env keys)

  abbrev code_of : ChildEnd → ℤ
  code_of (exited (some code) signal spawnfile) = code
  code_of (exited none signal spawnfile) = negsuc 0
  code_of (spawn_failed e) = negsuc 0

  abbrev signal_of : ChildEnd → Option Text
  signal_of (exited code signal spawnfile) = signal
  signal_of (spawn_failed e) = none

  abbrev resolved : Text → ChildEnd → Text
  resolved executable (exited code signal (some spawnfile)) = spawnfile
  resolved executable _ = executable

  abbrev error_of : ChildEnd → Option Text
  error_of (exited code signal spawnfile) = none
  error_of (spawn_failed e) = some e

  -- `options.envKeys` first
  unfoldable pub mediate_shell :
      Option (List Text) → Text → Text → ShellCommandIntent → ExecutionResult
  unfolding default_env_keys filter_env
  mediate_shell env_keys started_at finished_at intent =
      let requested_keys = first_given env_keys intent.env_keys_passed default_env_keys in
      let run = spawn intent.executable intent.args intent.cwd (filter_env requested_keys) in
      record {
        started_at = started_at;
        finished_at = finished_at;
        exit_code = code_of run.ended;
        signal = signal_of run.ended;
        stdout = summarize codecs (write_all head_tail_bytes new_capture run.stdout);
        stderr = summarize codecs (write_all head_tail_bytes new_capture run.stderr);
        executable_resolved = resolved intent.executable run.ended;
        env_keys_hash = sha256_hex (encode_utf8 (join (codes "\n") (sort_keys requested_keys)));
        spawn_error = error_of run.ended;
      }

-- ===== src/Mediate.antt =====
-- src/execution/mediator.ts, the mediation of file_write and file_read on a file system.
pub mod Shell
pub mod Safe
pub mod Outcome
pub mod Tests
use witseal.Prelude.{
  ℕ, zero, suc, Bool, true, false, not, ◌==◌, ltb, List, [], ◌∷◌, ◌++◌, Option, none, some, Result,
  ok, err, if◌then◌else◌, length, take,
}
use witseal.Prelude.Text.{Text, codes, text_eq, trim}
use witseal.Json.{pos}
use witseal.Json.Decimal.{digits}
use witseal.Schema.Intent.{
  FileWriteIntent, FileReadIntent, WriteMode, overwrite, append, create_only, Intent, write, read,
  shell,
}
use witseal.Schema.Execution.{StreamCapture, ExecutionResult}
use witseal.Capture.{Bytes, Codecs, summarize, write_all, new_capture, head_tail_bytes}

-- An error of the file system: `e.code` and `e.message`
pub record NodeError : Type 0 where
  pub code : Text
  pub message : Text

pub data Entry : Type 0 where
  file : Bytes → Entry
  directory link other_entry : Entry

-- What is at each path, the links not followed
abbrev pub FileSystem : Type 0
FileSystem = Text → Option Entry

-- Node and the operating system. `stat_error` and `open_error` are errors other than that of a missing
-- or an existing file; `fault` is the error that ends a write behind so many bytes; `written` is how many
-- of so many bytes a single `write` takes; `chunks` is how a stream cuts a file; `same_file` tells whether
-- two paths name one file, by a link in a directory above or a hard link.
pub record FileHost : Type 0 where
  pub codecs : Codecs
  pub encode_utf8 : Text → Bytes
  pub to_lower_case : Text → Text
  pub resolve_path : Text → Text
  pub dirname : Text → Text
  pub stat_error : Text → Option NodeError
  pub open_error : Text → Option NodeError
  pub fault : Option (ℕ × NodeError)
  pub written : ℕ → ℕ
  pub read_error : Option NodeError
  pub chunks : Bytes → List Bytes
  pub same_file : Text → Text → Bool

pub data Content : Type 0 where
  buffer : Bytes → Content
  text : Text → Content

abbrev pub enoent : Text → NodeError
enoent path = record {
  code = codes "ENOENT";
  message = codes "no such file or directory, lstat '" ++ (path ++ codes "'");
}

abbrev pub eexist : Text → NodeError
eexist path = record {
  code = codes "EEXIST";
  message = codes "file already exists, open '" ++ (path ++ codes "'");
}

-- The errors of Node have a code.
unfoldable pub format_node_error : NodeError → Text
format_node_error e = trim (e.code ++ (codes ": " ++ e.message))

-- A write shows at every path that names the same file.
abbrev pub put : (Text → Text → Bool) → FileSystem → Text → Entry → FileSystem
put same_file fs path entry q = if same_file q path then some entry else fs q

abbrev pub bytes_at : Option Entry → Bytes
bytes_at (some (file bytes)) = bytes
bytes_at _ = []

abbrev pub write_executable : Text
write_executable = codes "witseal:file-write"

abbrev pub read_executable : Text
read_executable = codes "witseal:file-read"

-- The bytes behind the old ones, up to a fault.
abbrev pub write_until :
    (Text → Text → Bool)
    → Option (ℕ × NodeError)
    → FileSystem
    → Text
    → Bytes
    → Bytes
    → Option NodeError × FileSystem
write_until same_file none fs path old bytes = (none, put same_file fs path (file (old ++ bytes)))
write_until same_file (some (n, e)) fs path old bytes =
    (some e, put same_file fs path (file (old ++ take n bytes)))

module _ (host : FileHost) where
  open host use {
    codecs, encode_utf8, to_lower_case, resolve_path, dirname, stat_error, open_error, fault,
    written, read_error, chunks, same_file,
  }
  open codecs use {sha256_hex}

  unfoldable pub normalize_content : Content → Bytes
  normalize_content (buffer b) = b
  normalize_content (text t) = encode_utf8 t

  abbrev pub parent_entry : Text → Option Entry → Option Text
  parent_entry parent none = some (codes "ENOENT: parent directory does not exist: " ++ parent)
  parent_entry parent (some link) =
      some (codes "path contains a symbolic link at parent: " ++ parent)
  parent_entry parent (some directory) = none
  parent_entry parent (some _) = some (codes "parent is not a directory: " ++ parent)

  abbrev pub target_entry : Bool → Text → Option Entry → Option Text
  target_entry required path none =
      if required then some (codes "ENOENT: no such file: " ++ path) else none
  target_entry required path (some link) = some (codes "target path is a symbolic link")
  target_entry required path (some directory) =
      some (codes "EISDIR: target path is a directory: " ++ path)
  target_entry required path (some other_entry) =
      some (codes "target path is not a regular file: " ++ path)
  target_entry required path (some (file b)) = none

  abbrev pub unless_stat_error : Text → Option Text → Option Text
  unless_stat_error path found = elim (stat_error path) [
    | some e ↦ some (format_node_error e)
    | none ↦ found
  ]

  -- The reason of a refusal, or `none`
  unfoldable pub validate_path_safety : FileSystem → Text → Bool → Option Text
  unfolding format_node_error
  validate_path_safety fs path required =
      elim (unless_stat_error (dirname path) (parent_entry (dirname path) (fs (dirname path)))) [
        | some refusal ↦ some refusal
        | none ↦ unless_stat_error path (target_entry required path (fs path))
      ]

  unfoldable pub empty_stream_capture : StreamCapture
  empty_stream_capture = record {
    total_bytes = 0;
    content_hash = sha256_hex [];
    head = none;
    tail = none;
    head_bytes = 0;
    tail_bytes = 0;
    truncated = false;
  }

  unfoldable pub empty_env_keys_hash : Text
  empty_env_keys_hash = sha256_hex (encode_utf8 [])

  abbrev summary_capture : Text → StreamCapture
  summary_capture [] = empty_stream_capture
  summary_capture (c ∷ s) =
      let bytes = encode_utf8 (c ∷ s) in
      record {
        total_bytes = length bytes;
        content_hash = sha256_hex bytes;
        head = some (c ∷ s);
        tail = none;
        head_bytes = length bytes;
        tail_bytes = 0;
        truncated = false;
      }

  unfoldable pub file_result : Text → Text → Text → Option Text → Text → ExecutionResult
  unfolding empty_stream_capture empty_env_keys_hash
  file_result executable started_at finished_at spawn_error summary = record {
    started_at = started_at;
    finished_at = finished_at;
    exit_code = elim spawn_error [ none ↦ pos 0 | some e ↦ pos 1 ];
    signal = none;
    stdout = summary_capture summary;
    stderr = empty_stream_capture;
    executable_resolved = executable;
    env_keys_hash = empty_env_keys_hash;
    spawn_error = spawn_error;
  }

  abbrev pub write_bytes : FileSystem → Text → Bytes → Bytes → Option NodeError × FileSystem
  write_bytes fs path old bytes = write_until same_file fault fs path old bytes

  abbrev pub create_new : FileSystem → Text → Bytes → Option Entry → Option NodeError × FileSystem
  create_new fs path bytes (some entry) = (some (eexist path), fs)
  create_new fs path bytes none = write_bytes fs path [] (take (written (length bytes)) bytes)

  -- The open of the file in a mode, and the write behind it
  abbrev pub open_and_write : WriteMode → FileSystem → Text → Bytes → Option NodeError × FileSystem
  open_and_write overwrite fs path bytes = write_bytes fs path [] bytes
  open_and_write append fs path bytes = write_bytes fs path (bytes_at (fs path)) bytes
  open_and_write create_only fs path bytes = create_new fs path bytes (fs path)

  abbrev pub unless_refused :
      Option NodeError → WriteMode → FileSystem → Text → Bytes → Option NodeError × FileSystem
  unless_refused (some e) mode fs path bytes = (some e, fs)
  unless_refused none mode fs path bytes = open_and_write mode fs path bytes

  unfoldable pub perform_write :
      WriteMode → FileSystem → Text → Bytes → Option NodeError × FileSystem
  perform_write mode fs path bytes = unless_refused (open_error path) mode fs path bytes

  abbrev size_error : ℕ → ℕ → Text
  size_error declared actual =
      codes "content size mismatch: declared "
      ++ (digits declared ++ (codes " bytes, actual " ++ (digits actual ++ codes " bytes")))

  abbrev hash_error : Text → Text → Text
  hash_error declared actual =
      codes "content hash mismatch: declared " ++ (declared ++ (codes ", actual " ++ actual))

  module _ (started_at finished_at : Text) where
    abbrev failed : Text → Text → ExecutionResult
    failed executable message = file_result executable started_at finished_at (some message) []

    abbrev wrote : Text → Bytes → ExecutionResult
    wrote path bytes =
        file_result write_executable started_at finished_at none
          (codes "wrote " ++ (digits (length bytes) ++ (codes " bytes to " ++ (path ++ 10 ∷ []))))

    abbrev pub after_write :
        Text → Bytes → Option NodeError × FileSystem → ExecutionResult × FileSystem
    after_write path bytes (some e, fs) = (failed write_executable (format_node_error e), fs)
    after_write path bytes (none, fs) = (wrote path bytes, fs)

    abbrev pub write_if_safe :
        FileWriteIntent → Text → Bytes → FileSystem → Option Text → ExecutionResult × FileSystem
    write_if_safe intent path bytes fs (some refusal) = (failed write_executable refusal, fs)
    write_if_safe intent path bytes fs none =
        after_write path bytes (perform_write intent.mode fs path bytes)

    abbrev pub write_declared :
        FileWriteIntent → Text → Bytes → FileSystem → ExecutionResult × FileSystem
    write_declared intent path bytes fs =
        if not (length bytes == intent.content_size_bytes)
        then (failed write_executable (size_error intent.content_size_bytes (length bytes)), fs)
        else if not (text_eq (sha256_hex bytes) (to_lower_case intent.content_hash))
        then (failed write_executable (hash_error intent.content_hash (sha256_hex bytes)), fs)
        else write_if_safe intent path bytes fs (validate_path_safety fs path false)

    unfoldable pub mediate_file_write :
        FileWriteIntent → Option Content → FileSystem → ExecutionResult × FileSystem
    unfolding perform_write format_node_error file_result normalize_content validate_path_safety
    mediate_file_write intent none fs =
        (failed write_executable (codes "file_write requires options.content"), fs)
    mediate_file_write intent (some content) fs =
        write_declared intent (resolve_path intent.path) (normalize_content content) fs

    abbrev read_done : Bytes → ExecutionResult
    read_done bytes = record {
      started_at = started_at;
      finished_at = finished_at;
      exit_code = pos 0;
      signal = none;
      stdout = summarize codecs (write_all head_tail_bytes new_capture (chunks bytes));
      stderr = empty_stream_capture;
      executable_resolved = read_executable;
      env_keys_hash = empty_env_keys_hash;
      spawn_error = none;
    }

    abbrev read_if_safe : Bytes → Option Text → ExecutionResult
    read_if_safe bytes (some refusal) = failed read_executable refusal
    read_if_safe bytes none = elim read_error [
      | some e ↦ failed read_executable (format_node_error e)
      | none ↦ read_done bytes
    ]

    unfoldable pub mediate_file_read : FileReadIntent → FileSystem → ExecutionResult
    unfolding format_node_error file_result validate_path_safety empty_stream_capture
        empty_env_keys_hash
    mediate_file_read intent fs =
        let path = resolve_path intent.path in
        read_if_safe (bytes_at (fs path)) (validate_path_safety fs path true)

    unfoldable pub mediate_file :
        Intent → Option Content → FileSystem → ExecutionResult × FileSystem
    unfolding mediate_file_write mediate_file_read
    mediate_file (write intent) content fs = mediate_file_write intent content fs
    mediate_file (read intent) content fs = (mediate_file_read intent fs, fs)
    mediate_file (shell intent) content fs = (
      failed (codes "witseal:file-mediator")
          (codes "mediateFile invoked with unsupported action_type=shell_command"),
      fs,
    )

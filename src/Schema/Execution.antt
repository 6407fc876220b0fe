-- ===== src/Schema/Execution.antt =====
-- schemas/execution-result.schema.ts
use witseal.Prelude.{ℕ, Bool, Option}
use witseal.Prelude.Text.{Text, codes}
use witseal.Json.{Value, end, field, str, bool, obj, nat, nullable, ℤ, num, integer}

pub record StreamCapture : Type 0 where
  pub total_bytes : ℕ
  pub content_hash : Text
  pub head : Option Text
  pub tail : Option Text
  pub head_bytes : ℕ
  pub tail_bytes : ℕ
  pub truncated : Bool

pub record ExecutionResult : Type 0 where
  pub started_at : Text
  pub finished_at : Text
  pub exit_code : ℤ
  pub signal : Option Text
  pub stdout : StreamCapture
  pub stderr : StreamCapture
  pub executable_resolved : Text
  pub env_keys_hash : Text
  pub spawn_error : Option Text

unfoldable pub stream_capture_value : StreamCapture → Value
stream_capture_value s = obj (
    field (codes "total_bytes") (nat s.total_bytes) (
      field (codes "content_hash") (str s.content_hash) (
        field (codes "head") (nullable str s.head) (
          field (codes "tail") (nullable str s.tail) (
            field (codes "head_bytes") (nat s.head_bytes) (
              field (codes "tail_bytes") (nat s.tail_bytes)
                (field (codes "truncated") (bool s.truncated) end)))))))

unfoldable pub execution_result_value : ExecutionResult → Value
unfolding stream_capture_value
execution_result_value r = obj (
    field (codes "schema_version") (str (codes "witseal.execution.v0.1")) (
      field (codes "started_at") (str r.started_at) (
        field (codes "finished_at") (str r.finished_at) (
          field (codes "exit_code") (num (integer r.exit_code)) (
            field (codes "signal") (nullable str r.signal) (
              field (codes "stdout") (stream_capture_value r.stdout) (
                field (codes "stderr") (stream_capture_value r.stderr) (
                  field (codes "executable_resolved") (str r.executable_resolved) (
                    field (codes "env_keys_hash") (str r.env_keys_hash)
                      (field (codes "spawn_error") (nullable str r.spawn_error) end))))))))))

-- ===== src/Schema/Intent.antt =====
-- schemas/intent.schema.ts
use witseal.Prelude.{ℕ, Bool, List, Option, map}
use witseal.Prelude.Text.{Text, codes}
use witseal.Json.{Value, end, field, str, bool, arr, obj, nat, items, optional}

pub data RiskClass : Type 0 where
  c0 c1 c2 c3 c4 : RiskClass

pub risk_class_text : RiskClass → Text
risk_class_text c0 = codes "C0"
risk_class_text c1 = codes "C1"
risk_class_text c2 = codes "C2"
risk_class_text c3 = codes "C3"
risk_class_text c4 = codes "C4"

pub data ActionType : Type 0 where
  shell_command file_write file_read : ActionType

pub record ShellCommandIntent : Type 0 where
  pub executable : Text
  pub args : List Text
  pub cwd : Text
  pub env_keys_passed : Option (List Text)
  pub use_tty : Bool

pub data WriteMode : Type 0 where
  overwrite append create_only : WriteMode

pub record FileWriteIntent : Type 0 where
  pub path : Text
  pub content_hash : Text
  pub content_size_bytes : ℕ
  pub mode : WriteMode

pub record FileReadIntent : Type 0 where
  pub path : Text

-- The discriminated union, by `action_type`.
pub data Intent : Type 0 where
  shell : ShellCommandIntent → Intent
  write : FileWriteIntent → Intent
  read : FileReadIntent → Intent

abbrev pub action_type : Intent → ActionType
action_type (shell i) = shell_command
action_type (write i) = file_write
action_type (read i) = file_read

pub record ClassifiedIntent : Type 0 where
  pub intent_id : Text
  pub intent : Intent
  pub risk_class : RiskClass
  pub classification_reasons : List Text
  pub classifier_version : Text

abbrev pub texts_value : List Text → Value
texts_value ts = arr (items (map str ts))

write_mode_text : WriteMode → Text
write_mode_text overwrite = codes "overwrite"
write_mode_text append = codes "append"
write_mode_text create_only = codes "create_only"

unfoldable pub intent_value : Intent → Value
unfolding write_mode_text
intent_value (shell i) = obj (
    field (codes "action_type") (str (codes "shell_command")) (
      field (codes "executable") (str i.executable) (
        field (codes "args") (texts_value i.args) (
          field (codes "cwd") (str i.cwd) (
            optional (codes "env_keys_passed") texts_value i.env_keys_passed
              (field (codes "use_tty") (bool i.use_tty) end))))))
intent_value (write i) = obj (
    field (codes "action_type") (str (codes "file_write")) (
      field (codes "path") (str i.path) (
        field (codes "content_hash") (str i.content_hash) (
          field (codes "content_size_bytes") (nat i.content_size_bytes)
            (field (codes "mode") (str (write_mode_text i.mode)) end)))))
intent_value (read i) =
    obj (
      field (codes "action_type") (str (codes "file_read")) (field (codes "path") (str i.path) end))

unfoldable pub classified_intent_value : ClassifiedIntent → Value
unfolding intent_value risk_class_text
classified_intent_value c = obj (
    field (codes "schema_version") (str (codes "witseal.intent.v0.1")) (
      field (codes "intent_id") (str c.intent_id) (
        field (codes "intent") (intent_value c.intent) (
          field (codes "risk_class") (str (risk_class_text c.risk_class)) (
            field (codes "classification_reasons") (texts_value c.classification_reasons)
              (field (codes "classifier_version") (str c.classifier_version) end))))))

-- ===== src/Risk/Classify.antt =====
-- `classify` and the functions of the three kinds of intents.
use witseal.Prelude.{Bool, true, false, List, [], ◌∷◌, ◌++◌, if◌then◌else◌}
use witseal.Prelude.Text.{Text, codes, join}
use witseal.Schema.Intent.{
  RiskClass, c0, c1, c2, c3, c4, Intent, shell, write, read, ShellCommandIntent, FileWriteIntent,
  FileReadIntent, WriteMode, overwrite,
}
use witseal.Risk.{Matcher, PatternRow, ClassificationResult, classified}
use witseal.Risk.Tables.{c4_patterns, c3_patterns, c2_patterns, c0_patterns}

abbrev pub full_command : ShellCommandIntent → Text
full_command i = i.executable ++ 32 ∷ join (codes " ") i.args

abbrev pub default_shell : ClassificationResult
default_shell = classified c1 (codes "shell command, no high-risk pattern matched")

abbrev pub is_overwrite : WriteMode → Bool
is_overwrite overwrite = true
is_overwrite _ = false

module _ (matches : Matcher) where
  -- One loop over a table, and what is done when it ends without a return.
  unfoldable pub try_table :
      RiskClass → List PatternRow → Text → ClassificationResult → ClassificationResult
  try_table c [] command otherwise = otherwise
  try_table c (r ∷ rows) command otherwise =
      if matches r.pattern command
      then classified c r.reason
      else try_table c rows command otherwise

  -- The four loops, over any tables.
  unfoldable pub try_tables :
      List PatternRow
      → List PatternRow
      → List PatternRow
      → List PatternRow
      → Text
      → ClassificationResult
  unfolding try_table
  try_tables t4 t3 t2 t0 command =
      try_table c4 t4 command
        (try_table c3 t3 command (try_table c2 t2 command (try_table c0 t0 command default_shell)))

  unfoldable pub classify_shell : ShellCommandIntent → ClassificationResult
  classify_shell intent =
      try_tables c4_patterns c3_patterns c2_patterns c0_patterns (full_command intent)

  unfoldable pub classify_file_write : FileWriteIntent → ClassificationResult
  classify_file_write intent =
      if matches (codes "^\\/(etc|usr|bin|sbin|boot|sys|proc|root)\\b") intent.path
      then classified c4 (codes "write to system-critical path")
      else if matches (codes "\\/\\.(bashrc|zshrc|profile|ssh\\/|gnupg\\/|aws\\/|netrc)")
          intent.path
      then classified c3 (codes "write to credentials or shell-config file")
      else if is_overwrite intent.mode
      then classified c2 (codes "overwrite existing file")
      else classified c1 (codes "file write (non-overwrite, non-system)")

  unfoldable pub classify_file_read : FileReadIntent → ClassificationResult
  classify_file_read intent =
      if matches (codes "\\/\\.(ssh\\/|gnupg\\/|aws\\/credentials|netrc)") intent.path
      then classified c3 (codes "read from credentials file")
      else classified c0 (codes "file read (non-credential)")

  unfoldable pub classify : Intent → ClassificationResult
  classify (shell i) = classify_shell i
  classify (write i) = classify_file_write i
  classify (read i) = classify_file_read i

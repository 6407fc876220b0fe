-- ===== src/Risk.antt =====
-- src/risk/classifier.ts: the risk class of an intent, by tables of patterns.
pub mod Tables
pub mod Classify
pub mod Escalation
pub mod Tests
use witseal.Prelude.{Bool, true, false, List, [], ◌∷◌, ◌++◌, Option, none, some, if◌then◌else◌}
use witseal.Prelude.Text.{Text, codes, join}
use witseal.Schema.Intent.{
  RiskClass, c0, c1, c2, c3, c4, Intent, shell, write, read, ShellCommandIntent, FileWriteIntent,
  FileReadIntent, WriteMode, overwrite,
}

-- `pattern.test(subject)`, by the source of a pattern without flags
abbrev pub Matcher : Type 0
Matcher = Text → Text → Bool

pub record PatternRow : Type 0 where
  pub pattern : Text
  pub reason : Text

abbrev pub row : Text → Text → PatternRow
row p r = record { pattern = p; reason = r }

pub record ClassificationResult : Type 0 where
  pub risk_class : RiskClass
  pub reasons : List Text

abbrev pub classified : RiskClass → Text → ClassificationResult
classified c reason = record { risk_class = c; reasons = reason ∷ [] }

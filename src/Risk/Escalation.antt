-- ===== src/Risk/Escalation.antt =====
-- A command is never classed below a pattern that matches it.
use witseal.Prelude.{
  ℕ, ◌≡◌, ◌≤◌, sym, ap, ◌∙◌, true, false, List, [], ◌∷◌, arith, inl, inr, Bool-cases,
}
use witseal.Prelude.Text.{Text}
use witseal.Schema.Intent.{RiskClass, c2, c3, c4, ShellCommandIntent}
use witseal.Policy.{risk_number}
use witseal.Policy.Spec.{Among}
use witseal.Risk.{Matcher, PatternRow, ClassificationResult}
use witseal.Risk.Tables.{c4_patterns, c3_patterns, c2_patterns}
use witseal.Risk.Classify.{try_table, try_tables, classify_shell, full_command}

-- A pattern that elevates a command, and the number of its class.
pub data Elevates : PatternRow → ℕ → Type 0 where
  in_c4 : (r : PatternRow) → Among r c4_patterns → Elevates r 4
  in_c3 : (r : PatternRow) → Among r c3_patterns → Elevates r 3
  in_c2 : (r : PatternRow) → Among r c2_patterns → Elevates r 2

true-false : ¬ (true ≡ false)
true-false h = cc

module _ (matches : Matcher) where
  -- A lower bound that both the table's class and the rest have.
  try_table_at_least :
      (n : ℕ) (c : RiskClass) (rows : List PatternRow) (command : Text)
      (otherwise : ClassificationResult)
      → n ≤ risk_number c
      → n ≤ risk_number otherwise.risk_class
      → n ≤ risk_number (try_table matches c rows command otherwise).risk_class
  unfolding try_table
  try_table_at_least n c [] command otherwise h k = k
  try_table_at_least n c (r ∷ rows) command otherwise h k =
      elim (Bool-cases (matches r.pattern command)) [
        | inl hit ↦ rw hit h
        | inr miss ↦ rw miss (try_table_at_least n c rows command otherwise h k)
      ]

  try_table_hit :
      (c : RiskClass) (rows : List PatternRow) (command : Text) (otherwise : ClassificationResult)
      (r : PatternRow)
      → Among r rows
      → matches r.pattern command ≡ true
      → risk_number c ≤ risk_number (try_table matches c rows command otherwise).risk_class
  unfolding try_table
  try_table_hit c [] command otherwise r listed hit = absurd listed
  try_table_hit c (s ∷ rows) command otherwise r listed hit =
      elim (Bool-cases (matches s.pattern command)) [
        | inl first ↦ rw first (omega arith)
        | inr miss ↦ rw miss (elim listed [
          | inl same ↦
              absurd (true-false (sym hit ∙ ap (λ x. matches x.pattern command) same ∙ miss))
          | inr rest ↦ try_table_hit c rows command otherwise r rest hit
        ])
      ]

  -- A command that a pattern of one of the three elevating tables matches has at least the class of that table.
  pub classify_shell-Elevates :
      (i : ShellCommandIntent) (r : PatternRow) (n : ℕ)
      → Elevates r n
      → matches r.pattern (full_command i) ≡ true
      → n ≤ risk_number (classify_shell matches i).risk_class
  unfolding classify_shell try_tables
  classify_shell-Elevates i r n (in_c4 _ listed) hit =
      try_table_hit c4 c4_patterns (full_command i) _ r listed hit
  classify_shell-Elevates i r n (in_c3 _ listed) hit =
      try_table_at_least 3 c4 c4_patterns (full_command i) _ (omega arith)
        (try_table_hit c3 c3_patterns (full_command i) _ r listed hit)
  classify_shell-Elevates i r n (in_c2 _ listed) hit =
      try_table_at_least 2 c4 c4_patterns (full_command i) _ (omega arith) (
        try_table_at_least 2 c3 c3_patterns (full_command i) _ (omega arith)
          (try_table_hit c2 c2_patterns (full_command i) _ r listed hit))

-- ===== src/Risk/Tests.antt =====
-- `sudo ls`, with a matcher that knows one pattern.
use witseal.Prelude.{◌≤◌, refl, false, [], ◌∷◌, none, inl, inr}
use witseal.Prelude.Text.{codes, text_eq, text_eq_refl}
use witseal.Schema.Intent.{ShellCommandIntent}
use witseal.Policy.{risk_number}
use witseal.Policy.Spec.{Among}
use witseal.Risk.{Matcher, row, PatternRow}
use witseal.Risk.Tables.{c4_patterns}
use witseal.Risk.Classify.{classify_shell}
use witseal.Risk.Escalation.{in_c4, classify_shell-Elevates}

-- Only `\bsudo\b` matches, and every text.
abbrev knows_sudo : Matcher
knows_sudo pattern subject = text_eq pattern (codes "\\bsudo\\b")

abbrev sudo_ls : ShellCommandIntent
sudo_ls = record {
  executable = codes "sudo";
  args = codes "ls" ∷ [];
  cwd = codes "/";
  env_keys_passed = none;
  use_tty = false;
}

abbrev sudo_row : PatternRow
sudo_row = row (codes "\\bsudo\\b") (codes "privilege escalation via sudo")

sudo_row-Among : Among sudo_row c4_patterns
sudo_row-Among = inr (inr (inl refl))

classify_shell-Elevates_example : 4 ≤ risk_number (classify_shell knows_sudo sudo_ls).risk_class
classify_shell-Elevates_example =
    classify_shell-Elevates knows_sudo sudo_ls sudo_row 4 (in_c4 sudo_row sudo_row-Among)
      (text_eq_refl (codes "\\bsudo\\b"))

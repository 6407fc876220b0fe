-- ===== src/Approval/Tests.antt =====
-- A run without a terminal whose allow-list names the rule.
use witseal.Prelude.{false, Option, none, some, if◌then◌else◌}
use witseal.Prelude.Text.{Text, codes, text_eq}
use witseal.Schema.Policy.{PolicyDecision, require_approval}
use witseal.Schema.Witness.Samples.{decision_with}
use witseal.Approval.{Prompt, no_terminal}

abbrev listing : Text → Option Text
listing name = if text_eq name (codes "WITSEAL_AUTO_APPROVE") then some (codes "r1, r2") else none

abbrev prompt : Prompt
prompt = record {
  env = listing;
  stderr_is_tty = false;
  terminal = no_terminal;
  approval_id = codes "apr_1";
  prompted_at = codes "t";
  resolved_at = codes "t";
  timeout_s = 60;
}

abbrev decision : PolicyDecision
decision = record (decision_with require_approval) {
  matched_rule =
      some (record { pack_id = codes "p"; rule_id = codes "r2"; pack_version = codes "1" });
}

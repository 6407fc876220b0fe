-- ===== src/Approval.antt =====
-- src/cli/approval.ts: how an approval is obtained. The terminal is what a read of /dev/tty gives; the
-- prompt that is written to it is left out.
pub mod Settings
pub mod Consent
pub mod Tests
use witseal.Prelude.{
  ℕ, Bool, true, false, not, ◌&&◌, ◌||◌, ◌==◌, List, [], ◌∷◌, ◌++◌, map, Option, none, some, Result,
  ok, err, ◌>>=◌, if◌then◌else◌, is_empty, some_of, keep,
}
use witseal.Prelude.Text.{Text, codes, text_eq, option_eq, split, trim}
use witseal.Schema.Approval.{
  ApprovalRecord, ApprovalPrincipal, ApprovalOutcome, approved, rejected, timed_out, PrincipalType,
  human, ci, IdentityOrigin, configured, fallback,
}
use witseal.Schema.Intent.{ClassifiedIntent}
use witseal.Schema.Policy.{PolicyDecision, MatchedRule}

-- A read of one byte: there is no terminal, it cannot be opened, it has ended, or a byte
pub data TerminalRead : Type 0 where
  no_terminal end_of_input : TerminalRead
  cannot_open : Text → TerminalRead
  byte : ℕ → TerminalRead

-- The process at the prompt. `timeout_s` is what `obtainApproval` reads of WITSEAL_APPROVAL_TIMEOUT.
pub record Prompt : Type 0 where
  pub env : Text → Option Text
  pub stderr_is_tty : Bool
  pub terminal : TerminalRead
  pub approval_id : Text
  pub prompted_at : Text
  pub resolved_at : Text
  pub timeout_s : ℕ

abbrev pub or_empty : Option Text → Text
or_empty none = []
or_empty (some t) = t

abbrev or_else : Option Text → Option Text → Option Text
or_else none t = t
or_else (some s) t = some s

-- A name that is set and not empty, or else the default, with the origin of the identity
abbrev principal_of : PrincipalType → Option Text → Text → ApprovalPrincipal
principal_of type (some (c ∷ s)) default = record {
  type = type;
  identifier = c ∷ s;
  identity_origin = some configured;
}
principal_of type _ default = record {
  type = type;
  identifier = default;
  identity_origin = some fallback;
}

unfoldable pub read_approval_char : TerminalRead → Result ApprovalOutcome
read_approval_char no_terminal = ok rejected
read_approval_char end_of_input = ok rejected
read_approval_char (cannot_open e) = err e
read_approval_char (byte c) = ok (if c == b'y' || c == b'Y' then approved else rejected)

module _ (prompt : Prompt) (intent : ClassifiedIntent) (decision : PolicyDecision) where
  open prompt use {env, stderr_is_tty, terminal, approval_id, prompted_at, resolved_at, timeout_s}

  abbrev record_of : ApprovalOutcome → ApprovalPrincipal → Option Text → ApprovalRecord
  record_of outcome principal reason = record {
    approval_id = approval_id;
    intent_id = intent.intent_id;
    prompted_at = prompted_at;
    resolved_at = resolved_at;
    outcome = outcome;
    principal = principal;
    reason = reason;
    timeout_seconds = timeout_s;
  }

  unfoldable pub allow_list : List Text
  allow_list =
      keep (λ s. not (is_empty s))
        (map trim (split b',' (or_empty (env (codes "WITSEAL_AUTO_APPROVE")))))

  abbrev pub is_listed : Text → Bool
  is_listed id = not (is_empty id) && some_of (text_eq id) allow_list

  abbrev pub is_allowed : Option MatchedRule → Bool
  is_allowed none = false
  is_allowed (some rule) = is_listed rule.rule_id

  abbrev rule_text : Option MatchedRule → Text
  rule_text none = codes "undefined"
  rule_text (some rule) = rule.rule_id

  abbrev ci_reason : Bool → Text
  ci_reason true =
      codes "auto-approved by WITSEAL_AUTO_APPROVE allow-list (rule: "
      ++ (rule_text decision.matched_rule ++ codes ")")
  ci_reason false = codes "CI context with no matching auto-approve allow-list entry"

  unfoldable pub obtain_via_ci : ApprovalRecord
  unfolding allow_list
  obtain_via_ci =
      let allowed = is_allowed decision.matched_rule in
      record_of (if allowed then approved else rejected)
        (principal_of ci (env (codes "WITSEAL_CI_PRINCIPAL")) (codes "ci-default"))
        (some (ci_reason allowed))

  abbrev pub tty_record : ApprovalOutcome → ApprovalRecord
  tty_record outcome =
      record_of outcome
        (principal_of human (or_else (env (codes "USER")) (env (codes "LOGNAME")))
          (codes "no-user-env"))
        none

  unfoldable pub obtain_via_tty : Result ApprovalRecord
  unfolding read_approval_char
  obtain_via_tty = read_approval_char terminal >>= λ outcome. ok (tty_record outcome)

  unfoldable pub obtain_via_callback : ApprovalRecord
  obtain_via_callback =
      record_of timed_out
        (record {
          type = ci;
          identifier = codes "callback-not-implemented";
          identity_origin = none;
        })
        (some (codes "callback mode not implemented in v0.1; treating as timeout"))

  abbrev pub is_callback : Bool
  is_callback = option_eq (env (codes "WITSEAL_APPROVAL_MODE")) (some (codes "callback"))

  abbrev pub is_interactive : Bool
  is_interactive = stderr_is_tty && is_empty (or_empty (env (codes "WITSEAL_NON_INTERACTIVE")))

  unfoldable pub obtain_approval : Result ApprovalRecord
  unfolding obtain_via_ci obtain_via_tty obtain_via_callback
  obtain_approval =
      if is_callback
      then ok obtain_via_callback
      else if not is_interactive
      then ok obtain_via_ci
      else obtain_via_tty

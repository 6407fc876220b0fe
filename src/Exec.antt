-- ===== src/Exec.antt =====
-- src/cli/exec.ts: the pipeline of a mediated shell command. Besides the log the state has the
-- commands that were run, the last one first, each with the log as it then was.
pub mod Outcomes
pub mod Gated
pub mod Tests
use witseal.Prelude.{
  ℕ, zero, Bool, true, false, not, ◌&&◌, ◌||◌, ◌==◌, List, [], ◌∷◌, ◌++◌, is_empty, Option, none,
  some, Result, ok, err, if◌then◌else◌,
}
use witseal.Prelude.Action.{Action, return, attempt, modify, ◌>>=◌, ◌>>◌}
use witseal.Prelude.Text.{Text, codes}
use witseal.Json.{ℤ, pos, negsuc}
use witseal.Schema.Intent.{RiskClass, Intent, shell, ShellCommandIntent, ClassifiedIntent}
use witseal.Schema.Policy.{Decision, allow, deny, require_approval, PolicyDecision}
use witseal.Schema.Approval.{
  ApprovalRecord, ApprovalOutcome, approved, rejected, timed_out, cancelled, IdentityOrigin,
}
use witseal.Schema.Execution.{ExecutionResult}
use witseal.Schema.Witness.{
  WitnessEvent, WitnessOutcome, allowed_executed, allowed_executed_with_error, approved_executed,
  approved_executed_with_error, denied_by_policy, denied_by_approval, no_policy_configured,
  witnessed_executed, witnessed_executed_with_error, pending,
}
use witseal.Log.{Parsers, LogFiles}
use witseal.Policy.{
  CompiledPack, evaluate, ExecutionMode, gate, witness, apply_constraint, is_require_approval,
}
use witseal.Emit.{
  Stamp, EmitInput, emit_witness_event, emit_intent_recorded, emit_execution_complete,
}
use witseal.Recovery.{run_recovery_if_needed}

pub record ExecOptions : Type 0 where
  pub command : Text
  pub args : List Text
  pub agent_id : Text
  pub identity_origin : Option IdentityOrigin
  pub cwd : Text
  pub segment_id : Text
  pub mode : ExecutionMode

-- What the pipeline calls: the classifier, the packs of the data directory (loading one may throw),
-- the prompt for an approval, the process that is spawned, the environment and fresh values.
pub record Surroundings : Type 0 where
  pub classify : Intent → RiskClass × List Text
  pub packs : Result (List CompiledPack)
  pub obtain_approval : ClassifiedIntent → PolicyDecision → Result ApprovalRecord
  pub mediate_shell : ShellCommandIntent → ExecutionResult
  pub allow_no_policy : Bool
  pub policy_dir : Text
  pub intent_id : Text
  pub recovery_stamp : Stamp
  pub first_stamp : Stamp
  pub second_stamp : Stamp

pub record ExecState : Type 0 where
  pub files : LogFiles
  pub runs : List (ShellCommandIntent × LogFiles)

-- A method of the log.
abbrev pub logged {ℓ} : {A : Type ℓ} → Action LogFiles A → Action ExecState A
logged m s = let (r, files) = m s.files in (r, record s { files = files })

abbrev pub is_witness : ExecutionMode → Bool
is_witness witness = true
is_witness gate = false

abbrev pub is_zero : ℤ → Bool
is_zero (pos n) = n == 0
is_zero (negsuc n) = false

abbrev pub is_set {ℓ} : {A : Type ℓ} → Option A → Bool
is_set none = false
is_set (some a) = true

abbrev pub had_error : ExecutionResult → Bool
had_error r = not (is_zero r.exit_code) || is_set r.spawn_error

abbrev pub outcome_by : Decision → Bool → Bool → ExecutionMode → WitnessOutcome
outcome_by allow was_approved failed mode =
    if failed then allowed_executed_with_error else allowed_executed
outcome_by _ was_approved failed witness =
    if failed then witnessed_executed_with_error else witnessed_executed
outcome_by _ true failed gate = if failed then approved_executed_with_error else approved_executed
outcome_by _ false failed gate = denied_by_policy

unfoldable pub compute_outcome : Decision → Bool → ExecutionResult → ExecutionMode → WitnessOutcome
compute_outcome policy_outcome was_approved result mode =
    outcome_by policy_outcome was_approved (had_error result) mode

-- `execResult.exit_code === -1 ? 1 : execResult.exit_code`
abbrev pub exit_status : ℤ → ℤ
exit_status (negsuc zero) = pos 1
exit_status code = code

abbrev pub exit_denied : ℤ
exit_denied = pos 100

abbrev pub is_approved : ApprovalOutcome → Bool
is_approved approved = true
is_approved _ = false

unfoldable pub no_policy_decision : Text → PolicyDecision
no_policy_decision policy_dir = record {
  outcome = deny;
  matched_rule = none;
  reason =
      codes "no policy packs configured at "
      ++ (policy_dir
          ++ codes
              "; runtime fails closed (P0-4). Set WITSEAL_UNSAFE_ALLOW_NO_POLICY=1 to proceed in advisory-only mode.");
  active_pack_hashes = [];
}

abbrev pub shell_intent : ExecOptions → ShellCommandIntent
shell_intent opts = record {
  executable = opts.command;
  args = opts.args;
  cwd = opts.cwd;
  env_keys_passed = none;
  use_tty = false;
}

module _ (parsers : Parsers) (sha256 : Text → Text) (around : Surroundings)
    (opts : ExecOptions) where
  unfoldable pub classified_intent : ClassifiedIntent
  classified_intent =
      let (risk_class, reasons) = around.classify (shell (shell_intent opts)) in
      record {
        intent_id = around.intent_id;
        intent = shell (shell_intent opts);
        risk_class = risk_class;
        classification_reasons = reasons;
        classifier_version = codes "witseal-classifier-1.2";
      }

  -- The input of an emission, which has no operation id.
  abbrev pub emit_input :
      PolicyDecision → Option ApprovalRecord → Option ExecutionResult → WitnessOutcome → EmitInput
  emit_input decision approval result outcome = record {
    classified_intent = classified_intent;
    policy_decision = decision;
    approval = approval;
    execution_result = result;
    outcome = outcome;
    agent_identifier = opts.agent_id;
    classifier_version = codes "witseal-classifier-1.2";
    identity_origin = opts.identity_origin;
    operation_id = none;
  }

  -- An action that does not run: the event, and then the exit code of a denial.
  unfoldable pub refuse :
      PolicyDecision → Option ApprovalRecord → WitnessOutcome → Action ExecState ℤ
  refuse decision approval outcome =
      logged (
        emit_witness_event parsers sha256 opts.segment_id around.first_stamp
          (emit_input decision approval none outcome))
      >>= λ event. return exit_denied

  -- The spawned process, with the log as it is at that time.
  abbrev pub run_command : Action ExecState ExecutionResult
  run_command s = (
    ok (around.mediate_shell (shell_intent opts)),
    record s { runs = (shell_intent opts, s.files) ∷ s.runs },
  )

  -- The event behind the run: `execution_complete`.
  unfoldable pub complete :
      Bool
      → PolicyDecision
      → Option ApprovalRecord
      → WitnessEvent
      → ExecutionResult
      → Action ExecState ℤ
  complete no_policy_proceed decision approval recorded result =
      let outcome =
        if no_policy_proceed
        then no_policy_configured
        else compute_outcome decision.outcome (is_set approval) result opts.mode in
      logged (
        emit_execution_complete parsers sha256 opts.segment_id around.second_stamp
          (emit_input decision approval (some result) outcome) recorded.event_id)
      >>= λ event. return (exit_status result.exit_code)

  -- Steps 6 to 10: `intent_recorded`, the run, and the event behind it.
  unfoldable pub execute : Bool → PolicyDecision → Option ApprovalRecord → Action ExecState ℤ
  execute no_policy_proceed decision approval =
      logged (
        emit_intent_recorded parsers sha256 opts.segment_id around.first_stamp
          (emit_input decision approval none pending))
      >>= λ recorded. run_command >>= complete no_policy_proceed decision approval recorded

  -- Step 5: the block that the constraint puts.
  unfoldable pub constrain : Bool → PolicyDecision → Option ApprovalRecord → Action ExecState ℤ
  constrain no_policy_proceed decision approval =
      if (apply_constraint decision opts.mode).block
      then refuse decision none denied_by_policy
      else execute no_policy_proceed decision approval

  -- After the prompt of step 4.
  unfoldable pub approve : Bool → PolicyDecision → ApprovalRecord → Action ExecState ℤ
  approve no_policy_proceed decision approval =
      if is_approved approval.outcome
      then constrain no_policy_proceed decision (some approval)
      else refuse decision (some approval) denied_by_approval

  unfoldable pub decide : Bool → PolicyDecision → Action ExecState ℤ
  decide no_policy_proceed decision =
      if not (is_witness opts.mode) && is_require_approval decision.outcome
      then attempt (around.obtain_approval classified_intent decision)
        >>= approve no_policy_proceed decision
      else constrain no_policy_proceed decision none

  -- Step 3, when the packs are loaded.
  unfoldable pub with_packs : List CompiledPack → Action ExecState ℤ
  with_packs packs =
      let no_policy_proceed = is_empty packs && (around.allow_no_policy || is_witness opts.mode) in
      if is_empty packs && not no_policy_proceed
      then refuse (no_policy_decision around.policy_dir) none no_policy_configured
      else decide no_policy_proceed (evaluate packs classified_intent)

  unfoldable pub run_exec : Action ExecState ℤ
  run_exec =
      logged (run_recovery_if_needed parsers sha256 opts.segment_id around.recovery_stamp)
      >>= λ recovered. attempt around.packs >>= with_packs

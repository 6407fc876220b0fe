-- ===== src/Emit.antt =====
-- src/witness/emit.ts: the drafts of witness events and the three functions that append them.
pub mod Drafts
pub mod Tests
use witseal.Prelude.{
  ℕ, Bool, true, false, not, if◌then◌else◌, List, [], ◌∷◌, ◌++◌, Option, none, some, Result, ok,
  err,
}
use witseal.Prelude.Action.{Action, throw}
use witseal.Prelude.Text.{Text, codes}
use witseal.Schema.Intent.{ClassifiedIntent}
use witseal.Schema.Policy.{PolicyDecision}
use witseal.Schema.Approval.{ApprovalRecord, IdentityOrigin}
use witseal.Schema.Execution.{ExecutionResult}
use witseal.Schema.Witness.{
  WitnessEvent, WitnessEventDraft, WitnessOutcome, pending, execution_lost, outcome_text, Versions,
}
use witseal.Log.{Parsers, LogFiles}
use witseal.Log.Methods.{append_draft_event}

pub record EmitInput : Type 0 where
  pub classified_intent : ClassifiedIntent
  pub policy_decision : PolicyDecision
  pub approval : Option ApprovalRecord
  pub execution_result : Option ExecutionResult
  pub outcome : WitnessOutcome
  pub agent_identifier : Text
  pub classifier_version : Text
  pub identity_origin : Option IdentityOrigin
  pub operation_id : Option Text

-- What one draft takes from outside: the random ids, the clock, the host's name and
-- the version of the package.
pub record Stamp : Type 0 where
  pub event_id : Text
  pub receipt_id : Text
  pub timestamp : Text
  pub hostname : Text
  pub witseal_version : Text

-- `hostname() || 'local'`
abbrev pub node_name : Text → Text
node_name [] = codes "local"
node_name (c ∷ s) = c ∷ s

unfoldable pub build_base_draft :
    Text → Stamp → EmitInput → Option Text → Option Text → ℕ → WitnessEventDraft
build_base_draft segment_id stamp input intent_recorded_event_id head sequence = record {
  event_id = stamp.event_id;
  chain_segment_id = segment_id;
  sequence = sequence;
  timestamp = stamp.timestamp;
  previous_event_hash = head;
  originating_node = node_name stamp.hostname;
  agent_identifier = input.agent_identifier;
  identity_origin = input.identity_origin;
  classified_intent = input.classified_intent;
  policy_decision = input.policy_decision;
  approval = input.approval;
  execution_result = input.execution_result;
  outcome = input.outcome;
  receipt_id = stamp.receipt_id;
  intent_recorded_event_id = intent_recorded_event_id;
  operation_id = input.operation_id;
  versions = record {
    witseal_runtime = stamp.witseal_version;
    classifier = input.classifier_version;
  };
}

abbrev pub is_pending : WitnessOutcome → Bool
is_pending pending = true
is_pending _ = false

-- `pending` and `execution_lost` are not final.
abbrev pub is_final : WitnessOutcome → Bool
is_final pending = false
is_final execution_lost = false
is_final _ = true

module _ (parsers : Parsers) (sha256 : Text → Text) (segment_id : Text) where
  unfoldable pub emit_witness_event : Stamp → EmitInput → Action LogFiles WitnessEvent
  emit_witness_event stamp input =
      append_draft_event parsers sha256 (build_base_draft segment_id stamp input none)

  abbrev has_result : EmitInput → Bool
  has_result input = elim input.execution_result [ none ↦ false | some r ↦ true ]

  unfoldable pub emit_intent_recorded : Stamp → EmitInput → Action LogFiles WitnessEvent
  emit_intent_recorded stamp input =
      if not (is_pending input.outcome)
      then throw (
          codes "emitIntentRecorded: outcome must be 'pending' (got "
          ++ (outcome_text input.outcome ++ codes ")"))
      else if has_result input
      then throw (codes "emitIntentRecorded: executionResult must be null (got non-null result)")
      else append_draft_event parsers sha256 (build_base_draft segment_id stamp input none)

  unfoldable pub emit_execution_complete : Stamp → EmitInput → Text → Action LogFiles WitnessEvent
  emit_execution_complete stamp input intent_recorded_event_id =
      if not (is_final input.outcome)
      then throw (
          codes "emitExecutionComplete: outcome must be a final outcome (got "
          ++ (outcome_text input.outcome ++ codes ")"))
      else append_draft_event parsers sha256
          (build_base_draft segment_id stamp input (some intent_recorded_event_id))

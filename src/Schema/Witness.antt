-- ===== src/Schema/Witness.antt =====
-- schemas/witness-event.schema.ts
pub mod Plain
pub mod Samples
use witseal.Prelude.{ℕ, Option}
use witseal.Prelude.Text.{Text, codes}
use witseal.Json.{Value, Fields, end, field, str, obj, nat, nullable, optional}
use witseal.Schema.Intent.{ClassifiedIntent, classified_intent_value}
use witseal.Schema.Policy.{PolicyDecision, policy_decision_value}
use witseal.Schema.Approval.{ApprovalRecord, IdentityOrigin, approval_value, identity_origin_value}
use witseal.Schema.Execution.{ExecutionResult, execution_result_value}

pub data WitnessOutcome : Type 0 where
  allowed_executed allowed_executed_with_error : WitnessOutcome
  approved_executed approved_executed_with_error : WitnessOutcome
  denied_by_policy denied_by_approval denied_by_classification_failure : WitnessOutcome
  no_policy_configured : WitnessOutcome
  witnessed_executed witnessed_executed_with_error : WitnessOutcome
  pending execution_lost : WitnessOutcome

unfoldable pub outcome_text : WitnessOutcome → Text
outcome_text allowed_executed = codes "allowed_executed"
outcome_text allowed_executed_with_error = codes "allowed_executed_with_error"
outcome_text approved_executed = codes "approved_executed"
outcome_text approved_executed_with_error = codes "approved_executed_with_error"
outcome_text denied_by_policy = codes "denied_by_policy"
outcome_text denied_by_approval = codes "denied_by_approval"
outcome_text denied_by_classification_failure = codes "denied_by_classification_failure"
outcome_text no_policy_configured = codes "no_policy_configured"
outcome_text witnessed_executed = codes "witnessed_executed"
outcome_text witnessed_executed_with_error = codes "witnessed_executed_with_error"
outcome_text pending = codes "pending"
outcome_text execution_lost = codes "execution_lost"

pub record Versions : Type 0 where
  pub witseal_runtime : Text
  pub classifier : Text

-- An event before its self-hash is computed. The literal `schema_version` and `versions.schema`
-- are the same in every event.
pub record WitnessEventDraft : Type 0 where
  pub event_id : Text
  pub chain_segment_id : Text
  pub sequence : ℕ
  pub timestamp : Text
  pub previous_event_hash : Option Text
  pub originating_node : Text
  pub agent_identifier : Text
  pub identity_origin : Option IdentityOrigin
  pub classified_intent : ClassifiedIntent
  pub policy_decision : PolicyDecision
  pub approval : Option ApprovalRecord
  pub execution_result : Option ExecutionResult
  pub outcome : WitnessOutcome
  pub receipt_id : Text
  pub intent_recorded_event_id : Option Text
  pub operation_id : Option Text
  pub versions : Versions

pub record WitnessEvent : Type 0 where
  pub draft : WitnessEventDraft
  pub open draft use *
  pub event_hash : Text

abbrev pub versions_value : Versions → Value
versions_value v = obj (
    field (codes "witseal_runtime") (str v.witseal_runtime) (
      field (codes "classifier") (str v.classifier)
        (field (codes "schema") (str (codes "witseal.witness.v0.1")) end)))

-- The properties of a draft, followed by those that the object has besides.
unfoldable pub draft_fields : WitnessEventDraft → Fields → Fields
unfolding outcome_text
draft_fields d rest = field (codes "schema_version") (str (codes "witseal.witness.v0.1")) (
    field (codes "event_id") (str d.event_id) (
      field (codes "chain_segment_id") (str d.chain_segment_id) (
        field (codes "sequence") (nat d.sequence) (
          field (codes "timestamp") (str d.timestamp) (
            field (codes "previous_event_hash") (nullable str d.previous_event_hash) (
              field (codes "originating_node") (str d.originating_node) (
                field (codes "agent_identifier") (str d.agent_identifier) (
                  optional (codes "identity_origin") identity_origin_value d.identity_origin (
                    field (codes "classified_intent") (classified_intent_value d.classified_intent)
                      (field (codes "policy_decision") (policy_decision_value d.policy_decision) (
                        field (codes "approval") (nullable approval_value d.approval) (
                          field (codes "execution_result")
                            (nullable execution_result_value d.execution_result)
                            (field (codes "outcome") (str (outcome_text d.outcome)) (
                              field (codes "receipt_id") (str d.receipt_id) (
                                optional (codes "intent_recorded_event_id") str
                                  d.intent_recorded_event_id
                                  (optional (codes "operation_id") str d.operation_id (
                                    field (codes "versions") (versions_value d.versions)
                                      rest)))))))))))))))))

unfoldable pub draft_value : WitnessEventDraft → Value
unfolding draft_fields
draft_value d = obj (draft_fields d end)

-- `{ ...draft, event_hash }`
unfoldable pub event_value : WitnessEvent → Value
unfolding draft_fields
event_value e = obj (draft_fields e.draft (field (codes "event_hash") (str e.event_hash) end))

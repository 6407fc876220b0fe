-- ===== src/Recovery.antt =====
-- src/witness/recovery.ts: an event that tells of an execution that was lost.
pub mod Racing
pub mod Tests
use witseal.Prelude.{
  ℕ, Bool, true, false, ◌&&◌, ◌+◌, leb, List, [], ◌∷◌, map, get_last?, Option, none, some, Result,
  ok, err, if◌then◌else◌,
}
use witseal.Prelude.Action.{Action, return, attempt, ◌>>=◌}
use witseal.Prelude.Text.{Text, codes, includes}
use witseal.Schema.Witness.{WitnessEvent, WitnessEventDraft, execution_lost, Versions}
use witseal.Log.{Parsers, LogFiles}
use witseal.Log.Methods.{append_draft_event, read_all_events}
use witseal.Emit.{Stamp, node_name, is_pending}

unfoldable pub build_execution_lost_draft :
    Text → Stamp → WitnessEvent → Option Text → ℕ → WitnessEventDraft
build_execution_lost_draft segment_id stamp abandoned head sequence = record {
  event_id = stamp.event_id;
  chain_segment_id = segment_id;
  sequence = sequence;
  timestamp = stamp.timestamp;
  previous_event_hash = head;
  originating_node = node_name stamp.hostname;
  agent_identifier = abandoned.agent_identifier;
  identity_origin = abandoned.identity_origin;
  classified_intent = abandoned.classified_intent;
  policy_decision = abandoned.policy_decision;
  approval = abandoned.approval;
  execution_result = none;
  outcome = execution_lost;
  receipt_id = stamp.receipt_id;
  intent_recorded_event_id = some abandoned.event_id;
  operation_id = none;
  versions = record {
    witseal_runtime = stamp.witseal_version;
    classifier = abandoned.versions.classifier;
  };
}

-- A letter without its case.
abbrev fold_case : ℕ → ℕ
fold_case c = if leb b'A' c && leb c b'Z' then c + 32 else c

-- `/previous_event_hash/i.test(e.message)`
abbrev pub names_previous_hash : Text → Bool
names_previous_hash message = includes (map fold_case message) (codes "previous_event_hash")

-- The `try` around the append.
abbrev pub caught : Result WitnessEvent → Result (Option WitnessEvent)
caught (ok e) = ok (some e)
caught (err m) = if names_previous_hash m then ok none else err m

-- The last event, if it is `pending`.
abbrev pub pending_tail : Option WitnessEvent → Option WitnessEvent
pending_tail none = none
pending_tail (some e) = if is_pending e.outcome then some e else none

module _ (parsers : Parsers) (sha256 : Text → Text) (segment_id : Text) where
  -- The part before the lock is taken: what is read there may be old when the rest runs.
  unfoldable pub find_abandoned : LogFiles → Result (Option WitnessEvent)
  find_abandoned files = elim (read_all_events parsers files) [
    | err m ↦ err m
    | ok events ↦ ok (pending_tail (get_last? events))
  ]

  -- The part under the lock.
  unfoldable pub emit_lost : Stamp → WitnessEvent → Action LogFiles (Option WitnessEvent)
  emit_lost stamp tail files =
      let (result, after) =
        append_draft_event parsers sha256 (build_execution_lost_draft segment_id stamp tail)
          files in
      (caught result, after)

  abbrev emit_if : Stamp → Option WitnessEvent → Action LogFiles (Option WitnessEvent)
  emit_if stamp none = return none
  emit_if stamp (some tail) = emit_lost stamp tail

  -- `runRecoveryIfNeeded`, with no other process between its two parts
  unfoldable pub run_recovery_if_needed : Stamp → Action LogFiles (Option WitnessEvent)
  run_recovery_if_needed stamp files = ((λ f. (find_abandoned f, f)) >>= emit_if stamp) files

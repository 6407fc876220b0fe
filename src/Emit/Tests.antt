-- ===== src/Emit/Tests.antt =====
-- An event behind a run, appended to an empty log.
use witseal.Prelude.{refl, ok, err, [], none, some, if◌then◌else◌}
use witseal.Prelude.Text.{Text, codes, text_eq, text_eq_refl}
use witseal.Schema.Witness.{WitnessEvent, event_value, allowed_executed}
use witseal.Schema.Policy.{allow}
use witseal.Schema.Witness.Samples.{list_files, decision_with}
use witseal.Chain.Digest.{event_digest}
use witseal.Log.{Parsers, LogFiles}
use witseal.Log.Lines.{event_text}
use witseal.Log.Head.{IsLog, IsReadable}
use witseal.Log.Append.{Appended}
use witseal.Emit.{Stamp, EmitInput, build_base_draft, emit_execution_complete}
use witseal.Emit.Drafts.{Completes, emit_execution_complete-Appended}

abbrev plain_hash : Text → Text
plain_hash t = t

abbrev stamp : Stamp
stamp = record {
  event_id = codes "evt_2";
  receipt_id = codes "rcpt_2";
  timestamp = codes "2026-01-01T00:00:01Z";
  hostname = [];
  witseal_version = codes "0.1.1";
}

abbrev input : EmitInput
input = record {
  classified_intent = list_files;
  policy_decision = decision_with allow;
  approval = none;
  execution_result = none;
  outcome = allowed_executed;
  agent_identifier = codes "agent";
  classifier_version = codes "1";
  identity_origin = none;
  operation_id = none;
}

abbrev completed : WitnessEvent
completed =
    let d = build_base_draft (codes "default") stamp input (some (codes "evt_1")) none 0 in
    record { draft = d; event_hash = event_digest plain_hash d }

abbrev parsers : Parsers
parsers = record {
  parse_json = λ t.
      if text_eq t (event_text completed)
      then ok (event_value completed)
      else err (codes "SyntaxError");
  parse_event = λ v. ok completed;
}

abbrev no_files : LogFiles
no_files = record { log = none; head_cache = none }

empty-IsLog : IsLog parsers plain_hash no_files [] []
empty-IsLog = record { content = refl; torn_line = tt; readable = tt; chain = tt; start = tt }

completed-IsReadable : IsReadable parsers completed
completed-IsReadable = (rw (text_eq_refl (event_text completed)) refl, refl)

emit_execution_complete-Appended_example :
    Completes parsers plain_hash (codes "default") input (codes "evt_1") completed
    × Appended parsers plain_hash [] completed completed (
        emit_execution_complete parsers plain_hash
          (codes "default")
          stamp
          input
          (codes "evt_1")
          no_files)
emit_execution_complete-Appended_example =
    emit_execution_complete-Appended parsers plain_hash (codes "default") stamp input
      (codes "evt_1") no_files [] [] empty-IsLog refl refl completed-IsReadable

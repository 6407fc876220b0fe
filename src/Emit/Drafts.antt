-- ===== src/Emit/Drafts.antt =====
-- What an emission leaves in the log.
use witseal.Prelude.{◌≡◌, refl, true, List, Option, none, some}
use witseal.Prelude.Text.{Text}
use witseal.Schema.Witness.{WitnessEvent}
use witseal.Log.{Parsers, LogFiles}
use witseal.Log.Methods.{append_draft_event}
use witseal.Log.Head.{IsLog, IsReadable}
use witseal.Log.Append.{Appended}
use witseal.Log.Draft.{sealed, built, append_draft_event-Appended}
use witseal.Emit.{Stamp, EmitInput, build_base_draft, emit_execution_complete, is_final}

module _ (parsers : Parsers) (sha256 : Text → Text) (segment_id : Text) where
  -- The event that an input becomes at the end of a log.
  abbrev pub emitted : List WitnessEvent → Stamp → EmitInput → Option Text → WitnessEvent
  emitted es stamp input link =
      sealed parsers sha256 (built parsers sha256 (build_base_draft segment_id stamp input link) es)

  base_draft-Appended :
      (stamp : Stamp) (input : EmitInput) (link : Option Text) (files : LogFiles)
      (es : List WitnessEvent) (torn : Text)
      → IsLog parsers sha256 files es torn
      → input.operation_id ≡ none
      → IsReadable parsers (emitted es stamp input link)
      → Appended parsers sha256 es
          (emitted es stamp input link)
          (emitted es stamp input link)
          (append_draft_event parsers sha256 (build_base_draft segment_id stamp input link) files)
  unfolding build_base_draft
  base_draft-Appended stamp input link files es torn l plain readable =
      append_draft_event-Appended parsers sha256 (build_base_draft segment_id stamp input link)
        files es torn l (rw plain refl) (refl, refl) readable

  -- The event says what the input says, and names the event of the intent.
  abbrev pub Completes : EmitInput → Text → WitnessEvent → Type 0
  Completes input id e =
      (e.intent_recorded_event_id ≡ some id)
      × ((e.outcome ≡ input.outcome)
          × ((e.classified_intent ≡ input.classified_intent)
              × ((e.policy_decision ≡ input.policy_decision)
                  × ((e.approval ≡ input.approval)
                      × ((e.execution_result ≡ input.execution_result)
                          × ((e.agent_identifier ≡ input.agent_identifier)
                              × (e.identity_origin ≡ input.identity_origin)))))))

  emitted-Completes :
      (es : List WitnessEvent) (stamp : Stamp) (input : EmitInput) (id : Text)
      → Completes input id (emitted es stamp input (some id))
  unfolding build_base_draft
  emitted-Completes es stamp input id = (refl, (refl, (refl, (refl, (refl, (refl, (refl, refl)))))))

  -- An input without an operation id and with a final outcome is appended at the end of the log as
  -- it is then, where the parsers read the event back. The event has the input's intent, decision,
  -- approval, result, outcome and identity, and names the event of its intent.
  pub emit_execution_complete-Appended :
      (stamp : Stamp) (input : EmitInput) (id : Text) (files : LogFiles) (es : List WitnessEvent)
      (torn : Text)
      → IsLog parsers sha256 files es torn
      → input.operation_id ≡ none
      → is_final input.outcome ≡ true
      → IsReadable parsers (emitted es stamp input (some id))
      → Completes input id (emitted es stamp input (some id))
        × Appended parsers sha256 es
            (emitted es stamp input (some id))
            (emitted es stamp input (some id))
            (emit_execution_complete parsers sha256 segment_id stamp input id files)
  unfolding emit_execution_complete
  emit_execution_complete-Appended stamp input id files es torn l plain final readable = (
    emitted-Completes es stamp input id,
    rw final (base_draft-Appended stamp input (some id) files es torn l plain readable),
  )

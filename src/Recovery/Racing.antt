-- ===== src/Recovery/Racing.antt =====
-- The part of a recovery that runs under the lock does not look at the tail again.
use witseal.Prelude.{◌≡◌, refl, ap, List, none, some}
use witseal.Prelude.Text.{Text}
use witseal.Schema.Witness.{WitnessEvent, execution_lost}
use witseal.Log.{Parsers, LogFiles}
use witseal.Log.Head.{IsLog, IsReadable}
use witseal.Log.Append.{Appended}
use witseal.Log.Draft.{sealed, built, append_draft_event-Appended}
use witseal.Emit.{Stamp}
use witseal.Recovery.{build_execution_lost_draft, emit_lost, caught}

module _ (parsers : Parsers) (sha256 : Text → Text) (segment_id : Text) where
  abbrev pub lost : List WitnessEvent → Stamp → WitnessEvent → WitnessEvent
  lost es stamp tail =
      sealed parsers sha256
        (built parsers sha256 (build_execution_lost_draft segment_id stamp tail) es)

  -- The event says that the abandoned one's execution is lost: it names that event, keeps its intent,
  -- decision, approval and identity, and has no result.
  abbrev pub Loses : WitnessEvent → WitnessEvent → Type 0
  Loses abandoned e =
      (e.outcome ≡ execution_lost)
      × ((e.intent_recorded_event_id ≡ some abandoned.event_id)
          × ((e.execution_result ≡ none)
              × ((e.classified_intent ≡ abandoned.classified_intent)
                  × ((e.policy_decision ≡ abandoned.policy_decision)
                      × ((e.approval ≡ abandoned.approval)
                          × ((e.agent_identifier ≡ abandoned.agent_identifier)
                              × (e.identity_origin ≡ abandoned.identity_origin)))))))

  lost-Loses :
      (es : List WitnessEvent) (stamp : Stamp) (tail : WitnessEvent)
      → Loses tail (lost es stamp tail)
  unfolding build_execution_lost_draft
  lost-Loses es stamp tail = (refl, (refl, (refl, (refl, (refl, (refl, (refl, refl)))))))

  -- Whatever a log holds when the lock is taken, and so also where another writer has appended to
  -- it, `execution_lost` is appended for the tail that was read before, where the parsers read
  -- the new event back: it names that tail and keeps its intent, decision, approval and identity.
  pub emit_lost-Appended :
      (stamp : Stamp) (tail : WitnessEvent) (files : LogFiles) (es : List WitnessEvent)
      (torn : Text)
      → IsLog parsers sha256 files es torn
      → IsReadable parsers (lost es stamp tail)
      → Loses tail (lost es stamp tail)
        × Appended parsers sha256 es
            (lost es stamp tail)
            (some (lost es stamp tail))
            (emit_lost parsers sha256 segment_id stamp tail files)
  unfolding emit_lost
  emit_lost-Appended stamp tail files es torn l readable =
      let (returned, log) =
        append_draft_event-Appended parsers sha256
          (build_execution_lost_draft segment_id stamp tail) files es torn l
          (unfold build_execution_lost_draft in refl)
          (unfold build_execution_lost_draft in (refl, refl)) readable in
      (lost-Loses es stamp tail, (ap caught returned, log))

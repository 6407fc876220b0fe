-- ===== src/Recovery/Tests.antt =====
-- The tail that was read is gone when the lock is taken: the log is empty.
use witseal.Prelude.{◌≡◌, refl, ok, err, [], none, some, if◌then◌else◌}
use witseal.Prelude.Text.{Text, codes, text_eq, text_eq_refl}
use witseal.Schema.Witness.{WitnessEvent, event_value, pending}
use witseal.Schema.Witness.Samples.{draft_of}
use witseal.Chain.Digest.{event_digest}
use witseal.Log.{Parsers, LogFiles}
use witseal.Log.Lines.{event_text}
use witseal.Log.Head.{IsLog, IsReadable}
use witseal.Log.Append.{Appended}
use witseal.Emit.{Stamp}
use witseal.Recovery.{build_execution_lost_draft, caught, emit_lost}
use witseal.Recovery.Racing.{Loses, emit_lost-Appended}

abbrev plain_hash : Text → Text
plain_hash t = t

abbrev stamp : Stamp
stamp = record {
  event_id = codes "evt_2";
  receipt_id = codes "rcpt_2";
  timestamp = codes "2026-01-01T00:00:01Z";
  hostname = [];
  witseal_version = codes "0.1.1";
}

abbrev old_tail : WitnessEvent
old_tail = record { draft = draft_of pending none 0; event_hash = codes "h" }

abbrev lost_event : WitnessEvent
lost_event =
    let d = build_execution_lost_draft (codes "default") stamp old_tail none 0 in
    record { draft = d; event_hash = event_digest plain_hash d }

abbrev parsers : Parsers
parsers = record {
  parse_json = λ t.
      if text_eq t (event_text lost_event)
      then ok (event_value lost_event)
      else err (codes "SyntaxError");
  parse_event = λ v. ok lost_event;
}

abbrev no_files : LogFiles
no_files = record { log = none; head_cache = none }

empty-IsLog : IsLog parsers plain_hash no_files [] []
empty-IsLog = record { content = refl; torn_line = tt; readable = tt; chain = tt; start = tt }

lost_event-IsReadable : IsReadable parsers lost_event
lost_event-IsReadable = (rw (text_eq_refl (event_text lost_event)) refl, refl)

emit_lost-Appended_example :
    Loses parsers plain_hash (codes "default") old_tail lost_event
    × Appended parsers plain_hash [] lost_event
        (some lost_event)
        (emit_lost parsers plain_hash (codes "default") stamp old_tail no_files)
emit_lost-Appended_example =
    emit_lost-Appended parsers plain_hash (codes "default") stamp old_tail no_files [] []
      empty-IsLog lost_event-IsReadable

-- An error that names the previous hash, in any case, is caught, and another is thrown again.
stale_head_caught :
    caught (err (codes "EventLog.appendEvent: previous_event_hash mismatch")) ≡ ok none
unfolding witseal.Prelude.Text.includes witseal.Prelude.Text.starts_with
stale_head_caught = refl

short_message_thrown : caught (err (codes "event")) ≡ err (codes "event")
unfolding witseal.Prelude.Text.includes witseal.Prelude.Text.starts_with
short_message_thrown = refl

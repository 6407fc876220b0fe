-- ===== src/Log/Tests.antt =====
-- A log of one event, with a stale head cache or a torn line.
use witseal.Prelude.{ℕ, ◌≡◌, refl, ok, err, [], ◌∷◌, ◌++◌, Option, none, some, arith, if◌then◌else◌}
use witseal.Prelude.Text.{Text, codes, text_eq, text_eq_refl}
use witseal.Schema.Witness.{WitnessEvent, WitnessEventDraft, event_value, pending}
use witseal.Schema.Witness.Samples.{draft_of}
use witseal.Chain.Digest.{event_digest}
use witseal.Log.{Parsers, LogFiles, healed}
use witseal.Log.Methods.{append_event, append_draft_event, read_chain_head}
use witseal.Log.Lines.{event_text, log_text}
use witseal.Log.Heal.{healed-log_text}
use witseal.Log.Head.{IsLog, IsReadable, ReadsHead, chain_head, read_chain_head-ReadsHead}
use witseal.Log.Append.{Continues, Appended, Refused, append_event-Appended, append_event-Refused}
use witseal.Log.Draft.{append_draft_event-Appended, append_draft_event-Refused}

abbrev plain_hash : Text → Text
plain_hash t = t

-- Parsers that read the line of one event.
abbrev parsers_of : WitnessEvent → Parsers
parsers_of e = record {
  parse_json =
      λ t. if text_eq t (event_text e) then ok (event_value e) else err (codes "SyntaxError");
  parse_event = λ v. ok e;
}

parsers_of-IsReadable : (e : WitnessEvent) → IsReadable (parsers_of e) e
parsers_of-IsReadable e = (rw (text_eq_refl (event_text e)) refl, refl)

abbrev event_with : Option Text → ℕ → WitnessEvent
event_with head sequence = record {
  draft = draft_of pending head sequence;
  event_hash = event_digest plain_hash (draft_of pending head sequence);
}

abbrev first : WitnessEvent
first = event_with none 0

abbrev torn : Text
torn = codes "{\"e"

-- A file that holds a torn line alone.
abbrev torn_files : LogFiles
torn_files = record { log = some torn; head_cache = none }

torn-IsLog : (parsers : Parsers) → IsLog parsers plain_hash torn_files [] torn
torn-IsLog parsers = record {
  content = refl;
  torn_line = (omega arith, (omega arith, (omega arith, tt)));
  readable = tt;
  chain = tt;
  start = tt;
}

abbrev first_files : LogFiles
first_files = record { log = some (log_text (first ∷ []) ++ []); head_cache = some (codes "{}") }

first-IsLog : IsLog (parsers_of first) plain_hash first_files (first ∷ []) []
first-IsLog = record {
  content = refl;
  torn_line = tt;
  readable = (parsers_of-IsReadable first, tt);
  chain = ((refl, refl, refl), tt);
  start = refl;
}

healed-log_text_example : healed (log_text (first ∷ []) ++ torn) ≡ log_text (first ∷ [])
healed-log_text_example =
    healed-log_text (first ∷ []) torn (omega arith, (omega arith, (omega arith, tt)))

read_chain_head-ReadsHead_example :
    ReadsHead
      (parsers_of first)
      plain_hash
      first_files
      (chain_head (first ∷ []))
      (read_chain_head (parsers_of first) first_files)
read_chain_head-ReadsHead_example =
    read_chain_head-ReadsHead (parsers_of first) plain_hash first_files (first ∷ []) first-IsLog

append_event-Appended_example :
    Appended
      (parsers_of first)
      plain_hash
      []
      first
      tt
      (append_event (parsers_of first) first torn_files)
append_event-Appended_example =
    append_event-Appended (parsers_of first) plain_hash torn_files [] torn first
      (torn-IsLog (parsers_of first)) (refl, refl) refl (parsers_of-IsReadable first)

not_first : ¬ Continues (chain_head []) (some (codes "x")) 0
not_first (h, k) = cc h

append_event-Refused_example :
    (t : Text) × Refused
      (parsers_of first)
      plain_hash
      []
      t
      (append_event (parsers_of first) (event_with (some (codes "x")) 0) torn_files)
append_event-Refused_example =
    append_event-Refused (parsers_of first) plain_hash torn_files [] torn
      (event_with (some (codes "x")) 0) (torn-IsLog (parsers_of first)) not_first

append_draft_event-Appended_example :
    Appended
      (parsers_of first)
      plain_hash
      []
      first
      first
      (append_draft_event (parsers_of first) plain_hash (draft_of pending) torn_files)
append_draft_event-Appended_example =
    append_draft_event-Appended (parsers_of first) plain_hash (draft_of pending) torn_files [] torn
      (torn-IsLog (parsers_of first)) refl (refl, refl) (parsers_of-IsReadable first)

abbrev stale_draft : Option Text → ℕ → WitnessEventDraft
stale_draft head sequence = draft_of pending head 7

not_seventh : ¬ Continues (chain_head []) none 7
not_seventh (h, k) = omega (arith, k)

append_draft_event-Refused_example :
    (t : Text) × Refused
      (parsers_of first)
      plain_hash
      []
      t
      (append_draft_event (parsers_of first) plain_hash stale_draft torn_files)
append_draft_event-Refused_example =
    append_draft_event-Refused (parsers_of first) plain_hash stale_draft torn_files [] torn
      (torn-IsLog (parsers_of first)) refl not_seventh

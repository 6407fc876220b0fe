-- ===== src/Log/Methods.antt =====
-- The methods of `EventLog` that read the head and append.
use witseal.Prelude.{
  ℕ, Bool, false, not, List, [], ◌∷◌, ◌++◌, Option, none, some, ◌==◌, ◌||◌, length, if◌then◌else◌,
  Result, ok, err,
}
use witseal.Prelude.Results
use witseal.Prelude.Action.{Action, return, attempt, modify, ◌>>=◌, ◌>>◌}
use witseal.Prelude.Text.{Text, codes, option_eq, text_eq, extend, split, trim, is_blank}
use witseal.Json.{Value, obj, str, null, get_field}
use witseal.Json.Decimal.{digits}
use witseal.Json.Stringify.{stringify}
use witseal.Schema.Witness.{WitnessEvent, WitnessEventDraft, event_value}
use witseal.Chain.{hash_text, finalize_event, verify_chain, ChainVerifyResult}
use witseal.Log.{
  Parsers, LogFiles, ChainHead, CachedHead, no_head, head_of, newline, lines, heal_torn_tail,
  matches_tail, write_head_cache, read_last_event, read_head_cache, rebuild_from, write_rebuilt,
  stale_error, parse_line,
}

-- `JSON.stringify(event) + '\n'`
abbrev pub event_line : WitnessEvent → Text
event_line e = stringify (event_value e) ++ newline ∷ []

-- `openSync(path, 'a')` and `writeSync`: at the end of the file, which is made if absent
abbrev pub append_text : Text → LogFiles → LogFiles
append_text t files = record files {
  log = some (elim files.log [ none ↦ t | some content ↦ content ++ t ]);
}

-- The write behind the heal, and then the head cache.
unfoldable pub write_event : WitnessEvent → Action LogFiles (Unit {0})
unfolding write_head_cache
write_event event = do
  modify (append_text (event_line event))
  write_head_cache event.event_hash event.sequence

unfoldable pub append_event_unsafe : WitnessEvent → Action LogFiles (Unit {0})
append_event_unsafe event = do heal_torn_tail; write_event event

-- What `readEvents` takes for the end of a line: node's readline also ends one at a carriage return
-- and at U+2028 and U+2029. The empty line between the two units of "\r\n" is skipped as blank.
abbrev pub ends_line : ℕ → Bool
ends_line c = c == 10 || c == 13 || c == 0x2028 || c == 0x2029

unfoldable pub read_line_split : Text → List Text
read_line_split [] = [] ∷ []
read_line_split (c ∷ s) =
    let rest = read_line_split s in if ends_line c then [] ∷ rest else extend c rest

abbrev is_text : Text → Value → Bool
is_text id (str t) = text_eq t id
is_text id _ = false

-- `parsed.operation_id === operationId`; a property of null throws
abbrev pub has_operation_id : Text → Value → Result Bool
has_operation_id id (obj fs) = ok (is_text id (get_field (codes "operation_id") fs))
has_operation_id id null =
    err (codes "TypeError: Cannot read properties of null (reading 'operation_id')")
has_operation_id id _ = ok false

module _ (parsers : Parsers) where
  open parsers use {parse_json, parse_event}

  unfoldable pub rebuild_head : Action LogFiles ChainHead
  unfolding rebuild_from write_rebuilt lines
  rebuild_head files = elim files.log [
    | none ↦ (ok no_head, files)
    | some content ↦
        (attempt (rebuild_from parsers no_head (lines content)) >>= write_rebuilt parsers) files
  ]

  abbrev pub by_tail : Option CachedHead → Option WitnessEvent → Action LogFiles ChainHead
  by_tail cached none files = (ok no_head, files)
  by_tail none (some tail) files = rebuild_head files
  by_tail (some c) (some tail) files =
      if matches_tail c tail then (ok (head_of tail), files) else rebuild_head files

  unfoldable pub read_chain_head : Action LogFiles ChainHead
  read_chain_head files = elim files.log [
    | none ↦ (ok no_head, files)
    | some content ↦
        (attempt (read_last_event parsers files) >>= by_tail (read_head_cache parsers files)) files
  ]

  abbrev pub check_position : Text → Text → ChainHead → Option Text → ℕ → Result (Unit {0})
  check_position head_name sequence_name at previous sequence =
      if not (option_eq previous at.head)
      then err (stale_error head_name (hash_text at.head) (hash_text previous))
      else if not (sequence == at.sequence)
      then err (stale_error sequence_name (digits at.sequence) (digits sequence))
      else ok tt

  -- `appendEvent`, inside the exclusive section
  unfoldable pub append_event : WitnessEvent → Action LogFiles (Unit {0})
  append_event event = do
    heal_torn_tail
    at ← read_chain_head
    attempt (
        check_position (codes "previous_event_hash") (codes "sequence") at event.previous_event_hash
          event.sequence)
    append_event_unsafe event

  -- The loop of `findEventByOperationIdSync`.
  unfoldable pub find_in_lines : Text → List Text → Result (Option WitnessEvent)
  find_in_lines id [] = ok none
  find_in_lines id (line ∷ rest) =
      let more = find_in_lines id rest in
      if is_blank line
      then more
      else Results.◌>>=◌ (parse_json (trim line)) λ parsed.
        Results.◌>>=◌ (has_operation_id id parsed)
          λ same. if same then Results.◌>>=◌ (parse_event parsed) (λ e. ok (some e)) else more

  unfoldable pub find_event_by_operation_id : Text → LogFiles → Result (Option WitnessEvent)
  unfolding find_in_lines
  find_event_by_operation_id id files = elim files.log [
    | none ↦ ok none
    | some content ↦ find_in_lines id (split newline content)
  ]

  -- The prior event of the draft's operation, where it declares one.
  abbrev pub prior_event : WitnessEventDraft → LogFiles → Result (Option WitnessEvent)
  prior_event draft files = elim draft.operation_id [
    | none ↦ ok none
    | some id ↦ find_event_by_operation_id id files
  ]

  -- `appendDraftEvent`, inside the exclusive section
  module _ (sha256 : Text → Text) where
    unfoldable pub append_new : ChainHead → WitnessEventDraft → Action LogFiles WitnessEvent
    append_new at draft = do
      attempt (
          check_position (codes "buildDraft must use the provided chain head (previous_event_hash)")
            (codes "buildDraft must use the provided sequence") at draft.previous_event_hash
            draft.sequence)
      event ← attempt (finalize_event sha256 draft)
      append_event_unsafe event
      return event

    unfoldable pub append_draft_event :
        (Option Text → ℕ → WitnessEventDraft) → Action LogFiles WitnessEvent
    append_draft_event build = do
      heal_torn_tail
      at ← read_chain_head
      let draft = build at.head at.sequence
      existing ← λ files. (prior_event draft files, files)
      elim existing [ some e ↦ return e | none ↦ append_new at draft ]

  -- `readAllEvents`
  unfoldable pub read_lines : List Text → Result (List WitnessEvent)
  unfolding parse_line
  read_lines [] = ok []
  read_lines (line ∷ rest) =
      let more = read_lines rest in
      if is_blank line
      then more
      else Results.◌>>=◌ (parse_line parsers (trim line)) λ e. Results.◌>>=◌ more λ es. ok (e ∷ es)

  unfoldable pub read_all_events : LogFiles → Result (List WitnessEvent)
  unfolding read_lines read_line_split
  read_all_events files = elim files.log [
    | none ↦ ok []
    | some content ↦ read_lines (read_line_split content)
  ]

  -- `verifyAll`: the number of events beside the result of `verifyChain`
  unfoldable pub verify_all : (Text → Text) → LogFiles → Result (ChainVerifyResult × ℕ)
  unfolding read_all_events
  verify_all sha256 files =
      Results.◌>>=◌ (read_all_events files) λ events.
        Results.◌>>=◌ (verify_chain sha256 events none) λ result. ok (result, length events)

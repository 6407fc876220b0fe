-- ===== src/Log.antt =====
-- src/witness/event-log.ts: the log of one segment, a file of JSON lines with a head cache beside
-- it. Each method is an action on the two files; the chain lock makes it one step.
pub mod Methods
pub mod Lines
pub mod Heal
pub mod Head
pub mod Append
pub mod Draft
pub mod Tests
use witseal.Prelude.{
  ℕ, zero, suc, ◌+◌, ◌-◌, Bool, true, false, not, ◌&&◌, ◌||◌, List, [], ◌∷◌, ◌++◌, Option, none,
  some, leb, ◌==◌, length, take, get_last?, keep, every, if◌then◌else◌, Result, ok, err, map,
}
use witseal.Prelude.Results
use witseal.Prelude.Action.{Action, return, throw, attempt, asks, modify, ◌>>=◌, ◌>>◌}
use witseal.Prelude.Text.{Text, codes, text_eq, option_eq, split, trim, is_blank}
use witseal.Json.{Value, str, num, nat, obj, Fields, end, field, get_field, Number, integer, pos, ℤ}
use witseal.Json.Decimal.{digits}
use witseal.Json.Stringify.{stringify}
use witseal.Schema.Witness.{WitnessEvent, WitnessEventDraft, event_value}
use witseal.Chain.{hash_text, finalize_event, verify_chain, ChainVerifyResult}

-- What stands outside the repository: `JSON.parse` on a text, and the `zod` parser of events.
pub record Parsers : Type 0 where
  pub parse_json : Text → Result Value
  pub parse_event : Value → Result WitnessEvent

-- The two files, `none` where a file does not exist.
pub record LogFiles : Type 0 where
  pub log : Option Text
  pub head_cache : Option Text

-- The return value of `readChainHead`: the last hash and the next sequence number.
pub record ChainHead : Type 0 where
  pub head : Option Text
  pub sequence : ℕ

pub record CachedHead : Type 0 where
  pub head : Text
  pub sequence : Number

abbrev pub newline : ℕ
newline = 10

abbrev pub no_head : ChainHead
no_head = record { head = none; sequence = 0 }

abbrev pub head_of : WitnessEvent → ChainHead
head_of e = record { head = some e.event_hash; sequence = e.sequence + 1 }

-- `content.split('\n').filter((l) => l.trim())`
unfoldable pub lines : Text → List Text
lines content = keep (λ l. not (is_blank l)) (split newline content)

-- `content.lastIndexOf(0x0a)`
unfoldable pub last_index_of : ℕ → Text → Option ℕ
last_index_of c [] = none
last_index_of c (d ∷ s) = elim (last_index_of c s) [
  | some i ↦ some (suc i)
  | none ↦ if d == c then some 0 else none
]

abbrev pub cut_behind : Option ℕ → Text → Text
cut_behind none content = []
cut_behind (some p) content = take (p + 1) content

-- By the last unit, `none` for an empty file.
abbrev pub heal_by : Option ℕ → Text → Text
heal_by none content = content
heal_by (some last) content =
    if last == newline then content else cut_behind (last_index_of newline content) content

-- A file's content after `healTornTail`.
unfoldable pub healed : Text → Text
unfolding last_index_of
healed content = heal_by (get_last? content) content

unfoldable pub heal_torn_tail : Action LogFiles (Unit {0})
unfolding healed
heal_torn_tail files = elim files.log [
  | none ↦ (ok tt, files)
  | some content ↦ (ok tt, record files { log = some (healed content) })
]

-- `/^[a-f0-9]{64}$/`
abbrev pub is_sha256_hex : Text → Bool
is_sha256_hex s =
    length s == 64 && every (λ c. (leb b'a' c && leb c b'f') || (leb b'0' c && leb c b'9')) s

-- The checks of `readHeadCache` on the parsed content.
abbrev cached_fields : Value → Value → Option CachedHead
cached_fields (str h) (num n) =
    if is_sha256_hex h then some (record { head = h; sequence = n }) else none
cached_fields _ _ = none

abbrev cached_value : Value → Option CachedHead
cached_value (obj fs) =
    cached_fields (get_field (codes "head") fs) (get_field (codes "sequence") fs)
cached_value _ = none

unfoldable pub head_cache_value : Text → ℕ → Value
head_cache_value head sequence =
    obj (field (codes "head") (str head) (field (codes "sequence") (nat sequence) end))

unfoldable pub write_head_cache : Text → ℕ → Action LogFiles (Unit {0})
unfolding head_cache_value
write_head_cache head sequence =
    modify λ files. record files { head_cache = some (stringify (head_cache_value head sequence)) }

abbrev same_number : Number → ℕ → Bool
same_number (integer (pos n)) m = n == m
same_number _ m = false

-- `cached.head === tail.event_hash && cached.sequence === tail.sequence`
abbrev matches_tail : CachedHead → WitnessEvent → Bool
matches_tail c e = text_eq c.head e.event_hash && same_number c.sequence e.sequence

pub rebuild_error : WitnessEvent → Option Text → Text
rebuild_error ev head =
    codes "Event log integrity error at sequence "
    ++ (digits ev.sequence
        ++ (codes ": previous_event_hash "
            ++ (hash_text ev.previous_event_hash
                ++ (codes " does not match expected " ++ hash_text head))))

pub stale_error : Text → Text → Text → Text
stale_error name expected actual =
    codes "EventLog.appendEvent: stale append rejected — "
    ++ (name
        ++ (codes " mismatch (expected "
            ++ (expected
                ++ (codes ", got "
                    ++ (actual
                        ++ codes
                            "). Another writer may have advanced the chain; rebuild the event from the current head.")))))

module _ (parsers : Parsers) where
  open parsers use {parse_json, parse_event}

  -- `WitnessEventSchema.parse(JSON.parse(line))`
  unfoldable pub parse_line : Text → Result WitnessEvent
  parse_line line = Results.◌>>=◌ (parse_json line) parse_event

  abbrev pub parse_last : Option Text → Result (Option WitnessEvent)
  parse_last none = ok none
  parse_last (some line) = Results.◌>>=◌ (parse_line line) (λ e. ok (some e))

  unfoldable pub read_last_event : LogFiles → Result (Option WitnessEvent)
  read_last_event files = elim files.log [
    | none ↦ ok none
    | some content ↦ parse_last (get_last? (lines content))
  ]

  -- Every error in reading the cache is caught.
  unfoldable pub read_head_cache : LogFiles → Option CachedHead
  read_head_cache files = elim files.head_cache [
    | none ↦ none
    | some content ↦ elim (parse_json content) [ ok v ↦ cached_value v | err e ↦ none ]
  ]

  -- The loop of `rebuildHead`.
  unfoldable pub rebuild_from : ChainHead → List Text → Result ChainHead
  unfolding rebuild_error parse_line
  rebuild_from at [] = ok at
  rebuild_from at (line ∷ rest) = Results.◌>>=◌ (parse_line line) λ ev.
      let next = rebuild_from (head_of ev) rest in
      if option_eq ev.previous_event_hash at.head then next else err (rebuild_error ev at.head)

  -- `this.writeHeadCache({ head: head!, sequence: sequence - 1 })`
  unfoldable pub write_rebuilt : ChainHead → Action LogFiles ChainHead
  unfolding write_head_cache
  write_rebuilt at files = elim at.head [
    | none ↦ (ok at, files)
    | some h ↦ (do write_head_cache h (at.sequence - 1); return at) files
  ]

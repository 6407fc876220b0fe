-- ===== src/Log/Head.antt =====
-- `readChainHead`: the head cache is never authoritative.
use witseal.Prelude.{
  ℕ, ◌≡◌, ◌≢◌, refl, ap, ◌∙◌, List, [], ◌∷◌, ◌++◌, append-nil, map, All, Option, none, some,
  get_last?, ok, Result, Bool-cases, inl, inr, arith,
}
use witseal.Prelude.Results
use witseal.Prelude.Text.{Text, option_eq_refl}
use witseal.Json.Stringify.{OneLine, stringify}
use witseal.Schema.Witness.{WitnessEvent, event_value}
use witseal.Chain.Spec.{IsChain, IsChainFrom}
use witseal.Log.{
  Parsers, LogFiles, ChainHead, CachedHead, no_head, head_of, lines, matches_tail, read_last_event,
  read_head_cache, rebuild_from, write_rebuilt, parse_line, parse_last,
}
use witseal.Log.Methods.{by_tail, read_chain_head, rebuild_head}
use witseal.Log.Lines.{event_text, log_text, lines-log_text}

-- A file that does not exist has no content.
abbrev pub content_of : Option Text → Text
content_of none = []
content_of (some t) = t

-- The head that a list of events leaves behind `at`.
abbrev pub head_from : ChainHead → List WitnessEvent → ChainHead
head_from at [] = at
head_from at (e ∷ es) = head_from (head_of e) es

abbrev pub chain_head : List WitnessEvent → ChainHead
chain_head es = head_from no_head es

pub head_from-append :
    (at : ChainHead) (es : List WitnessEvent) (e : WitnessEvent)
    → head_from at (es ++ e ∷ []) ≡ head_of e
head_from-append at [] e = refl
head_from-append at (f ∷ es) e = head_from-append (head_of f) es e

module _ (parsers : Parsers) where
  open parsers use {parse_json, parse_event}

  -- `JSON.parse` and the schema's parser read the event's line back.
  abbrev pub IsReadable : WitnessEvent → Type 0
  IsReadable e =
      (parse_json (event_text e) ≡ ok (event_value e)) × (parse_event (event_value e) ≡ ok e)

  pub parse_line-readable :
      (e : WitnessEvent) → IsReadable e → parse_line parsers (event_text e) ≡ ok e
  unfolding parse_line
  parse_line-readable e (json, event) = ap (λ r. Results.◌>>=◌ r parse_event) json ∙ event

-- Sequence numbers start at 0 in a log.
abbrev pub StartsAtZero : List WitnessEvent → Type 0
StartsAtZero [] = Unit
StartsAtZero (e ∷ es) = e.sequence ≡ 0

-- The files hold the lines of these events, which form a chain, and behind them what a crash left
-- of another line. Nothing is said of the head cache.
pub record IsLog (parsers : Parsers) (sha256 : Text → Text) (files : LogFiles)
    (es : List WitnessEvent) (torn : Text) : Type 0 where
  pub content : content_of files.log ≡ log_text es ++ torn
  pub torn_line : OneLine torn
  pub readable : All (IsReadable parsers) es
  pub chain : IsChain sha256 none es
  pub start : StartsAtZero es

module _ (parsers : Parsers) (sha256 : Text → Text) where
  get_last?-map :
      (es : List WitnessEvent) (e : WitnessEvent)
      → get_last? es ≡ some e
      → get_last? (map event_text es) ≡ some (event_text e)
  get_last?-map [] e h = cc
  get_last?-map (f ∷ []) e h = cc
  get_last?-map (f ∷ g ∷ es) e h = get_last?-map (g ∷ es) e h

  last-IsReadable :
      (es : List WitnessEvent) (e : WitnessEvent)
      → All (IsReadable parsers) es
      → get_last? es ≡ some e
      → IsReadable parsers e
  last-IsReadable [] e r h = cc
  last-IsReadable (f ∷ []) e r h = subst-readable r.0 (cc)
    where
      subst-readable : IsReadable parsers f → f ≡ e → IsReadable parsers e
      subst-readable x p = rw (← p) x
  last-IsReadable (f ∷ g ∷ es) e r h = last-IsReadable (g ∷ es) e r.1 h

  no_last : (es : List WitnessEvent) → get_last? es ≡ none → es ≡ []
  no_last [] h = refl
  no_last (e ∷ []) h = cc
  no_last (e ∷ f ∷ es) h = cc (no_last (f ∷ es) h)

  -- What `readLastEvent` makes of the last line.
  last_line :
      (es : List WitnessEvent)
      → All (IsReadable parsers) es
      → parse_last parsers (get_last? (map event_text es)) ≡ ok (get_last? es)
  last_line [] r = refl
  last_line (e ∷ []) r = rw (parse_line-readable parsers e r.0)
  last_line (e ∷ f ∷ es) r = last_line (f ∷ es) r.1

  head_from_last :
      (at : ChainHead) (es : List WitnessEvent) (e : WitnessEvent)
      → get_last? es ≡ some e
      → head_from at es ≡ head_of e
  head_from_last at [] e h = cc
  head_from_last at (f ∷ []) e h = cc
  head_from_last at (f ∷ g ∷ es) e h = head_from_last (head_of f) (g ∷ es) e h

  rebuild_from-chain :
      (at : ChainHead) (before : Option ℕ) (es : List WitnessEvent)
      → All (IsReadable parsers) es
      → IsChainFrom sha256 before at.head es
      → rebuild_from parsers at (map event_text es) ≡ ok (head_from at es)
  unfolding rebuild_from
  rebuild_from-chain at before [] r c = refl
  rebuild_from-chain at before (e ∷ es) r c =
      rw (parse_line-readable parsers e r.0, c.0.0, option_eq_refl at.head)
        (rebuild_from-chain (head_of e) (some e.sequence) es r.1 c.1)

  not_empty : (e : WitnessEvent) (es : List WitnessEvent) → [] ≢ log_text (e ∷ es) ++ []
  unfolding event_value stringify
  not_empty e es h = cc

  -- What a head read returns, the log left as it is.
  abbrev pub ReadsHead : LogFiles → ChainHead → Result ChainHead × LogFiles → Type 0
  ReadsHead files at r = (r.0 ≡ ok at) × (r.1.log ≡ files.log)

  write_rebuilt-ReadsHead :
      (at : ChainHead) (files : LogFiles) → ReadsHead files at (write_rebuilt parsers at files)
  unfolding write_rebuilt
  write_rebuilt-ReadsHead at files = ground arith

  module _ (content : Text) (cache : Option Text) (es : List WitnessEvent)
      (text : content ≡ log_text es) (readable : All (IsReadable parsers) es)
      (chain : IsChain sha256 none es) where
    abbrev files_of : LogFiles
    files_of = record { log = some content; head_cache = cache }

    lines_of : lines content ≡ map event_text es
    lines_of = ap lines text ∙ lines-log_text es

    rebuild_head-ReadsHead : ReadsHead files_of (chain_head es) (rebuild_head parsers files_of)
    unfolding rebuild_head
    rebuild_head-ReadsHead =
        rw
          (ap (rebuild_from parsers no_head) lines_of
            ∙ rebuild_from-chain no_head none es readable chain)
          (write_rebuilt-ReadsHead (chain_head es) files_of)

    cached-ReadsHead :
        (cached : Option CachedHead) (e : WitnessEvent)
        → chain_head es ≡ head_of e
        → ReadsHead files_of (head_of e) (by_tail parsers cached (some e) files_of)
    cached-ReadsHead none e h = rw (← h) rebuild_head-ReadsHead
    cached-ReadsHead (some c) e h = elim (Bool-cases (matches_tail c e)) [
      | inl hit ↦ rw hit (refl, refl)
      | inr miss ↦ rw miss (rw (← h) rebuild_head-ReadsHead)
    ]

    by_tail-ReadsHead :
        (cached : Option CachedHead) (tail : Option WitnessEvent)
        → get_last? es ≡ tail
        → ReadsHead files_of (chain_head es) (by_tail parsers cached tail files_of)
    by_tail-ReadsHead cached none h = rw (no_last es h) (refl, refl)
    by_tail-ReadsHead cached (some e) h =
        let at = head_from_last no_head es e h in rw at (cached-ReadsHead cached e at)

    last_event : read_last_event parsers files_of ≡ ok (get_last? es)
    unfolding read_last_event
    last_event = ap (λ ls. parse_last parsers (get_last? ls)) lines_of ∙ last_line es readable

    read_file-ReadsHead : ReadsHead files_of (chain_head es) (read_chain_head parsers files_of)
    read_file-ReadsHead =
        unfold read_chain_head in
        rw last_event (by_tail-ReadsHead (read_head_cache parsers files_of) (get_last? es) refl)

  read_log-ReadsHead :
      (log cache : Option Text) (es : List WitnessEvent)
      → IsLog parsers sha256 (record { log = log; head_cache = cache }) es []
      → ReadsHead
          (record { log = log; head_cache = cache })
          (chain_head es)
          (read_chain_head parsers (record { log = log; head_cache = cache }))
  read_log-ReadsHead none cache [] l = unfold read_chain_head in (refl, refl)
  read_log-ReadsHead none cache (e ∷ es) l = absurd (not_empty e es l.content)
  read_log-ReadsHead (some content) cache es l =
      read_file-ReadsHead content cache es (l.content ∙ append-nil (log_text es)) l.readable l.chain

  -- For a log without a torn line, `readChainHead` returns the last event's hash and the number
  -- after its own, whatever the head cache holds, and leaves the log as it is.
  pub read_chain_head-ReadsHead :
      (files : LogFiles) (es : List WitnessEvent)
      → IsLog parsers sha256 files es []
      → ReadsHead files (chain_head es) (read_chain_head parsers files)
  read_chain_head-ReadsHead files es l = read_log-ReadsHead files.log files.head_cache es l

-- ===== src/Log/Append.antt =====
-- `appendEvent`: an event that continues the chain is appended, and any other is refused.
use witseal.Prelude.{
  ℕ, ◌≡◌, refl, ap, sym, ◌∙◌, List, [], ◌∷◌, ◌++◌, append-nil, All-append, Option, none, some, ok,
  err, Result, Bool-cases, inl, inr, arith, ==_iff, ==_refl, ◌==◌,
}
use witseal.Prelude.Action.{Action, ◌>>=◌, attempt, proceed, proceed-ok}
use witseal.Prelude.Text.{Text, option_eq, option_eq_iff, option_eq_refl, codes}
use witseal.Json.Decimal.{digits}
use witseal.Schema.Witness.{WitnessEvent}
use witseal.Chain.{expected_sequence, hash_text}
use witseal.Chain.Digest.{event_digest}
use witseal.Chain.Spec.{head_after, sequence_after, IsChainFrom-append}
use witseal.Log.{
  Parsers, LogFiles, ChainHead, no_head, head_of, heal_torn_tail, healed, stale_error,
}
use witseal.Log.Methods.{
  append_event_unsafe, write_event, append_event, append_text, event_line, check_position,
  read_chain_head,
}
use witseal.Log.Lines.{log_text, log_text-append}
use witseal.Log.Heal.{healed-log_text}
use witseal.Log.Head.{
  IsLog, IsReadable, StartsAtZero, head_from, chain_head, content_of, read_chain_head-ReadsHead,
}

-- The event takes the position that the head gives it.
abbrev pub Continues : ChainHead → Option Text → ℕ → Type 0
Continues at previous sequence = (previous ≡ at.head) × (sequence ≡ at.sequence)

head_from-head :
    (at : ChainHead) (es : List WitnessEvent) → (head_from at es).head ≡ head_after at.head es
head_from-head at [] = refl
head_from-head at (e ∷ es) = head_from-head (head_of e) es

next_sequence :
    (before : Option ℕ) (at : ChainHead) (es : List WitnessEvent) (e : WitnessEvent)
    → (e.sequence ≡ at.sequence → e.sequence ≡ expected_sequence before e)
    → e.sequence ≡ (head_from at es).sequence
    → e.sequence ≡ expected_sequence (sequence_after before es) e
next_sequence before at [] e first h = first h
next_sequence before at (f ∷ es) e first h =
    next_sequence (some f.sequence) (head_of f) es e (λ p. p) h

starts-append :
    (es : List WitnessEvent) (e : WitnessEvent)
    → StartsAtZero es
    → e.sequence ≡ (chain_head es).sequence
    → StartsAtZero (es ++ e ∷ [])
starts-append [] e s h = h
starts-append (f ∷ es) e s h = s

module _ (parsers : Parsers) (sha256 : Text → Text) where
  -- A log with one more event, given what the files hold.
  pub IsLog-snoc :
      (files after : LogFiles) (es : List WitnessEvent) (e : WitnessEvent)
      → IsLog parsers sha256 files es []
      → Continues (chain_head es) e.previous_event_hash e.sequence
      → e.event_hash ≡ event_digest sha256 e.draft
      → IsReadable parsers e
      → content_of after.log ≡ content_of files.log ++ event_line e
      → IsLog parsers sha256 after (es ++ e ∷ []) []
  IsLog-snoc files after es e l (previous, sequence) own readable written = record {
    content =
        written
        ∙ ap (λ t. t ++ event_line e) (l.content ∙ append-nil (log_text es))
        ∙ ap (λ t. log_text es ++ t) (sym (append-nil (event_line e)))
        ∙ sym (log_text-append es (e ∷ []))
        ∙ sym (append-nil _);
    torn_line = tt;
    readable = All-append (IsReadable parsers) es (e ∷ []) l.readable (readable, tt);
    chain = IsChainFrom-append sha256 none none es (e ∷ []) l.chain (
      (
        previous ∙ head_from-head no_head es,
        own,
        next_sequence none no_head es e (λ _. refl) sequence,
      ),
      tt,
    );
    start = starts-append es e l.start sequence;
  }

  -- The same log under other files with the same content.
  pub IsLog-same :
      (files after : LogFiles) (es : List WitnessEvent)
      → after.log ≡ files.log
      → IsLog parsers sha256 files es []
      → IsLog parsers sha256 after es []
  IsLog-same files after es h l = record {
    content = ap content_of h ∙ l.content;
    torn_line = tt;
    readable = l.readable;
    chain = l.chain;
    start = l.start;
  }

  heal_content :
      (log cache : Option Text)
      → content_of (heal_torn_tail (record { log = log; head_cache = cache })).1.log
        ≡ healed (content_of log)
  unfolding heal_torn_tail healed
  heal_content none cache = refl
  heal_content (some t) cache = refl

  -- Healing cuts the torn line off.
  pub heal-IsLog :
      (files : LogFiles) (es : List WitnessEvent) (torn : Text)
      → IsLog parsers sha256 files es torn
      → IsLog parsers sha256 (heal_torn_tail files).1 es []
  heal-IsLog files es torn l = record {
    content =
        heal_content files.log files.head_cache
        ∙ ap healed l.content
        ∙ healed-log_text es torn l.torn_line
        ∙ sym (append-nil (log_text es));
    torn_line = tt;
    readable = l.readable;
    chain = l.chain;
    start = l.start;
  }

  pub heal_returns : (files : LogFiles) → (heal_torn_tail files).0 ≡ ok tt
  unfolding heal_torn_tail
  heal_returns files = ground arith

  append_content :
      (log cache : Option Text) (t : Text)
      → content_of (append_text t (record { log = log; head_cache = cache })).log
        ≡ content_of log ++ t
  append_content none cache t = refl
  append_content (some c) cache t = refl

  -- The outcome of an append that returned `a`: one more event in the log.
  abbrev pub Appended {ℓ} :
      {A : Type ℓ} → List WitnessEvent → WitnessEvent → A → Result A × LogFiles → Type ℓ
  Appended es e a r = (r.0 ≡ ok a) × IsLog parsers sha256 r.1 (es ++ e ∷ []) []

  -- The outcome of an append that threw: the log holds what it held.
  abbrev pub Refused {ℓ} : {A : Type ℓ} → List WitnessEvent → Text → Result A × LogFiles → Type ℓ
  Refused es t r = (r.0 ≡ err t) × IsLog parsers sha256 r.1 es []

  append_unsafe_log :
      (e : WitnessEvent) (files : LogFiles)
      → ((append_event_unsafe e files).0 ≡ ok tt)
        × ((append_event_unsafe e files).1.log
            ≡ (append_text (event_line e) (heal_torn_tail files).1).log)
  append_unsafe_log e files =
      let step : append_event_unsafe e files ≡ write_event e (heal_torn_tail files).1 =
        unfold append_event_unsafe in
        proceed-ok (heal_torn_tail files) tt (λ _. write_event e) (heal_returns files) in
      rw step (unfold write_event in (refl, refl))

  pub append_unsafe-Appended :
      (files : LogFiles) (es : List WitnessEvent) (e : WitnessEvent)
      → IsLog parsers sha256 files es []
      → Continues (chain_head es) e.previous_event_hash e.sequence
      → e.event_hash ≡ event_digest sha256 e.draft
      → IsReadable parsers e
      → Appended es e tt (append_event_unsafe e files)
  append_unsafe-Appended files es e l at own readable =
      let (returned, written) = append_unsafe_log e files in
      let files' = (heal_torn_tail files).1 in
      (
        returned,
        IsLog-snoc files' _ es e (heal-IsLog files es [] l) at own readable
            (ap content_of written ∙ append_content files'.log files'.head_cache (event_line e)),
      )

  pub check_position-ok :
      (m n : Text) (at : ChainHead) (previous : Option Text) (sequence : ℕ)
      → Continues at previous sequence
      → check_position parsers m n at previous sequence ≡ ok tt
  check_position-ok m n at previous sequence (p, q) =
      rw (p, option_eq_refl at.head, q, ==_refl at.sequence)

  pub check_position-err :
      (m n : Text) (at : ChainHead) (previous : Option Text) (sequence : ℕ)
      → ¬ Continues at previous sequence
      → (t : Text) × (check_position parsers m n at previous sequence ≡ err t)
  check_position-err m n at previous sequence off = elim (Bool-cases (option_eq previous at.head)) [
    | inr other ↦ (stale_error m (hash_text at.head) (hash_text previous), rw other)
    | inl same ↦ elim (Bool-cases (sequence == at.sequence)) [
      | inr other ↦ (stale_error n (digits at.sequence) (digits sequence), rw (same, other))
      | inl next ↦ absurd (off ((option_eq_iff _ _).0 same, (==_iff _ _).0 next))
    ]
  ]

  -- The state in which `appendEvent` and `appendDraftEvent` make their checks.
  pub ready : LogFiles → LogFiles
  ready files = (read_chain_head parsers (heal_torn_tail files).1).1

  pub ready-IsLog :
      (files : LogFiles) (es : List WitnessEvent) (torn : Text)
      → IsLog parsers sha256 files es torn
      → IsLog parsers sha256 (ready files) es []
  unfolding ready
  ready-IsLog files es torn l =
      let healed_log = heal-IsLog files es torn l in
      IsLog-same _ _ es (read_chain_head-ReadsHead parsers sha256 _ es healed_log).1 healed_log

  -- Heal and head read, then whatever follows, at the chain's head.
  pub run_ready {ℓ} :
      {A : Type ℓ} (f : ChainHead → Action LogFiles A) (files : LogFiles) (es : List WitnessEvent)
      (torn : Text)
      → IsLog parsers sha256 files es torn
      → (heal_torn_tail >>= λ _. read_chain_head parsers >>= f) files
        ≡ f (chain_head es) (ready files)
  unfolding ready
  run_ready f files es torn l =
      let healed_log = heal-IsLog files es torn l in
      proceed-ok (heal_torn_tail files) tt (λ _. read_chain_head parsers >>= f) (heal_returns files)
      ∙ proceed-ok (read_chain_head parsers (heal_torn_tail files).1) (chain_head es) f
          (read_chain_head-ReadsHead parsers sha256 _ es healed_log).0

  abbrev positioned : WitnessEvent → ChainHead → Result (Unit {0})
  positioned e at =
      check_position parsers (codes "previous_event_hash") (codes "sequence") at
        e.previous_event_hash e.sequence

  abbrev append_at : WitnessEvent → ChainHead → Action LogFiles (Unit {0})
  append_at e at = attempt (positioned e at) >>= λ _. append_event_unsafe e

  -- On a log, an event that takes the next position of the chain, carries its own digest and is read
  -- back by the parsers is appended, also behind a torn line, which is cut off: the files hold a log
  -- of one more event.
  pub append_event-Appended :
      (files : LogFiles) (es : List WitnessEvent) (torn : Text) (e : WitnessEvent)
      → IsLog parsers sha256 files es torn
      → Continues (chain_head es) e.previous_event_hash e.sequence
      → e.event_hash ≡ event_digest sha256 e.draft
      → IsReadable parsers e
      → Appended es e tt (append_event parsers e files)
  append_event-Appended files es torn e l at own readable =
      let run : append_event parsers e files ≡ append_event_unsafe e (ready files) =
        unfold append_event in
        run_ready (append_at e) files es torn l
        ∙ ap (λ r. proceed (r, ready files) (λ _. append_event_unsafe e))
            (check_position-ok _ _ (chain_head es) e.previous_event_hash e.sequence at) in
      rw run
        (append_unsafe-Appended (ready files) es e (ready-IsLog files es torn l) at own readable)

  -- An event of any other position is refused as stale, and the log holds the events that it held.
  pub append_event-Refused :
      (files : LogFiles) (es : List WitnessEvent) (torn : Text) (e : WitnessEvent)
      → IsLog parsers sha256 files es torn
      → ¬ Continues (chain_head es) e.previous_event_hash e.sequence
      → (t : Text) × Refused es t (append_event parsers e files)
  append_event-Refused files es torn e l off =
      let (t, refused) =
        check_position-err (codes "previous_event_hash") (codes "sequence") (chain_head es)
          e.previous_event_hash e.sequence off in
      let run : append_event parsers e files ≡ (err t, ready files) =
        unfold append_event in
        run_ready (append_at e) files es torn l
        ∙ ap (λ r. proceed (r, ready files) (λ _. append_event_unsafe e)) refused in
      (t, rw run (refl, ready-IsLog files es torn l))

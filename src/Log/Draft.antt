-- ===== src/Log/Draft.antt =====
-- `appendDraftEvent`: an operation is recorded at most once, at the head of the chain.
use witseal.Prelude.{◌≡◌, refl, ap, ◌∙◌, List, [], Option, none, some, ok, err, ℕ}
use witseal.Prelude.Action.{Action, ◌>>=◌, attempt, proceed, proceed-ok, return}
use witseal.Prelude.Text.{Text, codes}
use witseal.Schema.Witness.{WitnessEvent, WitnessEventDraft}
use witseal.Chain.{finalize_event}
use witseal.Chain.Digest.{event_digest, finalize_event-eq}
use witseal.Log.{Parsers, LogFiles, ChainHead}
use witseal.Log.Methods.{append_draft_event, append_new, prior_event, append_event_unsafe}
use witseal.Log.Head.{IsLog, IsReadable, chain_head}
use witseal.Log.Append.{
  Continues, Appended, Refused, ready, ready-IsLog, run_ready, append_unsafe-Appended,
  check_position-ok, check_position-err,
}

module _ (parsers : Parsers) (sha256 : Text → Text) where
  -- The event that a draft becomes.
  abbrev pub sealed : WitnessEventDraft → WitnessEvent
  sealed d = record { draft = d; event_hash = event_digest sha256 d }

  abbrev recorded :
      ChainHead → WitnessEventDraft → Option WitnessEvent → Action LogFiles WitnessEvent
  recorded at draft existing = elim existing [
    | some e ↦ return e
    | none ↦ append_new parsers sha256 at draft
  ]

  abbrev decided : (Option Text → ℕ → WitnessEventDraft) → ChainHead → Action LogFiles WitnessEvent
  decided build at =
      (λ files. (prior_event parsers (build at.head at.sequence) files, files))
      >>= recorded at (build at.head at.sequence)

  -- What `buildDraft` makes at the chain's head.
  abbrev pub built : (Option Text → ℕ → WitnessEventDraft) → List WitnessEvent → WitnessEventDraft
  built build es = build (chain_head es).head (chain_head es).sequence

  draft_run :
      (build : Option Text → ℕ → WitnessEventDraft) (files : LogFiles) (es : List WitnessEvent)
      (torn : Text) (existing : Option WitnessEvent)
      → IsLog parsers sha256 files es torn
      → prior_event parsers (built build es) (ready parsers sha256 files) ≡ ok existing
      → append_draft_event parsers sha256 build files
        ≡ recorded (chain_head es) (built build es) existing (ready parsers sha256 files)
  draft_run build files es torn existing l h =
      unfold append_draft_event in
      run_ready parsers sha256 (decided build) files es torn l
      ∙ ap
          (λ r. proceed (r, ready parsers sha256 files) (recorded (chain_head es) (built build es)))
          h

  abbrev append_sealed : WitnessEvent → Action LogFiles WitnessEvent
  append_sealed event = append_event_unsafe event >>= λ _. return event

  append_new-Appended :
      (draft : WitnessEventDraft) (files : LogFiles) (es : List WitnessEvent)
      → IsLog parsers sha256 files es []
      → Continues (chain_head es) draft.previous_event_hash draft.sequence
      → IsReadable parsers (sealed draft)
      → Appended parsers sha256 es
          (sealed draft)
          (sealed draft)
          (append_new parsers sha256 (chain_head es) draft files)
  append_new-Appended draft files es l at readable =
      let (returned, log) =
        append_unsafe-Appended parsers sha256 files es (sealed draft) l at refl readable in
      let run : append_new parsers sha256 (chain_head es) draft files
          ≡ (ok (sealed draft), (append_event_unsafe (sealed draft) files).1) =
        unfold append_new in
        ap (λ r. proceed (r, files) (λ _. attempt (finalize_event sha256 draft) >>= append_sealed))
          (check_position-ok parsers sha256 _ _ (chain_head es) draft.previous_event_hash
            draft.sequence at)
        ∙ ap (λ r. proceed (r, files) append_sealed) (finalize_event-eq sha256 draft)
        ∙ proceed-ok (append_event_unsafe (sealed draft) files) tt (λ _. return (sealed draft))
            returned in
      rw run (refl, log)

  -- On a log, a draft that takes the head it is given, of an operation without a prior event, is
  -- sealed, appended and returned, where the parsers read the sealed event back.
  pub append_draft_event-Appended :
      (build : Option Text → ℕ → WitnessEventDraft) (files : LogFiles) (es : List WitnessEvent)
      (torn : Text)
      → IsLog parsers sha256 files es torn
      → prior_event parsers (built build es) (ready parsers sha256 files) ≡ ok none
      → Continues (chain_head es) (built build es).previous_event_hash (built build es).sequence
      → IsReadable parsers (sealed (built build es))
      → Appended parsers sha256 es
          (sealed (built build es))
          (sealed (built build es))
          (append_draft_event parsers sha256 build files)
  append_draft_event-Appended build files es torn l fresh at readable =
      rw (draft_run build files es torn none l fresh) (
        append_new-Appended (built build es) (ready parsers sha256 files) es
          (ready-IsLog parsers sha256 files es torn l) at readable)

  -- Where the log has a prior event of the draft's operation, that event is returned, and nothing is
  -- appended.
  pub append_draft_event-once :
      (build : Option Text → ℕ → WitnessEventDraft) (files : LogFiles) (es : List WitnessEvent)
      (torn : Text) (e : WitnessEvent)
      → IsLog parsers sha256 files es torn
      → prior_event parsers (built build es) (ready parsers sha256 files) ≡ ok (some e)
      → ((append_draft_event parsers sha256 build files).0 ≡ ok e)
        × IsLog parsers sha256 (append_draft_event parsers sha256 build files).1 es []
  append_draft_event-once build files es torn e l prior =
      rw (draft_run build files es torn (some e) l prior)
        (refl, ready-IsLog parsers sha256 files es torn l)

  -- On a log, a draft that does not take the head it is given, of an operation without a prior event, is
  -- refused, and the log holds what it held.
  pub append_draft_event-Refused :
      (build : Option Text → ℕ → WitnessEventDraft) (files : LogFiles) (es : List WitnessEvent)
      (torn : Text)
      → IsLog parsers sha256 files es torn
      → prior_event parsers (built build es) (ready parsers sha256 files) ≡ ok none
      → ¬ Continues (chain_head es) (built build es).previous_event_hash (built build es).sequence
      → (t : Text) × Refused parsers sha256 es t (append_draft_event parsers sha256 build files)
  append_draft_event-Refused build files es torn l fresh off =
      let draft = built build es in
      let (t, refused) =
        check_position-err parsers sha256
          (codes "buildDraft must use the provided chain head (previous_event_hash)")
          (codes "buildDraft must use the provided sequence") (chain_head es)
          draft.previous_event_hash draft.sequence off in
      let run : append_draft_event parsers sha256 build files
          ≡ (err t, ready parsers sha256 files) =
        draft_run build files es torn none l fresh
        ∙ unfold append_new in
          ap
            (λ r.
              proceed (r, ready parsers sha256 files)
                (λ _. attempt (finalize_event sha256 draft) >>= append_sealed))
            refused in
      (t, rw run (refl, ready-IsLog parsers sha256 files es torn l))

-- ===== src/Exec/Gated.antt =====
-- A command runs at most once, behind its recorded intent and under a decision that lets it run.
use witseal.Prelude.{
  ◌≡◌, ◌⊎◌, refl, subst, ap, sym, ◌∙◌, inl, inr, Bool, true, false, not, ◌&&◌, ◌||◌, List, ◌∷◌,
  is_empty, Option, none, some, Result, ok, err, Bool-cases,
}
use witseal.Prelude.Action.{Action, return, attempt, ◌>>=◌, proceed, proceed-ok, proceed-err}
use witseal.Prelude.Text.{Text}
use witseal.Json.{ℤ}
use witseal.Schema.Intent.{ShellCommandIntent}
use witseal.Schema.Policy.{Decision, allow, deny, require_approval, PolicyDecision}
use witseal.Schema.Approval.{
  ApprovalRecord, ApprovalOutcome, approved, rejected, timed_out, cancelled,
}
use witseal.Schema.Execution.{ExecutionResult}
use witseal.Schema.Witness.{
  WitnessEvent, WitnessOutcome, pending, denied_by_policy, denied_by_approval, no_policy_configured,
}
use witseal.Log.{Parsers, LogFiles}
use witseal.Policy.{
  CompiledPack, evaluate, ExecutionMode, gate, witness, apply_constraint, is_require_approval,
}
use witseal.Policy.Deciding.{apply_constraint_lem}
use witseal.Emit.{emit_intent_recorded}
use witseal.Recovery.{run_recovery_if_needed}
use witseal.Exec.{
  ExecOptions, Surroundings, ExecState, logged, is_witness, is_approved, shell_intent,
  classified_intent, emit_input, refuse, run_command, complete, execute, constrain, approve, decide,
  with_packs, run_exec,
}

abbrev pub Runs : Type 0
Runs = List (ShellCommandIntent × LogFiles)

proceed-runs {ℓ} :
    {A : Type ℓ} (r : Result A × ExecState) (c : ℤ) → (proceed r (λ _. return c)).1.runs ≡ r.1.runs
proceed-runs (ok a, s) c = refl
proceed-runs (err e, s) c = refl

-- A decision under which a command may run: in Witness Mode any, in Gate Mode one that allows it, or
-- one that an approval answers.
pub data Permitted : ExecutionMode → PolicyDecision → Option ApprovalRecord → Type 0 where
  witnessed : (d : PolicyDecision) (a : Option ApprovalRecord) → Permitted witness d a
  allowed :
      (m : ExecutionMode) (d : PolicyDecision) (a : Option ApprovalRecord)
      → d.outcome ≡ allow
      → Permitted m d a
  answered :
      (m : ExecutionMode) (d : PolicyDecision) (a : ApprovalRecord)
      → d.outcome ≡ require_approval
      → a.outcome ≡ approved
      → Permitted m d (some a)

module _ (parsers : Parsers) (sha256 : Text → Text) (around : Surroundings)
    (opts : ExecOptions) where
  -- The emission that comes before a run.
  abbrev pub record_intent : PolicyDecision → Option ApprovalRecord → Action LogFiles WitnessEvent
  record_intent d a =
      emit_intent_recorded parsers sha256 opts.segment_id around.first_stamp
        (emit_input parsers sha256 around opts d a none pending)

  -- One more run, at the log that this emission left when it returned.
  abbrev pub RanOnce : PolicyDecision → Option ApprovalRecord → Runs → Runs → Type 0
  RanOnce d a before after =
      (at : LogFiles) × ((event : WitnessEvent) × (((record_intent d a at).0 ≡ ok event)
          × (after ≡ (shell_intent opts, (record_intent d a at).1) ∷ before)))

  abbrev pub RunsOf : PolicyDecision → Runs → Runs → Type 0
  RunsOf d before after =
      (after ≡ before)
      ⊎ ((a : Option ApprovalRecord) × (Permitted opts.mode d a × RanOnce d a before after))

  refuse-runs :
      (d : PolicyDecision) (a : Option ApprovalRecord) (o : WitnessOutcome) (s : ExecState)
      → (refuse parsers sha256 around opts d a o s).1.runs ≡ s.runs
  unfolding refuse
  refuse-runs d a o s = proceed-runs _ _

  complete-runs :
      (p : Bool) (d : PolicyDecision) (a : Option ApprovalRecord) (e : WitnessEvent)
      (r : ExecutionResult) (s : ExecState)
      → (complete parsers sha256 around opts p d a e r s).1.runs ≡ s.runs
  unfolding complete
  complete-runs p d a e r s = proceed-runs _ _

  abbrev then_run :
      Bool → PolicyDecision → Option ApprovalRecord → WitnessEvent → Action ExecState ℤ
  then_run p d a recorded =
      run_command parsers sha256 around opts >>= complete parsers sha256 around opts p d a recorded

  execute-Ran :
      (p : Bool) (d : PolicyDecision) (a : Option ApprovalRecord) (s : ExecState)
      → Permitted opts.mode d a
      → RunsOf d s.runs (execute parsers sha256 around opts p d a s).1.runs
  unfolding execute
  execute-Ran p d a s permitted = go (record_intent d a s.files).0 refl
    where
      go :
          (r : Result WitnessEvent)
          → (record_intent d a s.files).0 ≡ r
          → RunsOf d s.runs (execute parsers sha256 around opts p d a s).1.runs
      go (ok event) h =
          let ran =
            ap (λ r. r.1.runs)
              (proceed-ok (logged (record_intent d a) s) event (then_run p d a) h) in
          inr (a, (permitted, (s.files, (event, (h, ran ∙ complete-runs p d a event _ _)))))
      go (err m) h =
          inl (ap (λ r. r.1.runs) (proceed-err (logged (record_intent d a) s) m (then_run p d a) h))

  constrain-Ran :
      (p : Bool) (d : PolicyDecision) (a : Option ApprovalRecord) (s : ExecState)
      → ((apply_constraint d opts.mode).block ≡ false → Permitted opts.mode d a)
      → RunsOf d s.runs (constrain parsers sha256 around opts p d a s).1.runs
  unfolding constrain
  constrain-Ran p d a s permitted = elim (Bool-cases (apply_constraint d opts.mode).block) [
    | inl blocked ↦ inl (rw blocked (refuse-runs d none denied_by_policy s))
    | inr free ↦ rw free (execute-Ran p d a s (permitted free))
  ]

  is_approved-approved : (o : ApprovalOutcome) → is_approved o ≡ true → o ≡ approved
  is_approved-approved approved h = refl
  is_approved-approved rejected h = cc
  is_approved-approved timed_out h = cc
  is_approved-approved cancelled h = cc

  approve-Ran :
      (p : Bool) (d : PolicyDecision) (a : ApprovalRecord) (s : ExecState)
      → d.outcome ≡ require_approval
      → RunsOf d s.runs (approve parsers sha256 around opts p d a s).1.runs
  unfolding approve
  approve-Ran p d a s asked = elim (Bool-cases (is_approved a.outcome)) [
    | inl granted ↦ rw granted (
        constrain-Ran p d (some a) s
          (λ _. answered opts.mode d a asked (is_approved-approved a.outcome granted)))
    | inr other ↦ inl (rw other (refuse-runs d (some a) denied_by_approval s))
  ]

  is_require_approval-eq : (o : Decision) → is_require_approval o ≡ true → o ≡ require_approval
  is_require_approval-eq require_approval h = refl
  is_require_approval-eq allow h = cc
  is_require_approval-eq deny h = cc

  -- What is neither blocked nor needs an approval may run.
  free-Permitted :
      (m : ExecutionMode) (d : PolicyDecision) (a : Option ApprovalRecord) (o : Decision)
      → d.outcome ≡ o
      → (not (is_witness m) && is_require_approval o) ≡ false
      → (apply_constraint d m).block ≡ false
      → Permitted m d a
  free-Permitted witness d a o h k free = witnessed d a
  free-Permitted gate d a allow h k free = allowed gate d a h
  free-Permitted gate d a require_approval h k free = cc
  free-Permitted gate d a deny h k free =
      absurd (true_false (sym ((apply_constraint_lem d gate).0.1 (refl, h)) ∙ free))
    where
      true_false : ¬ (true ≡ false)
      true_false e = cc

  decide-Ran :
      (p : Bool) (d : PolicyDecision) (s : ExecState)
      → RunsOf d s.runs (decide parsers sha256 around opts p d s).1.runs
  unfolding decide
  decide-Ran p d s =
      elim (Bool-cases (not (is_witness opts.mode) && is_require_approval d.outcome)) [
        | inr free ↦
            rw free (constrain-Ran p d none s (free-Permitted opts.mode d none d.outcome refl free))
        | inl asked ↦ rw asked (
            go (around.obtain_approval (classified_intent parsers sha256 around opts) d)
              (is_require_approval-eq d.outcome (last_true _ _ asked)))
      ]
    where
      last_true : (b c : Bool) → (b && c) ≡ true → c ≡ true
      last_true true c h = h
      last_true false c h = cc

      go :
          (r : Result ApprovalRecord)
          → d.outcome ≡ require_approval
          → RunsOf d s.runs (proceed (r, s) (approve parsers sha256 around opts p d)).1.runs
      go (ok a) asked = approve-Ran p d a s asked
      go (err m) asked = inl refl

  -- The decision of the packs on the command.
  abbrev pub decision_of : List CompiledPack → PolicyDecision
  decision_of packs = evaluate packs (classified_intent parsers sha256 around opts)

  with_packs-Ran :
      (packs : List CompiledPack) (s : ExecState)
      → RunsOf (decision_of packs) s.runs (with_packs parsers sha256 around opts packs s).1.runs
  unfolding with_packs
  with_packs-Ran packs s =
      let proceeds = is_empty packs && (around.allow_no_policy || is_witness opts.mode) in
      elim (Bool-cases (is_empty packs && not proceeds)) [
        | inl closed ↦ inl (rw closed (refuse-runs _ none no_policy_configured s))
        | inr opened ↦ rw opened (decide-Ran proceeds (decision_of packs) s)
      ]

  abbrev recover : Action LogFiles (Option WitnessEvent)
  recover = run_recovery_if_needed parsers sha256 opts.segment_id around.recovery_stamp

  -- A run of the pipeline, wherever it returns or throws, runs the command not at all, or once: then
  -- `intent_recorded` was appended before, and the policy's decision permits the run, which in Gate
  -- Mode is `allow`, or `require-approval` with an approval that is `approved`.
  pub run_exec-RunsOf :
      (packs : List CompiledPack) (s : ExecState)
      → around.packs ≡ ok packs
      → RunsOf (decision_of packs) s.runs (run_exec parsers sha256 around opts s).1.runs
  unfolding run_exec
  run_exec-RunsOf packs s loaded = go (recover s.files)
    where
      go :
          (r : Result (Option WitnessEvent) × LogFiles)
          → RunsOf
              (decision_of packs)
              s.runs
              (proceed
                (r.0, record s { files = r.1 })
                (λ _. attempt around.packs >>= with_packs parsers sha256 around opts)).1.runs
      go (ok e, files) =
          subst
            (λ r.
              RunsOf (decision_of packs) s.runs
                (proceed (r, record s { files = files })
                  (with_packs parsers sha256 around opts)).1.runs)
            (sym loaded) (with_packs-Ran packs (record s { files = files }))
      go (err m, files) = inl refl

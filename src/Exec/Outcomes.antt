-- ===== src/Exec/Outcomes.antt =====
-- `computeOutcome`: what the event behind a run says of it.
use witseal.Prelude.{
  arith, zero, suc, ◌≡◌, ◌≢◌, ◌⊎◌, inl, inr, refl, ap, ◌∙◌, Bool, true, false, not, Bool-cases,
  Option, none, some,
}
use witseal.Prelude.Text.{Text}
use witseal.Json.{ℤ, pos, negsuc}
use witseal.Schema.Policy.{Decision, allow, deny, require_approval, PolicyDecision}
use witseal.Schema.Approval.{ApprovalRecord}
use witseal.Schema.Execution.{ExecutionResult}
use witseal.Schema.Witness.{
  WitnessOutcome, allowed_executed, allowed_executed_with_error, approved_executed,
  approved_executed_with_error, witnessed_executed, witnessed_executed_with_error,
}
use witseal.Policy.{ExecutionMode, gate, witness}
use witseal.Exec.{compute_outcome, outcome_by, had_error, is_set, is_zero}
use witseal.Exec.Gated.{Permitted, witnessed, allowed, answered}

-- The outcomes of a run without and with an error.
abbrev pub clean : Decision → ExecutionMode → WitnessOutcome
clean allow m = allowed_executed
clean _ witness = witnessed_executed
clean _ gate = approved_executed

abbrev pub failed : Decision → ExecutionMode → WitnessOutcome
failed allow m = allowed_executed_with_error
failed _ witness = witnessed_executed_with_error
failed _ gate = approved_executed_with_error

abbrev pub run_outcome : Bool → Decision → ExecutionMode → WitnessOutcome
run_outcome true d m = failed d m
run_outcome false d m = clean d m

witnessed_by :
    (o : Decision) (b error : Bool) → outcome_by o b error witness ≡ run_outcome error o witness
witnessed_by allow b true = refl
witnessed_by allow b false = refl
witnessed_by deny b true = refl
witnessed_by deny b false = refl
witnessed_by require_approval b true = refl
witnessed_by require_approval b false = refl

allowed_by :
    (m : ExecutionMode) (b error : Bool) → outcome_by allow b error m ≡ run_outcome error allow m
allowed_by m b true = refl
allowed_by m b false = refl

approved_by :
    (m : ExecutionMode) (error : Bool)
    → outcome_by require_approval true error m ≡ run_outcome error require_approval m
approved_by witness true = refl
approved_by witness false = refl
approved_by gate true = refl
approved_by gate false = refl

-- The process ended with another code than 0, or it could not be run or watched to its end.
abbrev pub Fails : ExecutionResult → Type 0
Fails r = (r.exit_code ≢ pos 0) ⊎ ((e : Text) × (r.spawn_error ≡ some e))

abbrev pub Succeeds : ExecutionResult → Type 0
Succeeds r = (r.exit_code ≡ pos 0) × (r.spawn_error ≡ none)

had_error-Fails : (r : ExecutionResult) → Fails r → had_error r ≡ true
had_error-Fails r (inr (e, h)) = elim (Bool-cases (not (is_zero r.exit_code))) [
  | inl k ↦ rw k refl
  | inr k ↦ rw (k, h) refl
]
had_error-Fails r (inl h) = rw (by_code r.exit_code h) refl
  where
    by_code : (code : ℤ) → code ≢ pos 0 → not (is_zero code) ≡ true
    by_code (pos zero) n = absurd (n refl)
    by_code (pos (suc k)) n = ground arith
    by_code (negsuc k) n = refl

had_error-Succeeds : (r : ExecutionResult) → Succeeds r → had_error r ≡ false
had_error-Succeeds r (code, spawned) = rw (code, spawned) refl

by_error :
    (m : ExecutionMode) (d : PolicyDecision) (a : Option ApprovalRecord) (r : ExecutionResult)
    → Permitted m d a
    → compute_outcome d.outcome (is_set a) r m ≡ run_outcome (had_error r) d.outcome m
unfolding compute_outcome
by_error m d a r (witnessed _ _) = witnessed_by d.outcome (is_set a) (had_error r)
by_error m d a r (allowed _ _ _ h) = rw h (allowed_by m (is_set a) (had_error r))
by_error m d a r (answered _ _ _ h k) = rw h (approved_by m (had_error r))

-- A run that is permitted is recorded as executed, by the mode and the decision, and never as denied:
-- with an error where the exit code is not 0 or there is a spawn error, and without one where the exit
-- code is 0 and there is none.
pub compute_outcome-executed :
    (m : ExecutionMode) (d : PolicyDecision) (a : Option ApprovalRecord) (r : ExecutionResult)
    → Permitted m d a
    → (Fails r → compute_outcome d.outcome (is_set a) r m ≡ failed d.outcome m)
      × (Succeeds r → compute_outcome d.outcome (is_set a) r m ≡ clean d.outcome m)
compute_outcome-executed m d a r p = (
  (λ h. by_error m d a r p ∙ ap (λ b. run_outcome b d.outcome m) (had_error-Fails r h)),
  (λ h. by_error m d a r p ∙ ap (λ b. run_outcome b d.outcome m) (had_error-Succeeds r h)),
)

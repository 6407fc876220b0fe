-- ===== src/Exec/Tests.antt =====
-- `ls -l` in Gate Mode, under a pack that asks for an approval.
use witseal.Prelude.{◌≡◌, refl, false, true, ok, err, [], ◌∷◌, none, some}
use witseal.Prelude.Text.{Text, codes}
use witseal.Json.{pos}
use witseal.Schema.Intent.{c1}
use witseal.Schema.Policy.{require_approval}
use witseal.Schema.Approval.{ApprovalRecord, approved, human}
use witseal.Schema.Execution.{ExecutionResult, StreamCapture}
use witseal.Schema.Witness.{approved_executed, approved_executed_with_error}
use witseal.Schema.Witness.Samples.{decision_with}
use witseal.Log.{Parsers}
use witseal.Policy.{CompiledPack, gate}
use witseal.Emit.{Stamp}
use witseal.Exec.{ExecOptions, Surroundings, ExecState, run_exec, compute_outcome}
use witseal.Exec.Gated.{answered, RunsOf, decision_of, run_exec-RunsOf}
use witseal.Exec.Outcomes.{Fails, Succeeds, compute_outcome-executed}

abbrev plain_hash : Text → Text
plain_hash t = t

-- Parsers that refuse every text.
abbrev parsers : Parsers
parsers = record {
  parse_json = λ t. err (codes "SyntaxError");
  parse_event = λ v. err (codes "ZodError");
}

abbrev stamp : Stamp
stamp = record {
  event_id = codes "evt_1";
  receipt_id = codes "rcpt_1";
  timestamp = codes "2026-01-01T00:00:00Z";
  hostname = [];
  witseal_version = codes "0.1.1";
}

abbrev capture : StreamCapture
capture = record {
  total_bytes = 0;
  content_hash = codes "h";
  head = none;
  tail = none;
  head_bytes = 0;
  tail_bytes = 0;
  truncated = false;
}

abbrev result : ExecutionResult
result = record {
  started_at = codes "2026-01-01T00:00:00Z";
  finished_at = codes "2026-01-01T00:00:01Z";
  exit_code = pos 0;
  signal = none;
  stdout = capture;
  stderr = capture;
  executable_resolved = codes "/bin/ls";
  env_keys_hash = codes "h";
  spawn_error = none;
}

abbrev approval : ApprovalRecord
approval = record {
  approval_id = codes "apr_1";
  intent_id = codes "int_1";
  prompted_at = codes "2026-01-01T00:00:00Z";
  resolved_at = codes "2026-01-01T00:00:01Z";
  outcome = approved;
  principal = record { type = human; identifier = codes "op"; identity_origin = none };
  reason = none;
  timeout_seconds = 300;
}

abbrev asking : CompiledPack
asking = record {
  pack = record {
    pack_id = codes "p";
    version = codes "1";
    description = codes "asks";
    rules = [];
    default_decision = require_approval;
  };
  content_hash = codes "h";
  rules = [];
}

abbrev around : Surroundings
around = record {
  classify = λ i. (c1, []);
  packs = ok (asking ∷ []);
  obtain_approval = λ i d. ok approval;
  mediate_shell = λ i. result;
  allow_no_policy = false;
  policy_dir = codes "/packs";
  intent_id = codes "int_1";
  recovery_stamp = stamp;
  first_stamp = stamp;
  second_stamp = stamp;
}

abbrev opts : ExecOptions
opts = record {
  command = codes "ls";
  args = codes "-l" ∷ [];
  agent_id = codes "agent";
  identity_origin = none;
  cwd = codes "/";
  segment_id = codes "default";
  mode = gate;
}

abbrev start : ExecState
start = record { files = record { log = none; head_cache = none }; runs = [] }

run_exec-RunsOf_example :
    RunsOf parsers plain_hash around opts
      (decision_of parsers plain_hash around opts (asking ∷ []))
      []
      (run_exec parsers plain_hash around opts start).1.runs
run_exec-RunsOf_example = run_exec-RunsOf parsers plain_hash around opts (asking ∷ []) start refl

compute_outcome-executed_example :
    (Fails result
      → compute_outcome require_approval true result gate ≡ approved_executed_with_error)
    × (Succeeds result → compute_outcome require_approval true result gate ≡ approved_executed)
compute_outcome-executed_example =
    compute_outcome-executed gate (decision_with require_approval) (some approval) result
      (answered gate (decision_with require_approval) approval refl refl)

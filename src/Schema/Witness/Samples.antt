-- ===== src/Schema/Witness/Samples.antt =====
-- Drafts of events for the tests.
use witseal.Prelude.{ℕ, false, [], ◌∷◌, Option, none}
use witseal.Prelude.Text.{Text, codes}
use witseal.Schema.Intent.{shell, ClassifiedIntent, c1}
use witseal.Schema.Policy.{PolicyDecision, allow, Decision}
use witseal.Schema.Witness.{WitnessEventDraft, WitnessOutcome}

abbrev pub list_files : ClassifiedIntent
list_files = record {
  intent_id = codes "int_1";
  intent = shell (record {
    executable = codes "ls";
    args = codes "-l" ∷ [];
    cwd = codes "/";
    env_keys_passed = none;
    use_tty = false;
  });
  risk_class = c1;
  classification_reasons = [];
  classifier_version = codes "witseal-classifier-1.2";
}

abbrev pub decision_with : Decision → PolicyDecision
decision_with o = record {
  outcome = o;
  matched_rule = none;
  reason = codes "why";
  active_pack_hashes = [];
}

abbrev pub draft_of : WitnessOutcome → Option Text → ℕ → WitnessEventDraft
draft_of outcome head sequence = record {
  event_id = codes "evt_abcdefghijklmnopqrstuv";
  chain_segment_id = codes "default";
  sequence = sequence;
  timestamp = codes "2026-01-01T00:00:00Z";
  previous_event_hash = head;
  originating_node = codes "local";
  agent_identifier = codes "agent";
  identity_origin = none;
  classified_intent = list_files;
  policy_decision = decision_with allow;
  approval = none;
  execution_result = none;
  outcome = outcome;
  receipt_id = codes "rcpt_1";
  intent_recorded_event_id = none;
  operation_id = none;
  versions = record {
    witseal_runtime = codes "0.1.1";
    classifier = codes "witseal-classifier-1.2";
  };
}

-- ===== src/Schema/Witness/Plain.antt =====
-- Every object of the schemas is plain JSON: no undefined, no number but integers.
use witseal.Prelude.{Option, none, some, List, [], ◌∷◌, map}
use witseal.Prelude.Text.{Text}
use witseal.Json.{Value, Fields, end, str, items, nullable, optional}
use witseal.Json.Stringify.{
  IsPlain, ArePlain, HasPlain, plain_null, plain_bool, plain_int, plain_str, plain_arr, plain_obj,
  no_item, item, no_field, with_field,
}
use witseal.Schema.Intent.{
  ClassifiedIntent, Intent, shell, write, read, classified_intent_value, intent_value,
}
use witseal.Schema.Policy.{PolicyDecision, policy_decision_value, PackHash, pack_hash_value}
use witseal.Schema.Approval.{ApprovalRecord, approval_value, identity_origin_value}
use witseal.Schema.Execution.{
  ExecutionResult, execution_result_value, StreamCapture, stream_capture_value,
}
use witseal.Schema.Witness.{WitnessEventDraft, WitnessEvent, draft_fields, draft_value, event_value}

pub ruleset plain_rules =
    (plain_null, plain_bool, plain_int, plain_str, plain_arr, plain_obj, no_field, with_field)

items-ArePlain {ℓ} :
    {A : Type ℓ} (f : A → Value)
    → ((a : A) → IsPlain (f a))
    → (xs : List A) → ArePlain (items (map f xs))
items-ArePlain f h [] = no_item
items-ArePlain f h (a ∷ xs) = item (h a) (items-ArePlain f h xs)

nullable-IsPlain {ℓ} :
    {A : Type ℓ} (f : A → Value)
    → ((a : A) → IsPlain (f a))
    → (o : Option A) → IsPlain (nullable f o)
nullable-IsPlain f h none = plain_null
nullable-IsPlain f h (some a) = h a

optional-HasPlain {ℓ} :
    {A : Type ℓ} (k : Text) (f : A → Value)
    → ((a : A) → IsPlain (f a))
    → (o : Option A) (fs : Fields) → HasPlain fs
    → HasPlain (optional k f o fs)
optional-HasPlain k f h none fs t = t
optional-HasPlain k f h (some a) fs t = with_field k (h a) t

text_items-ArePlain : (ts : List Text) → ArePlain (items (map str ts))
text_items-ArePlain ts = items-ArePlain str plain_str ts

intent-IsPlain : (i : Intent) → IsPlain (intent_value i)
unfolding intent_value
intent-IsPlain (shell i) = plain_obj (
    with_field _ (plain_str _) (
      with_field _ (plain_str _) (
        with_field _ (plain_arr (text_items-ArePlain i.args)) (
          with_field _ (plain_str _) (
            optional-HasPlain _ _ (λ ts. plain_arr (text_items-ArePlain ts)) i.env_keys_passed _
              (with_field _ (plain_bool _) no_field))))))
intent-IsPlain (write i) = search plain_rules depth 20
intent-IsPlain (read i) = search plain_rules depth 20

pub classified_intent-IsPlain : (c : ClassifiedIntent) → IsPlain (classified_intent_value c)
unfolding classified_intent_value
classified_intent-IsPlain c = search (plain_rules, intent-IsPlain, text_items-ArePlain) depth 20

pack_hash-IsPlain : (p : PackHash) → IsPlain (pack_hash_value p)
unfolding pack_hash_value
pack_hash-IsPlain p = search plain_rules depth 20

pub policy_decision-IsPlain : (d : PolicyDecision) → IsPlain (policy_decision_value d)
unfolding policy_decision_value
policy_decision-IsPlain d = plain_obj (
    with_field _ (plain_str _) (
      with_field _ (plain_str _) (
        with_field _ (nullable-IsPlain _ (λ m. search plain_rules depth 20) d.matched_rule) (
          with_field _ (plain_str _) (
            with_field _
              (plain_arr (items-ArePlain _ (λ p. search plain_rules depth 20) d.active_pack_hashes))
              no_field)))))

approval-IsPlain : (a : ApprovalRecord) → IsPlain (approval_value a)
unfolding approval_value
approval-IsPlain a = plain_obj (
    with_field _ (plain_str _) (
      with_field _ (plain_str _) (
        with_field _ (plain_str _) (
          with_field _ (plain_str _) (
            with_field _ (plain_str _) (
              with_field _ (plain_str _) (
                with_field _
                  (plain_obj (
                    with_field _ (plain_str _) (
                      with_field _ (plain_str _) (
                        optional-HasPlain _ _ (λ o. plain_str _) a.principal.identity_origin _
                          no_field))))
                  (optional-HasPlain _ _ plain_str a.reason _
                    (with_field _ (plain_int _) no_field)))))))))

pub nullable_text-IsPlain : (t : Option Text) → IsPlain (nullable str t)
nullable_text-IsPlain t = nullable-IsPlain str plain_str t

stream_capture-IsPlain : (s : StreamCapture) → IsPlain (stream_capture_value s)
unfolding stream_capture_value
stream_capture-IsPlain s = search (plain_rules, nullable_text-IsPlain) depth 20

pub execution_result-IsPlain : (r : ExecutionResult) → IsPlain (execution_result_value r)
execution_result-IsPlain r =
    unfold execution_result_value in
    plain_obj (
      with_field _ (plain_str _) (
        with_field _ (plain_str _) (
          with_field _ (plain_str _) (
            with_field _ (plain_int _) (
              with_field _ (nullable_text-IsPlain r.signal) (
                with_field _ (stream_capture-IsPlain r.stdout) (
                  with_field _ (stream_capture-IsPlain r.stderr) (
                    with_field _ (plain_str _) (
                      with_field _ (plain_str _)
                        (with_field _ (nullable_text-IsPlain r.spawn_error) no_field))))))))))

draft_fields-HasPlain :
    (d : WitnessEventDraft) (fs : Fields) → HasPlain fs → HasPlain (draft_fields d fs)
unfolding draft_fields
draft_fields-HasPlain d fs h = with_field _ (plain_str _) (
    with_field _ (plain_str _) (
      with_field _ (plain_str _) (
        with_field _ (plain_int _) (
          with_field _ (plain_str _) (
            with_field _ (nullable_text-IsPlain d.previous_event_hash) (
              with_field _ (plain_str _) (
                with_field _ (plain_str _) (
                  optional-HasPlain _ identity_origin_value (λ o. plain_str _) d.identity_origin _
                    (with_field _ (classified_intent-IsPlain d.classified_intent) (
                      with_field _ (policy_decision-IsPlain d.policy_decision) (
                        with_field _ (nullable-IsPlain _ approval-IsPlain d.approval) (
                          with_field _
                            (nullable-IsPlain _ execution_result-IsPlain d.execution_result)
                            (with_field _ (plain_str _) (
                              with_field _ (plain_str _) (
                                optional-HasPlain _ str plain_str d.intent_recorded_event_id _ (
                                  optional-HasPlain _ str plain_str d.operation_id _ (
                                    with_field _
                                      (plain_obj (
                                        with_field _ (plain_str _) (
                                          with_field _ (plain_str _)
                                            (with_field _ (plain_str _) no_field))))
                                      h)))))))))))))))))

pub draft-IsPlain : (d : WitnessEventDraft) → IsPlain (draft_value d)
draft-IsPlain d = unfold draft_value in plain_obj (draft_fields-HasPlain d end no_field)

pub event-IsPlain : (e : WitnessEvent) → IsPlain (event_value e)
event-IsPlain e =
    unfold event_value in
    plain_obj (draft_fields-HasPlain e.draft _ (with_field _ (plain_str _) no_field))

-- ===== src/Schema/Policy.antt =====
-- schemas/policy.schema.ts
use witseal.Prelude.{List, Option, map}
use witseal.Prelude.Text.{Text, codes}
use witseal.Json.{Value, end, field, str, arr, obj, items, nullable}
use witseal.Schema.Intent.{RiskClass, ActionType}

-- A `RuleMatch`: the field conditions, then `all_of`, `any_of` and `not`, each optional.
pub record FieldMatch : Type 0 where
  pub action_type : Option ActionType
  pub risk_class : Option RiskClass
  pub risk_class_in : Option (List RiskClass)
  pub executable_matches : Option Text
  pub command_matches : Option Text
  pub path_matches : Option Text

mutual
  pub data RuleMatch : Type 0 where
    rule_match : FieldMatch → MatchList → MatchList → MatchOption → RuleMatch

  pub data MatchOption : Type 0 where
    unset : MatchOption
    set : RuleMatch → MatchOption

  -- `RuleMatch[] | undefined`
  pub data MatchList : Type 0 where
    unset_list : MatchList
    set_list : Matches → MatchList

  pub data Matches : Type 0 where
    nil : Matches
    cons : RuleMatch → Matches → Matches

pub data Decision : Type 0 where
  allow deny require_approval : Decision

pub decision_text : Decision → Text
decision_text allow = codes "allow"
decision_text deny = codes "deny"
decision_text require_approval = codes "require-approval"

-- The examples of a rule are not read by the engine.
pub record PolicyRule : Type 0 where
  pub id : Text
  pub match : RuleMatch
  pub decision : Decision
  pub reason : Text

pub record PolicyPack : Type 0 where
  pub pack_id : Text
  pub version : Text
  pub description : Text
  pub rules : List PolicyRule
  pub default_decision : Decision

pub record MatchedRule : Type 0 where
  pub pack_id : Text
  pub pack_version : Text
  pub rule_id : Text

pub record PackHash : Type 0 where
  pub pack_id : Text
  pub version : Text
  pub content_hash : Text

pub record PolicyDecision : Type 0 where
  pub outcome : Decision
  pub matched_rule : Option MatchedRule
  pub reason : Text
  pub active_pack_hashes : List PackHash

unfoldable pub matched_rule_value : MatchedRule → Value
matched_rule_value m = obj (
    field (codes "pack_id") (str m.pack_id) (
      field (codes "pack_version") (str m.pack_version)
        (field (codes "rule_id") (str m.rule_id) end)))

unfoldable pub pack_hash_value : PackHash → Value
pack_hash_value p = obj (
    field (codes "pack_id") (str p.pack_id) (
      field (codes "version") (str p.version)
        (field (codes "content_hash") (str p.content_hash) end)))

unfoldable pub policy_decision_value : PolicyDecision → Value
unfolding matched_rule_value pack_hash_value decision_text
policy_decision_value d = obj (
    field (codes "schema_version") (str (codes "witseal.policy.v0.1")) (
      field (codes "outcome") (str (decision_text d.outcome)) (
        field (codes "matched_rule") (nullable matched_rule_value d.matched_rule) (
          field (codes "reason") (str d.reason) (
            field (codes "active_pack_hashes")
              (arr (items (map pack_hash_value d.active_pack_hashes))) end)))))

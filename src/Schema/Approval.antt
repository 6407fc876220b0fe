-- ===== src/Schema/Approval.antt =====
-- schemas/approval.schema.ts
use witseal.Prelude.{ℕ, Option}
use witseal.Prelude.Text.{Text, codes}
use witseal.Json.{Value, end, field, str, obj, nat, optional}

pub data PrincipalType : Type 0 where
  human ci : PrincipalType

pub data IdentityOrigin : Type 0 where
  configured fallback : IdentityOrigin

pub record ApprovalPrincipal : Type 0 where
  pub type : PrincipalType
  pub identifier : Text
  pub identity_origin : Option IdentityOrigin

pub data ApprovalOutcome : Type 0 where
  approved rejected timed_out cancelled : ApprovalOutcome

pub record ApprovalRecord : Type 0 where
  pub approval_id : Text
  pub intent_id : Text
  pub prompted_at : Text
  pub resolved_at : Text
  pub outcome : ApprovalOutcome
  pub principal : ApprovalPrincipal
  pub reason : Option Text
  pub timeout_seconds : ℕ

principal_type_text : PrincipalType → Text
principal_type_text human = codes "human"
principal_type_text ci = codes "ci"

pub identity_origin_text : IdentityOrigin → Text
identity_origin_text configured = codes "configured"
identity_origin_text fallback = codes "fallback"

abbrev pub identity_origin_value : IdentityOrigin → Value
identity_origin_value o = str (identity_origin_text o)

approval_outcome_text : ApprovalOutcome → Text
approval_outcome_text approved = codes "approved"
approval_outcome_text rejected = codes "rejected"
approval_outcome_text timed_out = codes "timed_out"
approval_outcome_text cancelled = codes "cancelled"

unfoldable pub principal_value : ApprovalPrincipal → Value
unfolding principal_type_text identity_origin_text
principal_value p = obj (
    field (codes "type") (str (principal_type_text p.type)) (
      field (codes "identifier") (str p.identifier)
        (optional (codes "identity_origin") identity_origin_value p.identity_origin end)))

unfoldable pub approval_value : ApprovalRecord → Value
unfolding principal_value approval_outcome_text
approval_value a = obj (
    field (codes "schema_version") (str (codes "witseal.approval.v0.1")) (
      field (codes "approval_id") (str a.approval_id) (
        field (codes "intent_id") (str a.intent_id) (
          field (codes "prompted_at") (str a.prompted_at) (
            field (codes "resolved_at") (str a.resolved_at) (
              field (codes "outcome") (str (approval_outcome_text a.outcome)) (
                field (codes "principal") (principal_value a.principal) (
                  optional (codes "reason") str a.reason
                    (field (codes "timeout_seconds") (nat a.timeout_seconds) end)))))))))

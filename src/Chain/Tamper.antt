-- ===== src/Chain/Tamper.antt =====
-- src/integrity/tamper.ts: the report that names the kind of a break.
pub mod Kinds
pub mod Report
use witseal.Prelude.{
  ℕ, Bool, true, false, List, Option, some, is_empty, if◌then◌else◌, Result, ok, ◌>>=◌,
}
use witseal.Prelude.Text.{Text, codes, includes}
use witseal.Schema.Witness.{WitnessEvent}
use witseal.Chain.{ChainVerifyResult, verify_chain}

-- `TamperKind`
pub data TamperKind : Type 0 where
  none content linkage sequence : TamperKind

pub record TamperReport : Type 0 where
  pub tampered : Bool
  pub kind : TamperKind
  pub at_index : Option ℕ
  pub detail : Option Text

-- An empty reason is falsy, as an absent one is.
pub classify_break : Option Text → TamperKind
classify_break Option.none = content
classify_break (some reason) =
    if is_empty reason
    then content
    else if includes reason (codes "previous_event_hash")
    then linkage
    else if includes reason (codes "event_hash invalid")
    then content
    else if includes reason (codes "sequence")
    then sequence
    else content

abbrev report_of : ChainVerifyResult → TamperReport
report_of result =
    if result.valid
    then record {
      tampered = false;
      kind = TamperKind.none;
      at_index = Option.none;
      detail = Option.none;
    }
    else record {
      tampered = true;
      kind = classify_break result.reason;
      at_index = result.broken_at;
      detail = result.reason;
    }

module _ (sha256 : Text → Text) where
  pub detect_tampering : List WitnessEvent → Option Text → Result TamperReport
  detect_tampering events expected_chain_head_before =
      verify_chain sha256 events expected_chain_head_before >>= λ result. ok (report_of result)

-- ===== src/Evidence/Tests.antt =====
-- A package of one event.
use witseal.Prelude.{◌≡◌, refl, [], ◌∷◌, none, some, ok}
use witseal.Prelude.Text.{codes}
use witseal.Json.{nil}
use witseal.Schema.Witness.{WitnessEvent, pending}
use witseal.Schema.Witness.Samples.{draft_of}
use witseal.Chain.Digest.{event_digest}
use witseal.Receipts.{ExecutionReceipt, generate_receipt}
use witseal.Receipts.Derived.{verify_receipt-generate_receipt}
use witseal.Receipts.Tests.{plain_crypto}
use witseal.Receipts.Versions.{v01}
use witseal.Verify.{Schemas, parsed, issues}
use witseal.Verify.Artifact.{verify_artifact}
use witseal.Verify.Package.{Accepts}
use witseal.Evidence.{
  EvidencePackage, ExportOptions, ExportStamp, package_of, export_evidence_package, package_value,
  find_hash_before, generate_v01_receipts,
}
use witseal.Evidence.Exported.{envelope_of, verify_artifact-export_evidence_package}

abbrev first : WitnessEvent
first = record {
  draft = draft_of pending none 0;
  event_hash = event_digest plain_crypto.sha256 (draft_of pending none 0);
}

abbrev stamp : ExportStamp
stamp = record {
  package_id = codes "pkg_1";
  exported_at = codes "t";
  now = λ e. codes "t";
  runtime_version = codes "0.1.1";
}

abbrev options : ExportOptions plain_crypto.PrivateKey
options = record { start_sequence = none; end_sequence = some 7; v02_options = none }

first_receipt :
    (r : ExecutionReceipt) × (generate_receipt plain_crypto.sha256 (codes "t") first ≡ ok r)
first_receipt =
    let made = verify_receipt-generate_receipt plain_crypto.sha256 (codes "t") first in
    (made.0, made.1.0)

abbrev one_package : EvidencePackage
one_package =
    package_of plain_crypto stamp nil (codes "1.2") 0 7 none first first (first ∷ [])
      (v01 first_receipt.0 ∷ [])

package_exported :
    export_evidence_package plain_crypto stamp (first ∷ []) nil (codes "1.2") options
    ≡ ok one_package
unfolding export_evidence_package generate_v01_receipts find_hash_before
package_exported = rw first_receipt.1 refl

abbrev schemas : Schemas
schemas = record {
  parse_v01 = λ v. parsed first_receipt.0;
  parse_v02 = λ v. issues [];
  parse_envelope = λ v. parsed (envelope_of one_package);
}

verify_artifact-export_evidence_package_example :
    Accepts (verify_artifact plain_crypto schemas (package_value one_package) none)
verify_artifact-export_evidence_package_example =
    verify_artifact-export_evidence_package plain_crypto stamp schemas none (first ∷ []) nil
      (codes "1.2") options one_package ((refl, refl, refl), tt) (tt, tt) tt (refl, (refl, tt))
      package_exported

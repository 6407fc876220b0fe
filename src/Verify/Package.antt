-- ===== src/Verify/Package.antt =====
-- What a valid evidence package is: the verifier decides it.
use witseal.Prelude.{
  ℕ, ◌+◌, ◌≡◌, ◌↔◌, ◌≢◌, refl, sym, subst, ◌∙◌, true, false, List, [], ◌∷◌, Option, none, some,
  Result, ok, ◌>>=◌, >>=-eq-ok, get_last?, Bool-cases, inl, inr,
}
use witseal.Prelude.Text.{option_eq, option_eq_iff}
use witseal.Json.{Value, Items, nil, cons}
use witseal.Schema.Witness.{WitnessEvent}
use witseal.Chain.Spec.{IsChain}
use witseal.Chain.Verified.{verify_chain-valid_iff, verdict_of}
use witseal.Receipts.{ReceiptCheck}
use witseal.Receipts.Signing.{Crypto, KeyMaterial}
use witseal.Verify.{ReceiptResult, VerifyResult, Envelope, Schemas, parsed, verify_package_receipt}
use witseal.Verify.Artifact.{
  check_receipts, verify_receipts, first_failure, package_verdict, raw_receipts, recomputed_head,
  verify_evidence_package_object,
}

-- A check that returns and holds.
abbrev pub Holds : Result ReceiptCheck → Type 0
Holds r = (c : ReceiptCheck) × ((r ≡ ok c) × (c.valid ≡ true))

abbrev pub Accepts : Result VerifyResult → Type 0
Accepts r = (v : VerifyResult) × ((r ≡ ok v) × (v.valid ≡ true))

true_not_false : true ≢ false
true_not_false h = cc

first_failure-none :
    (r : ReceiptResult) (rs : List ReceiptResult)
    → first_failure (r ∷ rs) ≡ none
    → (r.check.valid ≡ true) × (first_failure rs ≡ none)
unfolding first_failure
first_failure-none r rs h = elim (Bool-cases r.check.valid) [
  | inl good ↦ let rest = rw good at h in (good, rest)
  | inr bad ↦ let failed = rw bad at h in cc
]

package_verdict-valid :
    (o : Option ReceiptResult) (rs : List ReceiptResult)
    → (package_verdict o rs).valid ≡ true
    → o ≡ none
package_verdict-valid none rs h = refl
package_verdict-valid (some f) rs h = cc

module _ (crypto : Crypto) (schemas : Schemas)
    (public_key : Option (KeyMaterial crypto.PublicKey)) where
  -- Each receipt of the package is valid for its event.
  abbrev pub AllHold : List WitnessEvent → Items → Type 0
  AllHold events nil = Unit
  AllHold events (cons raw raws) =
      Holds (verify_package_receipt crypto schemas raw events public_key) × AllHold events raws

  abbrev NoFailure : Result (List ReceiptResult) → Type 0
  NoFailure r = (rs : List ReceiptResult) × ((r ≡ ok rs) × (first_failure rs ≡ none))

  receipts-AllHold :
      (i : ℕ) (raws : Items) (events : List WitnessEvent)
      → NoFailure (verify_receipts crypto schemas i raws events public_key)
      → AllHold events raws
  unfolding verify_receipts first_failure
  receipts-AllHold i nil events h = tt
  receipts-AllHold i (cons raw raws) events (rs, (h, none_fails)) =
      let one =
        >>=-eq-ok (verify_package_receipt crypto schemas raw events public_key)
          (λ sub. verify_receipts crypto schemas (i + 1) raws events public_key >>= λ results.
            ok (record { index = i; check = sub } ∷ results))
          h in
      let more =
        >>=-eq-ok (verify_receipts crypto schemas (i + 1) raws events public_key)
          (λ results. ok (record { index = i; check = one.0 } ∷ results)) one.2 in
      let none_of : first_failure (record { index = i; check = one.0 } ∷ more.0) ≡ none =
        subst (λ rs. first_failure rs ≡ none) {x = rs}
          {y = record { index = i; check = one.0 } ∷ more.0} (cc) none_fails in
      let holds = first_failure-none (record { index = i; check = one.0 }) more.0 none_of in
      ((one.0, (one.1, holds.0)), receipts-AllHold (i + 1) raws events (more.0, (more.1, holds.1)))

  AllHold-receipts :
      (i : ℕ) (raws : Items) (events : List WitnessEvent)
      → AllHold events raws
      → NoFailure (verify_receipts crypto schemas i raws events public_key)
  unfolding verify_receipts first_failure
  AllHold-receipts i nil events h = ([], (refl, refl))
  AllHold-receipts i (cons raw raws) events ((c, (checked, good)), h) =
      let rest = AllHold-receipts (i + 1) raws events h in
      (record { index = i; check = c } ∷ rest.0, (rw (checked, rest.1.0) refl, rw good rest.1.1))

  receipts-Accepts :
      (pkg : Envelope) (raws : Items)
      → Accepts (check_receipts crypto schemas pkg public_key (some raws)) ↔ AllHold pkg.events raws
  receipts-Accepts pkg raws = (
    (λ (v, (h, good)).
        let results =
          >>=-eq-ok (verify_receipts crypto schemas 0 raws pkg.events public_key)
            (λ results. ok (package_verdict (first_failure results) results)) h in
        let valid : (package_verdict (first_failure results.0) results.0).valid ≡ true =
          subst (λ v. v.valid ≡ true) {x = v}
            {y = package_verdict (first_failure results.0) results.0} (cc) good in
        receipts-AllHold 0 raws pkg.events
          (results.0, (results.1, package_verdict-valid _ results.0 valid))),
    (λ all.
        let results = AllHold-receipts 0 raws pkg.events all in
        (package_verdict none results.0, (rw (results.1.0, results.1.1) refl, refl))),
  )

  -- The events are a chain from the head before the range, the head after it is the last one's hash, and
  -- each receipt holds.
  abbrev pub IsValidPackage : Envelope → Items → Type 0
  IsValidPackage pkg raws =
      IsChain crypto.sha256 pkg.chain_head_before_range pkg.events
      × ((recomputed_head (get_last? pkg.events) ≡ some pkg.chain_head_after_range)
          × AllHold pkg.events raws)

  -- Of an object that the schema reads and whose receipts are an array, the verdict is valid exactly if
  -- the events are a chain, the last head is the last event's hash, and each receipt is accepted.
  pub package_object-Accepts :
      (value : Value) (pkg : Envelope) (raws : Items)
      → schemas.parse_envelope value ≡ parsed pkg
      → raw_receipts value ≡ some raws
      → Accepts (verify_evidence_package_object crypto schemas value public_key)
        ↔ IsValidPackage pkg raws
  unfolding verify_evidence_package_object
  package_object-Accepts value pkg raws hp hr =
      elim (verdict_of crypto.sha256 pkg.events pkg.chain_head_before_range) [
        | inl (chain, returned) ↦
            elim (Bool-cases (
              option_eq (recomputed_head (get_last? pkg.events))
                (some pkg.chain_head_after_range))) [
                  | inl same ↦
                      rw (hp, returned, same, hr)
                        (
                          (λ a. (
                            chain,
                            ((option_eq_iff _ _).0 same, (receipts-Accepts pkg raws).0 a),
                          )),
                          (λ (c, (e, all)). (receipts-Accepts pkg raws).1 all),
                        )
                  | inr other ↦
                      rw (hp, returned, other)
                        (
                          (λ (v, (h, good)). cc),
                          (λ (c, (e, all)).
                              absurd (true_not_false (sym ((option_eq_iff _ _).1 e) ∙ other))),
                        )
                ]
        | inr (j, k, f, b, h, found, returned) ↦
            rw (hp, returned)
              (
                (λ (v, (h, good)). cc),
                (λ (c, (e, all)).
                    let accepts =
                      (verify_chain-valid_iff crypto.sha256 pkg.events
                          pkg.chain_head_before_range).1
                        c in
                    cc (sym returned ∙ accepts)),
              )
      ]

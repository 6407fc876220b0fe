-- ===== src/Verify/Exact.antt =====
-- What a valid evidence package is, down to each of its receipts.
use witseal.Prelude.{◌≡◌, ◌↔◌, refl, sym, ap, ◌∙◌, List, Option, none, some, get_last?}
use witseal.Prelude.Text.{Text}
use witseal.Json.{Value, Items, nil, cons}
use witseal.Schema.Witness.{WitnessEvent}
use witseal.Chain.Spec.{IsChain}
use witseal.Receipts.Signing.{Crypto, KeyMaterial}
use witseal.Verify.{Envelope, Schemas, parsed}
use witseal.Verify.Artifact.{raw_receipts, recomputed_head, verify_evidence_package_object}
use witseal.Verify.Package.{AllHold, Accepts, package_object-Accepts}
use witseal.Verify.Paired.{ReceiptHolds, package_receipt_iff}

module _ (crypto : Crypto) (schemas : Schemas)
    (public_key : Option (KeyMaterial crypto.PublicKey)) where
  abbrev pub AllReceiptsHold : List WitnessEvent → Items → Type 0
  AllReceiptsHold events nil = Unit
  AllReceiptsHold events (cons raw raws) =
      ReceiptHolds crypto schemas public_key events raw × AllReceiptsHold events raws

  AllHold-iff :
      (events : List WitnessEvent) (raws : Items)
      → AllHold crypto schemas public_key events raws ↔ AllReceiptsHold events raws
  AllHold-iff events nil = ((λ h. h), (λ h. h))
  AllHold-iff events (cons raw raws) =
      let one = package_receipt_iff crypto schemas public_key events raw in
      let more = AllHold-iff events raws in
      ((λ (h, k). (one.0 h, more.0 k)), (λ (h, k). (one.1 h, more.1 k)))

  -- The events are a chain from the head before the range, there is a last one, the head after the range
  -- is its hash, and each receipt holds.
  abbrev pub IsGenuine : Envelope → Items → Type 0
  IsGenuine pkg raws =
      IsChain crypto.sha256 pkg.chain_head_before_range pkg.events
      × ((e : WitnessEvent) × (get_last? pkg.events ≡ some e)
          × (e.event_hash ≡ pkg.chain_head_after_range))
      × AllReceiptsHold pkg.events raws

  some-injective : (s t : Text) → some s ≡ some t → s ≡ t
  some-injective s t h = cc

  last_iff :
      (o : Option WitnessEvent) (pkg : Envelope)
      → (recomputed_head o ≡ some pkg.chain_head_after_range)
        ↔ ((e : WitnessEvent) × (o ≡ some e) × (e.event_hash ≡ pkg.chain_head_after_range))
  last_iff none pkg = ((λ h. cc), (λ (e, h, k). cc))
  last_iff (some e) pkg = (
    (λ h. (e, refl, some-injective e.event_hash pkg.chain_head_after_range h)),
    (λ (f, h, k). let same : f ≡ e = cc h in ap some (sym (ap (λ g. g.event_hash) same) ∙ k)),
  )

  -- Of an object that the schema reads and whose receipts are an array, the verdict is valid exactly if
  -- the events are a chain from the declared head, the declared last head is the last event's hash, and
  -- each receipt holds for the last of the events with the id that it names. An object of version 0.2
  -- holds if its schema reads it, a key is given and verifies it, and its digests are those of the event's
  -- intent and decision, and of the event's result if it has one; any other if the schema of version 0.1
  -- reads it and verifyReceipt accepts it for the event. How many receipts there are does not count.
  pub verify_evidence_package-valid_iff :
      (value : Value) (pkg : Envelope) (raws : Items)
      → schemas.parse_envelope value ≡ parsed pkg
      → raw_receipts value ≡ some raws
      → Accepts (verify_evidence_package_object crypto schemas value public_key)
        ↔ IsGenuine pkg raws
  verify_evidence_package-valid_iff value pkg raws hp hr =
      let accepts = package_object-Accepts crypto schemas public_key value pkg raws hp hr in
      let last = last_iff (get_last? pkg.events) pkg in
      let all = AllHold-iff pkg.events raws in
      (
        (λ h. let (chain, (head, k)) = accepts.0 h in (chain, last.0 head, all.0 k)),
        (λ (chain, head, k). accepts.1 (chain, (last.1 head, all.1 k))),
      )

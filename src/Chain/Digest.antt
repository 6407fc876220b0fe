-- ===== src/Chain/Digest.antt =====
-- The digest of a draft: hashing an event never throws.
use witseal.Prelude.{◌≡◌, ok}
use witseal.Prelude.Text.{Text}
use witseal.Json.{Value}
use witseal.Json.Canonical.{canonicalize}
use witseal.Json.Stringify.{IsPlain}
use witseal.Json.Serializable.{IsOk-eq, canonicalize-IsOk, IsPlain-IsSerializable}
use witseal.Schema.Witness.{WitnessEventDraft, WitnessEvent, draft_value}
use witseal.Schema.Witness.Plain.{draft-IsPlain}
use witseal.Chain.{
  sha256_of_canonical, hash_event, finalize_event, verify_event_hash, constant_time_equals,
}

-- The canonical text of a value that has one.
pub canonical_text : (v : Value) → IsPlain v → Text
canonical_text v h =
    (IsOk-eq (canonicalize v) ((canonicalize-IsOk v).1 (IsPlain-IsSerializable v h))).0

pub canonicalize-eq : (v : Value) (h : IsPlain v) → canonicalize v ≡ ok (canonical_text v h)
unfolding canonical_text
canonicalize-eq v h =
    (IsOk-eq (canonicalize v) ((canonicalize-IsOk v).1 (IsPlain-IsSerializable v h))).1

module _ (sha256 : Text → Text) where
  pub digest : (v : Value) → IsPlain v → Text
  digest v h = sha256 (canonical_text v h)

  pub sha256_of_canonical-eq :
      (v : Value) (h : IsPlain v) → sha256_of_canonical sha256 v ≡ ok (digest v h)
  unfolding sha256_of_canonical digest
  sha256_of_canonical-eq v h = rw (canonicalize-eq v h)

  pub event_digest : WitnessEventDraft → Text
  event_digest d = digest (draft_value d) (draft-IsPlain d)

  pub hash_event-eq : (d : WitnessEventDraft) → hash_event sha256 d ≡ ok (event_digest d)
  unfolding hash_event event_digest
  hash_event-eq d = sha256_of_canonical-eq (draft_value d) (draft-IsPlain d)

  pub finalize_event-eq :
      (d : WitnessEventDraft)
      → finalize_event sha256 d ≡ ok (record { draft = d; event_hash = event_digest d })
  unfolding finalize_event
  finalize_event-eq d = rw (hash_event-eq d)

  pub verify_event_hash-eq :
      (e : WitnessEvent)
      → verify_event_hash sha256 e ≡ ok (constant_time_equals e.event_hash (event_digest e.draft))
  unfolding verify_event_hash
  verify_event_hash-eq e = rw (hash_event-eq e.draft)

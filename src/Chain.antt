-- ===== src/Chain.antt =====
-- The hash chain: src/integrity/hash-chain.ts, and the tamper report over it,
-- src/integrity/tamper.ts. `sha256` stands for `createHash('sha256').update(s, 'utf8')` with
-- `.digest('hex')` of node:crypto, a parameter.
pub mod Equals
pub mod Digest
pub mod Spec
pub mod Verified
pub mod Tamper
pub mod Commitment
pub mod Tests
use Prim.Native.Nat.{bit_or, bit_xor}
use witseal.Prelude.{
  ℕ, zero, suc, ◌+◌, Bool, true, false, not, List, [], ◌∷◌, ◌++◌, Option, none, some, length, ◌==◌,
  if◌then◌else◌, Result, ok, err, ◌>>=◌,
}
use witseal.Prelude.Text.{Text, codes, option_eq}
use witseal.Json.{Value}
use witseal.Json.Decimal.{digits}
use witseal.Json.Canonical.{canonicalize}
use witseal.Schema.Witness.{WitnessEventDraft, WitnessEvent, draft_value}

-- The loop of `constantTimeEquals`, over texts of one length.
differences : ℕ → Text → Text → ℕ
differences result (a ∷ s) (b ∷ t) = differences (bit_or result (bit_xor a b)) s t
differences result _ _ = result

pub constant_time_equals : Text → Text → Bool
unfolding differences
constant_time_equals a b = if length a == length b then differences 0 a b == 0 else false

pub record ChainVerifyResult : Type 0 where
  pub valid : Bool
  pub broken_at : Option ℕ
  pub reason : Option Text
  pub chain_head_after : Option Text

-- A hash in a message: `null` where there is none.
abbrev pub hash_text : Option Text → Text
hash_text none = codes "null"
hash_text (some h) = h

pub linkage_reason : ℕ → Option Text → Option Text → Text
linkage_reason i expected got =
    codes "previous_event_hash mismatch at index "
    ++ (digits i
        ++ (codes ": expected " ++ (hash_text expected ++ (codes ", got " ++ hash_text got))))

pub content_reason : ℕ → Text → Text
content_reason i id =
    codes "event_hash invalid at index " ++ (digits i ++ (codes " (event_id=" ++ (id ++ codes ")")))

pub sequence_reason : ℕ → ℕ → ℕ → Text
sequence_reason i expected got =
    codes "sequence non-monotonic at index "
    ++ (digits i ++ (codes ": expected " ++ (digits expected ++ (codes ", got " ++ digits got))))

abbrev pub broken : ℕ → Text → ChainVerifyResult
broken i reason = record {
  valid = false;
  broken_at = some i;
  reason = some reason;
  chain_head_after = none;
}

-- `i === 0 ? events[i].sequence : events[i - 1].sequence + 1`, by the event before, if any
abbrev pub expected_sequence : Option ℕ → WitnessEvent → ℕ
expected_sequence none event = event.sequence
expected_sequence (some before) event = before + 1

module _ (sha256 : Text → Text) where
  pub sha256_of_canonical : Value → Result Text
  sha256_of_canonical v = canonicalize v >>= λ canonical. ok (sha256 canonical)

  pub hash_event : WitnessEventDraft → Result Text
  unfolding sha256_of_canonical
  hash_event draft = sha256_of_canonical (draft_value draft)

  pub finalize_event : WitnessEventDraft → Result WitnessEvent
  finalize_event draft =
      hash_event draft >>= λ event_hash. ok (record { draft = draft; event_hash = event_hash })

  pub verify_event_hash : WitnessEvent → Result Bool
  verify_event_hash event =
      hash_event event.draft >>= λ expected. ok (constant_time_equals event.event_hash expected)

  -- The loop of `verifyChain` from index `i`, behind an event of sequence `before`, if any.
  verify_from : ℕ → Option ℕ → Option Text → List WitnessEvent → Result ChainVerifyResult
  verify_from i before prev_hash [] =
      ok (record { valid = true; broken_at = none; reason = none; chain_head_after = prev_hash })
  verify_from i before prev_hash (event ∷ events) =
      let rest = verify_from (i + 1) (some event.sequence) (some event.event_hash) events in
      if not (option_eq event.previous_event_hash prev_hash)
      then ok (broken i (linkage_reason i prev_hash event.previous_event_hash))
      else (verify_event_hash event >>= λ hash_ok.
          if not hash_ok
          then ok (broken i (content_reason i event.event_id))
          else if not (event.sequence == expected_sequence before event)
          then ok (broken i (sequence_reason i (expected_sequence before event) event.sequence))
          else rest)

  pub verify_chain : List WitnessEvent → Option Text → Result ChainVerifyResult
  unfolding verify_from
  verify_chain events expected_chain_head_before =
      verify_from 0 none expected_chain_head_before events

-- ===== src/Chain/Spec.antt =====
-- What a valid chain is: each event names the hash of the one before, carries its own digest, and
-- has the next sequence number. The first event may have any number.
use witseal.Prelude.{ℕ, ◌≡◌, refl, List, [], ◌∷◌, ◌++◌, Option, none, some}
use witseal.Prelude.Text.{Text}
use witseal.Schema.Witness.{WitnessEvent}
use witseal.Chain.{expected_sequence}
use witseal.Chain.Digest.{event_digest}

module _ (sha256 : Text → Text) where
  abbrev pub IsLink : Option ℕ → Option Text → WitnessEvent → Type 0
  IsLink before head e =
      (e.previous_event_hash ≡ head)
      × (e.event_hash ≡ event_digest sha256 e.draft)
      × (e.sequence ≡ expected_sequence before e)

  -- Behind an event of sequence `before`, if any, and of hash `head`.
  abbrev pub IsChainFrom : Option ℕ → Option Text → List WitnessEvent → Type 0
  IsChainFrom before head [] = Unit
  IsChainFrom before head (e ∷ es) =
      IsLink before head e × IsChainFrom (some e.sequence) (some e.event_hash) es

  abbrev pub IsChain : Option Text → List WitnessEvent → Type 0
  IsChain head es = IsChainFrom none head es

-- The hash, and the sequence number, that the next event continues.
abbrev pub head_after : Option Text → List WitnessEvent → Option Text
head_after head [] = head
head_after head (e ∷ es) = head_after (some e.event_hash) es

abbrev pub sequence_after : Option ℕ → List WitnessEvent → Option ℕ
sequence_after before [] = before
sequence_after before (e ∷ es) = sequence_after (some e.sequence) es

module _ (sha256 : Text → Text) where
  -- A chain is extended by an event that continues it, and by no other.
  pub IsChainFrom-append :
      (before : Option ℕ) (head : Option Text) (es fs : List WitnessEvent)
      → IsChainFrom sha256 before head es
      → IsChainFrom sha256 (sequence_after before es) (head_after head es) fs
      → IsChainFrom sha256 before head (es ++ fs)
  IsChainFrom-append before head [] fs h k = k
  IsChainFrom-append before head (e ∷ es) fs (l, h) k =
      (l, IsChainFrom-append (some e.sequence) (some e.event_hash) es fs h k)

  pub IsChainFrom-left :
      (before : Option ℕ) (head : Option Text) (es fs : List WitnessEvent)
      → IsChainFrom sha256 before head (es ++ fs)
      → IsChainFrom sha256 before head es
  IsChainFrom-left before head [] fs h = tt
  IsChainFrom-left before head (e ∷ es) fs (l, h) =
      (l, IsChainFrom-left (some e.sequence) (some e.event_hash) es fs h)

  pub IsChainFrom-right :
      (before : Option ℕ) (head : Option Text) (es fs : List WitnessEvent)
      → IsChainFrom sha256 before head (es ++ fs)
      → IsChainFrom sha256 (sequence_after before es) (head_after head es) fs
  IsChainFrom-right before head [] fs h = h
  IsChainFrom-right before head (e ∷ es) fs (l, h) =
      IsChainFrom-right (some e.sequence) (some e.event_hash) es fs h

pub head_after-append :
    (head : Option Text) (es fs : List WitnessEvent)
    → head_after head (es ++ fs) ≡ head_after (head_after head es) fs
head_after-append head [] fs = refl
head_after-append head (e ∷ es) fs = head_after-append (some e.event_hash) es fs

pub sequence_after-append :
    (before : Option ℕ) (es fs : List WitnessEvent)
    → sequence_after before (es ++ fs) ≡ sequence_after (sequence_after before es) fs
sequence_after-append before [] fs = refl
sequence_after-append before (e ∷ es) fs = sequence_after-append (some e.sequence) es fs

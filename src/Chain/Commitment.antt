-- ===== src/Chain/Commitment.antt =====
-- The last hash of a chain commits to all of it.
use witseal.Prelude.{
  ok, inl, inr, ℕ, ◌≡◌, refl, sym, ◌∙◌, List, [], ◌∷◌, ◌++◌, Option, none, some, All, All-left,
  All-right,
}
use witseal.Prelude.Text.{Text}
use witseal.Schema.Witness.{WitnessEventDraft, WitnessEvent}
use witseal.Chain.{verify_chain, broken}
use witseal.Chain.Verified.{accepted, verdict_of}
use witseal.Chain.Digest.{event_digest}
use witseal.Chain.Spec.{
  IsChainFrom, IsChain, head_after, head_after-append, IsChainFrom-left, IsChainFrom-right,
}

-- A list taken apart at its end.
data SnocView {ℓ} {A : Type ℓ} : List A → Type ℓ where
  empty : SnocView []
  snoc : {xs : List A} → SnocView xs → (x : A) → SnocView (xs ++ x ∷ [])

SnocView-cons {ℓ} : {A : Type ℓ} (x : A) {xs : List A} → SnocView xs → SnocView (x ∷ xs)
SnocView-cons x empty = snoc empty x
SnocView-cons x (snoc v y) = snoc (SnocView-cons x v) y

snoc_view {ℓ} : {A : Type ℓ} (xs : List A) → SnocView xs
snoc_view [] = empty
snoc_view (x ∷ xs) = SnocView-cons x (snoc_view xs)

head_after_snoc :
    (head : Option Text) (es : List WitnessEvent) (e : WitnessEvent)
    → head_after head (es ++ e ∷ []) ≡ some e.event_hash
head_after_snoc head es e = head_after-append head es (e ∷ [])

module _ (sha256 : Text → Text) (P : WitnessEventDraft → Type 0)
    (no_collision : (d d' : WitnessEventDraft)
      → P d
      → P d'
      → event_digest sha256 d ≡ event_digest sha256 d'
      → d ≡ d') where
  same_event :
      (before before' : Option ℕ) (head head' : Option Text) (e f : WitnessEvent)
      → IsChainFrom sha256 before head (e ∷ [])
      → IsChainFrom sha256 before' head' (f ∷ [])
      → P e.draft
      → P f.draft
      → some e.event_hash ≡ some f.event_hash
      → (e ≡ f) × (head ≡ head')
  same_event before before' head head' e f c c' p p' h =
      let hash : e.event_hash ≡ f.event_hash = cc in
      let draft = no_collision e.draft f.draft p p' (cc (c.0.1, c'.0.1, hash)) in
      (cc (draft, hash), cc (draft, c.0.0, c'.0.0))

  commits :
      {es fs : List WitnessEvent}
      → SnocView es
      → SnocView fs
      → IsChain sha256 none es
      → IsChain sha256 none fs
      → All (λ e. P e.draft) es
      → All (λ e. P e.draft) fs
      → head_after none es ≡ head_after none fs
      → es ≡ fs
  commits empty empty c d p q h = refl
  commits empty (snoc {xs} v f) c d p q h = cc (head_after_snoc none xs f)
  commits (snoc {xs} v e) empty c d p q h = cc (head_after_snoc none xs e)
  commits (snoc {xs} v e) (snoc {xs = ys} w f) c d p q h =
      let (event, before) =
        same_event _ _ _ _ e f (IsChainFrom-right sha256 none none xs (e ∷ []) c)
          (IsChainFrom-right sha256 none none ys (f ∷ []) d)
          (All-right (λ e. P e.draft) xs (e ∷ []) p).0 (All-right (λ e. P e.draft) ys (f ∷ []) q).0
          (sym (head_after_snoc none xs e) ∙ h ∙ head_after_snoc none ys f) in
      let rest =
        commits v w (IsChainFrom-left sha256 none none xs (e ∷ []) c)
          (IsChainFrom-left sha256 none none ys (f ∷ []) d)
          (All-left (λ e. P e.draft) xs (e ∷ []) p) (All-left (λ e. P e.draft) ys (f ∷ []) q)
          before in
      cc (event, rest)

  -- What `verifyChain` says of a list that it accepts.
  accepted-IsChain :
      (es : List WitnessEvent) (t : Option Text)
      → verify_chain sha256 es none ≡ ok (accepted t)
      → IsChain sha256 none es × (head_after none es ≡ t)
  accepted-IsChain es t h = elim (verdict_of sha256 es none) [
    | inl (c, returned) ↦ (c, same_head (sym returned ∙ h))
    | inr (j, k, f, b, g, found, returned) ↦ absurd (refused (sym returned ∙ h))
  ]
    where
      same_head : {s : Option Text} → ok (accepted s) ≡ ok (accepted t) → s ≡ t
      same_head e = cc

      refused : {j : ℕ} {r : Text} → ok (broken j r) ≡ ok (accepted t) → ⊥
      refused e = cc

  -- Two lists that `verifyChain` accepts from the segment start, with the same last hash, are the
  -- same list of events, where the hash has no collision among the drafts of the two.
  pub verify_chain-commits :
      (es fs : List WitnessEvent) (t : Option Text)
      → All (λ e. P e.draft) es
      → All (λ e. P e.draft) fs
      → verify_chain sha256 es none ≡ ok (accepted t)
      → verify_chain sha256 fs none ≡ ok (accepted t)
      → es ≡ fs
  verify_chain-commits es fs t p q h k =
      let (c, at_es) = accepted-IsChain es t h in
      let (d, at_fs) = accepted-IsChain fs t k in
      commits (snoc_view es) (snoc_view fs) c d p q (at_es ∙ sym at_fs)

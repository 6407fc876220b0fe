-- ===== src/Evidence/Range.antt =====
-- A range of a chain is a chain from the hash in front of it.
use witseal.Prelude.{
  ℕ, zero, suc, ◌+◌, ◌≤◌, ◌<◌, ◌==◌, leb, ◌≡◌, refl, sym, subst, ◌∙◌, inl, inr, true, false, List,
  [], ◌∷◌, Option, none, some, Bool-cases, find, keep, keep-skip, keep-take, find-skip, find-here,
  All, arith,
}
use witseal.Prelude.Text.{Text}
use witseal.Schema.Witness.{WitnessEvent}
use witseal.Chain.Spec.{IsChainFrom, IsChain}
use witseal.Evidence.{in_range, find_hash_before, hash_of}

module _ (sha256 : Text → Text) (first last : ℕ) where
  above-in_range : (e : WitnessEvent) → last < e.sequence → in_range first last e ≡ false
  above-in_range e h = ground arith

  below-in_range : (e : WitnessEvent) → e.sequence < first → in_range first last e ≡ false
  below-in_range e h = ground arith

  -- Behind the range nothing is kept.
  keep-behind :
      (n : ℕ) (head : Option Text) (es : List WitnessEvent)
      → IsChainFrom sha256 (some n) head es
      → last ≤ n
      → keep (in_range first last) es ≡ []
  keep-behind n head [] c le = refl
  keep-behind n head (e ∷ es) (l, c) le =
      let later : e.sequence ≡ n + 1 = l.2 in
      keep-skip (in_range first last) e es (above-in_range e (omega (arith, later, le)))
      ∙ keep-behind e.sequence (some e.event_hash) es c (omega (arith, later, le))

  -- From the range on, what is kept continues the chain.
  keep-inside :
      (before : Option ℕ) (head : Option Text) (es : List WitnessEvent)
      → IsChainFrom sha256 before head es
      → All (λ e. first ≤ e.sequence) es
      → IsChainFrom sha256 before head (keep (in_range first last) es)
  keep-inside before head [] c h = tt
  keep-inside before head (e ∷ es) (l, c) (le, h) = elim (Bool-cases (in_range first last e)) [
    | inl kept ↦
        subst (IsChainFrom sha256 before head) (sym (keep-take (in_range first last) e es kept))
          (l, keep-inside (some e.sequence) (some e.event_hash) es c h)
    | inr out ↦
        let past : last ≤ e.sequence = ground (arith, le, out) in
        subst (IsChainFrom sha256 before head)
          (sym (
            keep-skip (in_range first last) e es out
            ∙ keep-behind e.sequence (some e.event_hash) es c past))
          tt
  ]

  -- The sequence numbers behind an event are larger.
  sequences-above :
      (n m : ℕ) (head : Option Text) (es : List WitnessEvent)
      → IsChainFrom sha256 (some n) head es
      → m ≤ n + 1
      → All (λ e. m ≤ e.sequence) es
  sequences-above n m head [] c le = tt
  sequences-above n m head (e ∷ es) (l, c) le =
      let later : e.sequence ≡ n + 1 = l.2 in
      (
        omega (arith, later, le),
        sequences-above e.sequence m (some e.event_hash) es c (omega (arith, later, le)),
      )

  none_before :
      (m : ℕ) (es : List WitnessEvent)
      → All (λ e. suc m ≤ e.sequence) es
      → find (λ ev. ev.sequence == m) es ≡ none
  none_before m [] h = refl
  none_before m (e ∷ es) (le, h) =
      let other : (e.sequence == m) ≡ false = ground (arith, le) in
      find-skip (λ ev. ev.sequence == m) e es other ∙ none_before m es h

  weaken :
      (before : Option ℕ) (head : Option Text) (es : List WitnessEvent)
      → IsChainFrom sha256 before head es
      → IsChain sha256 head es
  weaken before head [] c = tt
  weaken before head (e ∷ es) ((p, d, s), c) = ((p, d, refl), c)

  -- One event in front of the range: the range starts next, or later.
  abbrev Anchored : ℕ → List WitnessEvent → Type 0
  Anchored m es =
      IsChain sha256 (hash_of (find (λ ev. ev.sequence == m) es)) (keep (in_range first last) es)

  Anchored-here :
      (m : ℕ) (e : WitnessEvent) (es : List WitnessEvent)
      → first ≡ suc m
      → e.sequence ≡ m
      → IsChainFrom sha256 (some e.sequence) (some e.event_hash) es
      → Anchored m (e ∷ es)
  Anchored-here m e es fm at c =
      let found : (e.sequence == m) ≡ true = ground (arith, at) in
      let rest = weaken _ _ _ (
        keep-inside (some e.sequence) (some e.event_hash) es c
          (sequences-above e.sequence first (some e.event_hash) es c (omega (arith, at, fm)))) in
      subst (IsChain sha256 (hash_of (find (λ ev. ev.sequence == m) (e ∷ es))))
        (sym (keep-skip (in_range first last) e es (below-in_range e (omega (arith, fm, at)))))
        (subst (λ o. IsChain sha256 (hash_of o) (keep (in_range first last) es))
          (sym (find-here (λ ev. ev.sequence == m) e es found)) rest)

  Anchored-later :
      (m : ℕ) (e : WitnessEvent) (es : List WitnessEvent)
      → first ≡ suc m
      → e.sequence < m
      → Anchored m es
      → Anchored m (e ∷ es)
  Anchored-later m e es fm lt rest =
      let other : (e.sequence == m) ≡ false = ground (arith, lt) in
      subst (IsChain sha256 (hash_of (find (λ ev. ev.sequence == m) (e ∷ es))))
        (sym (keep-skip (in_range first last) e es (below-in_range e (omega (arith, fm, lt)))))
        (subst (λ o. IsChain sha256 (hash_of o) (keep (in_range first last) es))
          (sym (find-skip (λ ev. ev.sequence == m) e es other)) rest)

  keep-Anchored :
      (m n : ℕ) (head : Option Text) (es : List WitnessEvent)
      → first ≡ suc m
      → n < m
      → IsChainFrom sha256 (some n) head es
      → Anchored m es
  keep-Anchored m n head [] fm lt c = tt
  keep-Anchored m n head (e ∷ es) fm lt (l, c) =
      let next : e.sequence ≡ n + 1 = l.2 in
      elim (Bool-cases (e.sequence == m)) [
        | inl found ↦ Anchored-here m e es fm (ground (arith, found)) c
        | inr other ↦
            let below : e.sequence < m = ground (arith, other, lt, next) in
            Anchored-later m e es fm below
              (keep-Anchored m e.sequence (some e.event_hash) es fm below c)
      ]

zero_bound : (es : List WitnessEvent) → All (λ e. 0 ≤ e.sequence) es
zero_bound [] = tt
zero_bound (e ∷ es) = (omega arith, zero_bound es)

-- The events of a range are a chain from the hash of the event in front of it, or from none.
pub keep-IsChain :
    (sha256 : Text → Text) (first last : ℕ) (es : List WitnessEvent)
    → IsChain sha256 none es
    → IsChain sha256 (find_hash_before es first) (keep (in_range first last) es)
unfolding find_hash_before
keep-IsChain sha256 zero last es c = keep-inside sha256 0 last none none es c (zero_bound es)
keep-IsChain sha256 (suc m) last [] c = tt
keep-IsChain sha256 (suc m) last (e ∷ es) (l, c) = elim (Bool-cases (leb (suc m) e.sequence)) [
  | inl inside ↦
      let le : suc m ≤ e.sequence = ground (arith, inside) in
      let all : All (λ e. suc m ≤ e.sequence) (e ∷ es) = (
        le,
        sequences-above sha256 (suc m) last e.sequence (suc m) (some e.event_hash) es c
            (omega (arith, le)),
      ) in
      subst (λ o. IsChain sha256 (hash_of o) (keep (in_range (suc m) last) (e ∷ es)))
        (sym (none_before sha256 (suc m) last m (e ∷ es) all))
        (keep-inside sha256 (suc m) last none none (e ∷ es) (l, c) all)
  | inr front ↦ elim (Bool-cases (e.sequence == m)) [
    | inl found ↦ Anchored-here sha256 (suc m) last m e es refl (ground (arith, found)) c
    | inr other ↦
        let below : e.sequence < m = ground (arith, other, front) in
        Anchored-later sha256 (suc m) last m e es refl below
          (keep-Anchored sha256 (suc m) last m e.sequence (some e.event_hash) es refl below c)
  ]
]

-- ===== src/Chain/Tamper/Kinds.antt =====
-- The substrings by which a reason is classified tell the three reasons apart.
use witseal.Prelude.{
  ℕ, ◌≤◌, ◌<◌, ◌≡◌, ◌≢◌, refl, Bool, true, false, ◌&&◌, ◌||◌, [], ◌∷◌, ◌++◌, Option, some, length,
  leb, arith, All, All-append, ◌⊎◌,
}
use witseal.Prelude.Text.{Text, codes, starts_with, includes}
use witseal.Json.Decimal.{digits, digits-IsDigit, IsDigit}
use witseal.Chain.{linkage_reason, content_reason, sequence_reason}
use witseal.Chain.Tamper.{content, linkage, sequence, classify_break}

abbrev pub is_alnum : ℕ → Bool
is_alnum c = (leb b'0' c && leb c b'9') || (leb b'a' c && leb c b'z') || (leb b'A' c && leb c b'Z')

-- `/^evt_[0-9a-zA-Z]{20,}$/`
abbrev pub IsEventId : Text → Type 0
IsEventId id =
    (body : Text) × (id ≡ codes "evt_" ++ body)
    × All (λ c. is_alnum c ≡ true) body
    × (20 ≤ length body)

abbrev Lacks : ℕ → Text → Type 0
Lacks c s = All (λ d. d ≢ c) s

abbrev Has : ℕ → Text → Type 0
Has c [] = ⊥
Has c (d ∷ s) = (c ≡ d) ⊎ Has c s

starts_with-Lacks : (c : ℕ) (s p : Text) → Lacks c s → Has c p → starts_with s p ≡ false
unfolding starts_with
starts_with-Lacks c s [] h k = absurd k
starts_with-Lacks c [] (a ∷ p) h k = refl
starts_with-Lacks c (b ∷ s) (a ∷ p) h k = ground (arith, starts_with-Lacks c s p)

includes-Lacks : (c : ℕ) (s p : Text) → Lacks c s → Has c p → includes s p ≡ false
unfolding includes
includes-Lacks c [] p h k = starts_with-Lacks c [] p h k
includes-Lacks c (b ∷ s) p h k =
    ground (arith, starts_with-Lacks c (b ∷ s) p h k, includes-Lacks c s p h.1 k)

-- A part that lacks the first unit of `p` can be passed over.
includes-skip :
    (a : ℕ) (s t p : Text)
    → Lacks a s
    → includes t (a ∷ p) ≡ false
    → includes (s ++ t) (a ∷ p) ≡ false
unfolding includes
includes-skip a [] t p h e = e
includes-skip a (b ∷ s) t p h e = ground (arith, includes-skip a s t p h.1 e)

digits-Lacks : (c : ℕ) (s : Text) → 57 < c → All IsDigit s → Lacks c s
digits-Lacks c [] h d = tt
digits-Lacks c (b ∷ s) h d = (omega arith, digits-Lacks c s h d.1)

index-Lacks : (c i : ℕ) → 57 < c → Lacks c (digits i)
index-Lacks c i h = digits-Lacks c (digits i) h (digits-IsDigit i)

alnum-Lacks : (s : Text) → All (λ c. is_alnum c ≡ true) s → Lacks b'_' s
alnum-Lacks [] h = tt
alnum-Lacks (c ∷ s) h = (ground arith, alnum-Lacks s h.1)

pub classify_break-linkage :
    (i : ℕ) (expected got : Option Text)
    → classify_break (some (linkage_reason i expected got)) ≡ linkage
unfolding classify_break linkage_reason includes
classify_break-linkage i expected got = refl

content-no_linkage :
    (i : ℕ) (id : Text)
    → IsEventId id
    → includes (content_reason i id) (codes "previous_event_hash") ≡ false
unfolding content_reason
content-no_linkage i id (body, e, alnum, _) = rw e (
    includes-skip b'p' (codes "event_hash invalid at index ") _ _ (omega arith) (
      includes-skip b'p' (digits i) _ _ (index-Lacks b'p' i (omega arith)) (
        includes-skip b'p' (codes " (event_id=evt_") _ _ (omega arith) (
          includes-Lacks b'_' (body ++ codes ")") _
            (All-append (λ d. d ≢ b'_') body _ (alnum-Lacks body alnum) (omega arith, tt))
            (ground arith)))))

pub classify_break-content :
    (i : ℕ) (id : Text) → IsEventId id → classify_break (some (content_reason i id)) ≡ content
classify_break-content i id h =
    let no_linkage = content-no_linkage i id h in
    unfold classify_break in unfold content_reason in rw no_linkage (unfold includes in refl)

sequence-Lacks : (i expected got : ℕ) → Lacks b'_' (sequence_reason i expected got)
unfolding sequence_reason
sequence-Lacks i expected got =
    All-append (λ d. d ≢ b'_') (codes "sequence non-monotonic at index ") _ (omega arith)
      (All-append (λ d. d ≢ b'_') (digits i) _ (index-Lacks b'_' i (omega arith))
        (All-append (λ d. d ≢ b'_') (codes ": expected ") _ (omega arith)
          (All-append (λ d. d ≢ b'_') (digits expected) _ (index-Lacks b'_' expected (omega arith))
            (All-append (λ d. d ≢ b'_') (codes ", got ") _ (omega arith)
              (index-Lacks b'_' got (omega arith))))))

pub classify_break-sequence :
    (i expected got : ℕ) → classify_break (some (sequence_reason i expected got)) ≡ sequence
classify_break-sequence i expected got =
    let no_linkage =
      includes-Lacks b'_' (sequence_reason i expected got) (codes "previous_event_hash")
        (sequence-Lacks i expected got) (ground arith) in
    let no_content =
      includes-Lacks b'_' (sequence_reason i expected got) (codes "event_hash invalid")
        (sequence-Lacks i expected got) (ground arith) in
    unfold classify_break in
    unfold sequence_reason in rw (no_linkage, no_content) (unfold includes in refl)

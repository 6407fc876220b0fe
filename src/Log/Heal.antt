-- ===== src/Log/Heal.antt =====
-- `healTornTail`: what a crash left of a line that was not finished is cut off, and nothing else.
use witseal.Prelude.{
  ℕ, suc, ◌+◌, ◌≡◌, ◌≢◌, refl, ap, sym, ◌∙◌, List, [], ◌∷◌, ◌++◌, append_assoc, append-nil, arith,
  inl, inr, ◌⊎◌, none, some, get_last?, get_last?-append, length, take,
}
use witseal.Prelude.Text.{Text}
use witseal.Json.Stringify.{OneLine}
use witseal.Schema.Witness.{WitnessEvent}
use witseal.Log.{healed, heal_by, cut_behind, last_index_of, newline}
use witseal.Log.Methods.{event_line}
use witseal.Log.Lines.{log_text, event_text}

last_index-OneLine : (t : Text) → OneLine t → last_index_of newline t ≡ none
unfolding last_index_of
last_index-OneLine [] h = refl
last_index-OneLine (c ∷ t) h = rw (last_index-OneLine t h.1) (ground arith)

last_index-torn :
    (s torn : Text) → OneLine torn → last_index_of newline (s ++ newline ∷ torn) ≡ some (length s)
unfolding last_index_of
last_index-torn [] torn h = rw (last_index-OneLine torn h)
last_index-torn (c ∷ s) torn h = rw (last_index-torn s torn h)

take-through_suc : (s : Text) (c : ℕ) (t : Text) → take (suc (length s)) (s ++ c ∷ t) ≡ s ++ c ∷ []
take-through_suc [] c t = refl
take-through_suc (a ∷ s) c t = ap (λ l. a ∷ l) (take-through_suc s c t)

take-through : (s : Text) (c : ℕ) (t : Text) → take (length s + 1) (s ++ c ∷ t) ≡ s ++ c ∷ []
take-through s c t =
    let one_more : length s + 1 ≡ suc (length s) = omega arith in
    ap (λ n. take n (s ++ c ∷ t)) one_more ∙ take-through_suc s c t

other_last :
    (d : ℕ) (content : Text)
    → d ≢ newline
    → heal_by (some d) content ≡ cut_behind (last_index_of newline content) content
other_last d content h = ground arith

last_of_OneLine :
    (c : ℕ) (t : Text) → OneLine (c ∷ t) → (d : ℕ) × (get_last? (c ∷ t) ≡ some d) × (d ≢ newline)
last_of_OneLine c [] h = (c, refl, h.0)
last_of_OneLine c (d ∷ t) h = last_of_OneLine d t h.1

get_last?-behind : (s : Text) (c : ℕ) (t : Text) → get_last? (s ++ c ∷ t) ≡ get_last? (c ∷ t)
get_last?-behind [] c t = refl
get_last?-behind (a ∷ []) c t = refl
get_last?-behind (a ∷ b ∷ s) c t = get_last?-behind (b ∷ s) c t

healed-empty : (torn : Text) → OneLine torn → healed torn ≡ []
unfolding healed
healed-empty [] h = refl
healed-empty (c ∷ t) h =
    let (d, last, other) = last_of_OneLine c t h in
    ap (λ o. heal_by o (c ∷ t)) last
    ∙ other_last d (c ∷ t) other
    ∙ ap (λ o. cut_behind o (c ∷ t)) (last_index-OneLine (c ∷ t) h)

healed-line : (s torn : Text) → OneLine torn → healed (s ++ newline ∷ torn) ≡ s ++ newline ∷ []
unfolding healed
healed-line s [] h = ap (λ o. heal_by o (s ++ newline ∷ [])) (get_last?-append s newline)
healed-line s (c ∷ t) h =
    let (d, last, other) = last_of_OneLine c t h in
    let content = s ++ newline ∷ c ∷ t in
    ap (λ o. heal_by o content) (get_last?-behind s newline (c ∷ t) ∙ last)
    ∙ other_last d content other
    ∙ ap (λ o. cut_behind o content) (last_index-torn s (c ∷ t) h)
    ∙ take-through s newline (c ∷ t)

log_text-ends :
    (es : List WitnessEvent) → (log_text es ≡ []) ⊎ ((s : Text) × (log_text es ≡ s ++ newline ∷ []))
log_text-ends [] = inl refl
log_text-ends (e ∷ es) = elim (log_text-ends es) [
  | inl none_left ↦
      inr (event_text e, ap (λ t. event_line e ++ t) none_left ∙ append-nil (event_line e))
  | inr (s, ends) ↦ inr (
    event_line e ++ s,
    ap (λ t. event_line e ++ t) ends ∙ sym (append_assoc (event_line e) s (newline ∷ [])),
  )
]

-- Whatever fragment without a newline stands behind the events' lines, the healed content is the
-- events' lines.
pub healed-log_text :
    (es : List WitnessEvent) (torn : Text)
    → OneLine torn
    → healed (log_text es ++ torn) ≡ log_text es
healed-log_text es torn h = elim (log_text-ends es) [
  | inl none_left ↦ rw none_left (healed-empty torn h)
  | inr (s, ends) ↦ rw ends (ap healed (append_assoc s (newline ∷ []) torn) ∙ healed-line s torn h)
]

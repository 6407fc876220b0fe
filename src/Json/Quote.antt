-- ===== src/Json/Quote.antt =====
-- `JSON.stringify` of a string: the quotation marks, and an escape for each quotation mark,
-- backslash, control character and lone surrogate.
use witseal.Prelude.{
  ℕ, ◌+◌, ◌/◌, ◌%◌, ◌≡◌, ◌≢◌, refl, Bool, true, false, not, ◌&&◌, ◌||◌, [], ◌∷◌, ◌++◌, arith, ltb,
  leb, ◌==◌, All, All-append, if◌then◌else◌,
}
use witseal.Prelude.Text.{Text, codes}

abbrev is_high : ℕ → Bool
is_high c = leb 0xd800 c && leb c 0xdbff

abbrev is_low : ℕ → Bool
is_low c = leb 0xdc00 c && leb c 0xdfff

abbrev first_is_low : Text → Bool
first_is_low [] = false
first_is_low (c ∷ s) = is_low c

hex_digit : ℕ → ℕ
hex_digit d = if ltb d 10 then 48 + d else 87 + d

unicode_escape : ℕ → Text
unfolding hex_digit
unicode_escape c =
    92
    ∷ b'u'
    ∷ hex_digit (c / 4096 % 16)
    ∷ hex_digit (c / 256 % 16)
    ∷ hex_digit (c / 16 % 16)
    ∷ hex_digit (c % 16)
    ∷ []

-- One unit, given whether a high surrogate stands before it and a low one behind it.
escape_unit : Bool → Bool → ℕ → Text
unfolding unicode_escape
escape_unit after_high before_low c =
    if c == 8
    then codes "\\b"
    else if c == 9
    then codes "\\t"
    else if c == 10
    then codes "\\n"
    else if c == 12
    then codes "\\f"
    else if c == 13
    then codes "\\r"
    else if c == b'"' || c == 92
    then 92 ∷ c ∷ []
    else if ltb c 32
    then unicode_escape c
    else if is_high c && not before_low
    then unicode_escape c
    else if is_low c && not after_high
    then unicode_escape c
    else c ∷ []

quote_units : Bool → Text → Text
unfolding escape_unit
quote_units after_high [] = []
quote_units after_high (c ∷ s) =
    escape_unit after_high (first_is_low s) c ++ quote_units (is_high c) s

unfoldable pub quote : Text → Text
unfolding quote_units
quote s = b'"' ∷ (quote_units false s ++ b'"' ∷ [])

-- A unit that a line of the log may hold.
abbrev pub NotLineFeed : ℕ → Type 0
NotLineFeed c = c ≢ 10

hex_digit-NotLineFeed : (d : ℕ) → NotLineFeed (hex_digit d)
unfolding hex_digit
hex_digit-NotLineFeed d = ground arith

unicode_escape-NotLineFeed : (c : ℕ) → All NotLineFeed (unicode_escape c)
unfolding unicode_escape
unicode_escape-NotLineFeed c = (
  omega arith,
  (
    omega arith,
    (
      hex_digit-NotLineFeed _,
      (hex_digit-NotLineFeed _, (hex_digit-NotLineFeed _, (hex_digit-NotLineFeed _, tt))),
    ),
  ),
)

All-if :
    (b : Bool) (s t : Text)
    → All NotLineFeed s
    → (b ≡ false → All NotLineFeed t)
    → All NotLineFeed (if b then s else t)
All-if true s t h k = h
All-if false s t h k = k refl

escape_unit-NotLineFeed : (p n : Bool) (c : ℕ) → All NotLineFeed (escape_unit p n c)
unfolding escape_unit
escape_unit-NotLineFeed p n c = All-if (c == 8) _ _ (omega arith) λ _.
    All-if (c == 9) _ _ (omega arith) λ _. All-if (c == 10) _ _ (omega arith) λ other.
      All-if (c == 12) _ _ (omega arith) λ _. All-if (c == 13) _ _ (omega arith) λ _.
        All-if (c == b'"' || c == 92) _ _ (omega arith, (ground arith, tt))
          λ _. All-if (ltb c 32) _ _ (unicode_escape-NotLineFeed c) λ _.
            All-if (is_high c && not n) _ _ (unicode_escape-NotLineFeed c) λ _.
              All-if (is_low c && not p) _ _ (unicode_escape-NotLineFeed c) λ _. (ground arith, tt)

quote_units-NotLineFeed : (p : Bool) (s : Text) → All NotLineFeed (quote_units p s)
unfolding quote_units
quote_units-NotLineFeed p [] = tt
quote_units-NotLineFeed p (c ∷ s) =
    All-append NotLineFeed (escape_unit p (first_is_low s) c) _ (escape_unit-NotLineFeed p _ c)
      (quote_units-NotLineFeed (is_high c) s)

pub quote-NotLineFeed : (s : Text) → All NotLineFeed (quote s)
unfolding quote
quote-NotLineFeed s = (
  omega arith,
  All-append NotLineFeed (quote_units false s) _ (quote_units-NotLineFeed false s)
      (omega arith, tt),
)

quote_runs : quote (codes "a\"b\\") ≡ codes "\"a\\\"b\\\\\""
unfolding quote
quote_runs = refl

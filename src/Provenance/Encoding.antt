-- ===== src/Provenance/Encoding.antt =====
-- The pre-authentication encoding is unambiguous.
use witseal.Prelude.{
  ℕ, ◌<◌, ◌≡◌, refl, sym, ap, ◌∙◌, [], ◌∷◌, ◌++◌, append_assoc, length, All, arith,
}
use witseal.Prelude.Text.{Text, codes}
use witseal.Json.Decimal.{digits, IsDigit, digits-IsDigit}
use witseal.Lock.Ancestor.{parse_pid, parse_pid-digits}
use witseal.Receipts.Signing.{Bytes}
use witseal.Provenance.{Verifier, dsse_pae}

abbrev pub IsAscii : ℕ → Type 0
IsAscii c = c < 128

-- UTF-8 keeps ASCII in front of a text and at its end.
pub record KeepsAscii (encode : Text → Bytes) : Type 0 where
  pub in_front : (s t : Text) → All IsAscii s → encode (s ++ t) ≡ s ++ encode t
  pub at_end : (s t : Text) → All IsAscii t → encode (s ++ t) ≡ encode s ++ t

-- Two texts with digits up to a space.
digits_before_space :
    (a b x y : Bytes)
    → All IsDigit a
    → All IsDigit b
    → a ++ 32 ∷ x ≡ b ++ 32 ∷ y
    → (a ≡ b) × (x ≡ y)
digits_before_space [] [] x y ha hb h = (refl, cc)
digits_before_space [] (d ∷ b) x y ha ((lo, hi), hb) h =
    let e : 32 ≡ d = cc in absurd (omega (arith, lo, e))
digits_before_space (c ∷ a) [] x y ((lo, hi), ha) hb h =
    let e : c ≡ 32 = cc in absurd (omega (arith, lo, e))
digits_before_space (c ∷ a) (d ∷ b) x y (hc, ha) (hd, hb) h =
    let rest = digits_before_space a b x y ha hb (cc) in let e : c ≡ d = cc in (cc (e), rest.1)

-- Two texts whose first parts have one length.
same_length : (a b x y : Bytes) → length a ≡ length b → a ++ x ≡ b ++ y → (a ≡ b) × (x ≡ y)
same_length [] [] x y l h = (refl, h)
same_length [] (d ∷ b) x y l h = absurd (omega (arith, l))
same_length (c ∷ a) [] x y l h = absurd (omega (arith, l))
same_length (c ∷ a) (d ∷ b) x y l h =
    let rest = same_length a b x y (omega (arith, l)) (cc) in let e : c ≡ d = cc in (cc (e), rest.1)

digits-injective : (m n : ℕ) → digits m ≡ digits n → m ≡ n
digits-injective m n h =
    let e = sym (parse_pid-digits m) ∙ ap parse_pid h ∙ parse_pid-digits n in cc

digit-IsAscii : (s : Text) → All IsDigit s → All IsAscii s
digit-IsAscii [] h = tt
digit-IsAscii (c ∷ s) ((lo, hi), h) = (omega (arith, hi), digit-IsAscii s h)

IsAscii-append : (s t : Text) → All IsAscii s → All IsAscii t → All IsAscii (s ++ t)
IsAscii-append [] t h k = k
IsAscii-append (c ∷ s) t (a, h) k = (a, IsAscii-append s t h k)

module _ (verifier : Verifier) (keeps : KeepsAscii verifier.encode_utf8) where
  open verifier use {encode_utf8}

  abbrev trailer : Bytes → Bytes
  trailer p = 32 ∷ (digits (length p) ++ 32 ∷ [])

  trailer-IsAscii : (p : Bytes) → All IsAscii (trailer p)
  trailer-IsAscii p = (
    omega arith,
    IsAscii-append (digits (length p)) _ (digit-IsAscii _ (digits-IsDigit (length p)))
        (omega arith, tt),
  )

  prefix-IsAscii : All IsAscii (codes "DSSEv1 ")
  prefix-IsAscii = (
    omega arith,
    (omega arith, (omega arith, (omega arith, (omega arith, (omega arith, (omega arith, tt)))))),
  )

  -- The encoding as its parts.
  dsse_pae-parts :
      (t : Text) (p : Bytes)
      → dsse_pae verifier t p
        ≡ codes "DSSEv1 "
          ++ (digits (length (encode_utf8 t))
              ++ 32 ∷ (encode_utf8 t ++ 32 ∷ (digits (length p) ++ 32 ∷ p)))
  unfolding dsse_pae
  dsse_pae-parts t p =
      let size = digits (length (encode_utf8 t)) in
      let encoded =
        keeps.in_front (codes "DSSEv1 ") (size ++ 32 ∷ (t ++ trailer p)) prefix-IsAscii
        ∙ ap (λ s. codes "DSSEv1 " ++ s)
            (keeps.in_front size (32 ∷ (t ++ trailer p))
                (digit-IsAscii size (digits-IsDigit (length (encode_utf8 t))))
              ∙ ap (λ s. size ++ s)
                  (keeps.in_front (32 ∷ []) (t ++ trailer p) (omega arith, tt)
                    ∙ ap (λ s. 32 ∷ s) (keeps.at_end t (trailer p) (trailer-IsAscii p)))) in
      ap (λ s. s ++ p) encoded
      ∙ ap (λ s. codes "DSSEv1 " ++ s)
          (append_assoc size _ p
            ∙ ap (λ s. size ++ 32 ∷ s)
                (append_assoc (encode_utf8 t) _ p
                  ∙ ap (λ s. encode_utf8 t ++ 32 ∷ s)
                      (append_assoc (digits (length p)) (32 ∷ []) p)))

  -- Where UTF-8 keeps ASCII in front of a text and at its end, signing the encoding of a type and a payload
  -- signs no other type and no other payload: the type's UTF-8 bytes and the payload can be told from it.
  pub dsse_pae-injective :
      (t u : Text) (p q : Bytes)
      → dsse_pae verifier t p ≡ dsse_pae verifier u q
      → (encode_utf8 t ≡ encode_utf8 u) × (p ≡ q)
  dsse_pae-injective t u p q h =
      let parts = sym (dsse_pae-parts t p) ∙ h ∙ dsse_pae-parts u q in
      let sized = same_length (codes "DSSEv1 ") (codes "DSSEv1 ") _ _ refl parts in
      let size =
        digits_before_space (digits (length (encode_utf8 t))) (digits (length (encode_utf8 u))) _ _
          (digits-IsDigit _) (digits-IsDigit _) sized.1 in
      let typed =
        same_length (encode_utf8 t) (encode_utf8 u) _ _ (digits-injective _ _ size.0) size.1 in
      let sent : digits (length p) ++ 32 ∷ p ≡ digits (length q) ++ 32 ∷ q = cc (typed.1) in
      let payload =
        digits_before_space (digits (length p)) (digits (length q)) p q (digits-IsDigit _)
          (digits-IsDigit _) sent in
      (typed.0, payload.1)

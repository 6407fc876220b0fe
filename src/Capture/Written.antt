-- ===== src/Capture/Written.antt =====
-- What the buffers hold after any chunks: the first and the last bytes of the whole stream.
use witseal.Prelude.{
  ℕ, suc, zero, ◌+◌, ◌-◌, ◌≤◌, ◌≡◌, refl, ap, sym, ◌∙◌, List, [], ◌∷◌, ◌++◌, length, take, drop,
  ltb, if◌then◌else◌, length-append, length-take, length-drop, append_assoc, append-nil, arith,
  true, false, inl, inr, ◌⊎◌,
}
use witseal.Capture.{
  Bytes, BoundedStreamingCapture, new_capture, last_bytes, write_head, write_tail, write, write_all,
}

-- The bytes of all chunks.
abbrev pub concat : List Bytes → Bytes
concat [] = []
concat (chunk ∷ chunks) = chunk ++ concat chunks

pub take_all : (n : ℕ) (xs : Bytes) → length xs ≤ n → take n xs ≡ xs
take_all zero [] h = refl
take_all zero (x ∷ xs) h = absurd (omega (arith, h))
take_all (suc n) [] h = refl
take_all (suc n) (x ∷ xs) h = ap (λ l. x ∷ l) (take_all n xs (omega (arith, h)))

sub_zero : (n : ℕ) → n ≡ n - 0
sub_zero n = omega arith

take-append_le :
    (n : ℕ) (xs ys : Bytes) → length xs ≤ n → take n (xs ++ ys) ≡ xs ++ take (n - length xs) ys
take-append_le n [] ys h = ap (λ k. take k ys) (sub_zero n)
take-append_le zero (x ∷ xs) ys h = absurd (omega (arith, h))
take-append_le (suc n) (x ∷ xs) ys h =
    ap (λ l. x ∷ l) (take-append_le n xs ys (omega (arith, h)))
    ∙ ap (λ k. x ∷ (xs ++ take k ys)) (omega arith)

take-append_ge : (n : ℕ) (xs ys : Bytes) → n ≤ length xs → take n (xs ++ ys) ≡ take n xs
take-append_ge zero xs ys h = refl
take-append_ge (suc n) [] ys h = absurd (omega (arith, h))
take-append_ge (suc n) (x ∷ xs) ys h = ap (λ l. x ∷ l) (take-append_ge n xs ys (omega (arith, h)))

drop-append_le : (n : ℕ) (xs ys : Bytes) → n ≤ length xs → drop n (xs ++ ys) ≡ drop n xs ++ ys
drop-append_le zero xs ys h = refl
drop-append_le (suc n) [] ys h = absurd (omega (arith, h))
drop-append_le (suc n) (x ∷ xs) ys h = drop-append_le n xs ys (omega (arith, h))

take_nil : (m : ℕ) → take {A = ℕ} m [] ≡ []
take_nil zero = refl
take_nil (suc m) = refl

drop_nil : (m : ℕ) → drop {A = ℕ} m [] ≡ []
drop_nil zero = refl
drop_nil (suc m) = refl

suc_add : (n m : ℕ) → suc (n + m) ≡ suc n + m
suc_add n m = omega arith

pub drop-drop : (m n : ℕ) (xs : Bytes) → drop m (drop n xs) ≡ drop (n + m) xs
drop-drop m zero xs = ap (λ k. drop k xs) (omega arith)
drop-drop m (suc n) [] = drop_nil m ∙ sym (drop_nil (suc n + m))
drop-drop m (suc n) (x ∷ xs) = drop-drop m n xs ∙ ap (λ k. drop k (x ∷ xs)) (suc_add n m)

pub ltb-true : (a b : ℕ) → a + 1 ≤ b → ltb a b ≡ true
ltb-true a b h = ground arith

pub ltb-false : (a b : ℕ) → b ≤ a → ltb a b ≡ false
ltb-false a b h = ground arith

pub split_le : (a b : ℕ) → (a + 1 ≤ b) ⊎ (b ≤ a)
split_le a b = ground arith

-- The first `size` bytes stay the first `size` bytes.
write_head-take :
    (size : ℕ) (seen chunk : Bytes)
    → write_head size (take size seen) chunk ≡ take size (seen ++ chunk)
unfolding write_head
write_head-take size seen chunk = elim (split_le (length seen) size) [
  | inl room ↦
      rw (take_all size seen (omega (arith, room)), ltb-true (length seen) size room)
        (sym (take-append_le size seen chunk (omega (arith, room))))
  | inr full ↦
      rw (ltb-false (length (take size seen)) size (omega (arith, full, length-take size seen)))
        (sym (take-append_ge size seen chunk full))
]

-- What is kept of a tail that may have become too long.
abbrev cut : ℕ → Bytes → Bytes
cut size tail = if ltb size (length tail) then last_bytes size tail else tail

cut-drop :
    (size k : ℕ) (all : Bytes)
    → k ≤ length all - size
    → (length all - k ≤ size → k ≡ length all - size)
    → cut size (drop k all) ≡ last_bytes size all
unfolding last_bytes
cut-drop size k all low same = elim (split_le size (length (drop k all))) [
  | inl over ↦
      rw (ltb-true size (length (drop k all)) over)
        (drop-drop _ k all ∙ ap (λ n. drop n all) (omega (arith, low, length-drop k all, over)))
  | inr fits ↦
      rw (ltb-false size (length (drop k all)) fits)
        (ap (λ n. drop n all) (same (omega (arith, fits, length-drop k all))))
]

-- The last `size` bytes stay the last `size` bytes.
write_tail-last :
    (size : ℕ) (seen chunk : Bytes)
    → write_tail size (last_bytes size seen) chunk ≡ last_bytes size (seen ++ chunk)
unfolding write_tail last_bytes
write_tail-last size seen chunk =
    let total = length-append seen chunk in
    ap (cut size) (sym (drop-append_le (length seen - size) seen chunk (omega arith)))
    ∙ cut-drop size (length seen - size) (seen ++ chunk) (omega (arith, total))
        (λ h. omega (arith, total, h))

-- What the stream holds after it has seen some bytes.
abbrev pub captured : ℕ → Bytes → BoundedStreamingCapture
captured size seen = record {
  hash = seen;
  head_buf = take size seen;
  tail_buf = last_bytes size seen;
  total_bytes = length seen;
}

write-captured :
    (size : ℕ) (seen chunk : Bytes)
    → write size (captured size seen) chunk ≡ captured size (seen ++ chunk)
unfolding write
write-captured size seen chunk =
    rw (write_head-take size seen chunk, write_tail-last size seen chunk, length-append seen chunk)
      refl

write_all-from :
    (size : ℕ) (seen : Bytes) (chunks : List Bytes)
    → write_all size (captured size seen) chunks ≡ captured size (seen ++ concat chunks)
unfolding write_all
write_all-from size seen [] = ap (captured size) (sym (append-nil seen))
write_all-from size seen (chunk ∷ chunks) =
    ap (λ c. write_all size c chunks) (write-captured size seen chunk)
    ∙ write_all-from size (seen ++ chunk) chunks
    ∙ ap (captured size) (append_assoc seen chunk (concat chunks))

captured_empty : (size : ℕ) → new_capture ≡ captured size []
unfolding last_bytes
captured_empty size =
    ap (λ h. record { hash = []; head_buf = h; tail_buf = []; total_bytes = 0 })
      (sym (take_nil size))
    ∙ ap (λ t. record { hash = []; head_buf = take size []; tail_buf = t; total_bytes = 0 })
        (sym (drop_nil (0 - size)))

-- However the bytes are cut into chunks, the head is the first `size` of them and the tail the last
-- `size`; all of them are hashed and counted.
pub write_all-captured :
    (size : ℕ) (chunks : List Bytes)
    → write_all size new_capture chunks ≡ captured size (concat chunks)
write_all-captured size chunks =
    ap (λ c. write_all size c chunks) (captured_empty size) ∙ write_all-from size [] chunks

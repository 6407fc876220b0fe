-- ===== src/Capture/Summary.antt =====
-- What a summary shows of the bytes that were captured.
use witseal.Prelude.{
  ℕ, ◌+◌, ◌-◌, ◌≤◌, ◌<◌, ◌≡◌, refl, ap, sym, ◌∙◌, min, Bool, true, false, ◌&&◌, List, none, some,
  length, take, drop, ltb, if◌then◌else◌, length-take, length-drop, arith, inl, inr,
}
use witseal.Prelude.Text.{Text}
use witseal.Schema.Execution.{StreamCapture}
use witseal.Capture.{
  Bytes, Codecs, new_capture, head_tail_bytes, last_bytes, write_all, summarize, capture_from_bytes,
}
use witseal.Capture.Written.{
  concat, captured, write_all-captured, take_all, ltb-true, ltb-false, split_le,
}

and_false : (b : Bool) → (b && false) ≡ false
and_false true = refl
and_false false = refl

-- The last bytes of the last bytes.
length-last_bytes : (n : ℕ) (bytes : Bytes) → length (last_bytes n bytes) ≡ min n (length bytes)
unfolding last_bytes
length-last_bytes n bytes = omega (arith, length-drop (length bytes - n) bytes)

last_bytes_all : (n : ℕ) (bytes : Bytes) → length bytes ≤ n → last_bytes n bytes ≡ bytes
unfolding last_bytes
last_bytes_all n bytes h =
    let e : length bytes - n ≡ 0 = omega (arith, h) in ap (λ k. drop k bytes) e

module _ (codecs : Codecs) where
  open codecs use {sha256_hex, decode_utf8}

  -- Of bytes at most twice `size` nothing but the head is shown, and of more the head and the tail.
  abbrev pub shown : ℕ → Bytes → StreamCapture
  shown size bytes = record {
    total_bytes = length bytes;
    content_hash = sha256_hex bytes;
    head = if ltb 0 (min (length bytes) size) then some (decode_utf8 (take size bytes)) else none;
    tail =
        if ltb (size + size) (length bytes)
        then some (decode_utf8 (last_bytes size bytes))
        else none;
    head_bytes = min (length bytes) size;
    tail_bytes = min size (length bytes - size);
    truncated = ltb (size + size) (length bytes);
  }

  abbrev summary : Bytes → ℕ → ℕ → ℕ → Bool → Text → Text → StreamCapture
  summary bytes total head_bytes tail_bytes truncated head tail = record {
    total_bytes = total;
    content_hash = sha256_hex bytes;
    head = if ltb 0 head_bytes then some head else none;
    tail = if ltb 0 tail_bytes && truncated then some tail else none;
    head_bytes = head_bytes;
    tail_bytes = tail_bytes;
    truncated = truncated;
  }

  -- A summary whose texts are those that are shown, wherever they are.
  summary-shown :
      (size : ℕ) (bytes : Bytes) (h t : ℕ) (head tail : Text)
      → 1 ≤ size
      → h ≡ min (length bytes) size
      → t ≡ min size (length bytes - size)
      → head ≡ decode_utf8 (take size bytes)
      → (size + size < length bytes → tail ≡ decode_utf8 (last_bytes size bytes))
      → summary bytes (length bytes) h t (ltb (h + t) (length bytes)) head tail ≡ shown size bytes
  summary-shown size bytes h t head tail positive hh ht head_eq tail_eq =
      let total = length bytes in
      elim (split_le (size + size) total) [
        | inl over ↦
            rw
              (
                hh,
                ht,
                head_eq,
                tail_eq (omega (arith, over)),
                ltb-true (min total size + min size (total - size)) total (omega (arith, over)),
                ltb-true (size + size) total over,
                ltb-true 0 (min size (total - size)) (omega (arith, over, positive)),
              )
              refl
        | inr within ↦
            rw
              (
                hh,
                ht,
                head_eq,
                ltb-false (min total size + min size (total - size)) total (omega (arith, within)),
                ltb-false (size + size) total within,
                and_false (ltb 0 (min size (total - size))),
              )
              refl
      ]

  summarize-shown :
      (size : ℕ) (bytes : Bytes)
      → 1 ≤ size
      → summarize codecs (captured size bytes) ≡ shown size bytes
  unfolding summarize
  summarize-shown size bytes positive =
      let total = length bytes in
      let taken = length-take size bytes in
      let lasted = length-last_bytes size bytes in
      summary-shown size bytes _ _ _ _ positive (omega (arith, taken))
        (omega (arith, taken, lasted))
        (ap decode_utf8 (take_all _ (take size bytes) (omega (arith, taken))))
        (λ over.
          ap decode_utf8
            (last_bytes_all _ (last_bytes size bytes) (omega (arith, taken, lasted, over))))

  length-window :
      (size : ℕ) (bytes : Bytes)
      → length (if ltb size (length bytes) then drop (length bytes - size) bytes else bytes)
        ≡ min size (length bytes)
  length-window size bytes = elim (split_le size (length bytes)) [
    | inl over ↦
        rw (ltb-true size (length bytes) over)
          (omega (arith, over, length-drop (length bytes - size) bytes))
    | inr within ↦ rw (ltb-false size (length bytes) within) (omega (arith, within))
  ]

  take-min : (size : ℕ) (bytes : Bytes) → take (min (length bytes) size) bytes ≡ take size bytes
  take-min size bytes = elim (split_le (length bytes) size) [
    | inl within ↦
        take_all _ bytes (omega (arith, within)) ∙ sym (take_all size bytes (omega (arith, within)))
    | inr over ↦ ap (λ k. take k bytes) (omega (arith, over))
  ]

  capture_from_bytes-shown :
      (bytes : Bytes) → capture_from_bytes codecs bytes ≡ shown head_tail_bytes bytes
  unfolding capture_from_bytes
  capture_from_bytes-shown bytes =
      let lasted = length-window head_tail_bytes bytes in
      summary-shown head_tail_bytes bytes _ _ _ _ (omega arith) refl (omega (arith, lasted))
        (ap decode_utf8 (take-min head_tail_bytes bytes))
        (λ over. ap (λ k. decode_utf8 (last_bytes k bytes)) (omega (arith, lasted, over)))

  -- A stream that is captured in chunks, of any sizes, has the summary of all its bytes at once, which
  -- is the one that `shown` describes.
  pub summarize-capture_from_bytes :
      (chunks : List Bytes)
      → (summarize codecs (write_all head_tail_bytes new_capture chunks)
          ≡ capture_from_bytes codecs (concat chunks))
        × (capture_from_bytes codecs (concat chunks) ≡ shown head_tail_bytes (concat chunks))
  summarize-capture_from_bytes chunks =
      let at_once = capture_from_bytes-shown (concat chunks) in
      (
        ap (summarize codecs) (write_all-captured head_tail_bytes chunks)
            ∙ summarize-shown head_tail_bytes (concat chunks) (omega arith)
            ∙ sym at_once,
        at_once,
      )

  shown-hides :
      (size : ℕ) (bytes : Bytes)
      → size < length bytes
      → length bytes ≤ size + size
      → 1 ≤ size
      → ((shown size bytes).head ≡ some (decode_utf8 (take size bytes)))
        × (((shown size bytes).tail ≡ none) × ((shown size bytes).truncated ≡ false))
  shown-hides size bytes more less positive =
      rw
        (
          ltb-true 0 (min (length bytes) size) (omega (arith, more, positive)),
          ltb-false (size + size) (length bytes) less,
        )
        (refl, (refl, refl))

  -- Of more bytes than the head and no more than twice as many, the summary shows the head alone,
  -- and calls that complete.
  pub summarize-hides :
      (size : ℕ) (chunks : List Bytes)
      → 1 ≤ size
      → size < length (concat chunks)
      → length (concat chunks) ≤ size + size
      → let s = summarize codecs (write_all size new_capture chunks) in
        (s.head ≡ some (decode_utf8 (take size (concat chunks))))
        × ((s.tail ≡ none) × (s.truncated ≡ false))
  summarize-hides size chunks positive more less =
      let (head, (tail, truncated)) = shown-hides size (concat chunks) more less positive in
      let same =
        ap (summarize codecs) (write_all-captured size chunks)
        ∙ summarize-shown size (concat chunks) positive in
      (
        ap (λ s. s.head) same ∙ head,
        (ap (λ s. s.tail) same ∙ tail, ap (λ s. s.truncated) same ∙ truncated),
      )

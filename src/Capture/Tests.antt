-- ===== src/Capture/Tests.antt =====
-- Streams of a few bytes.
use witseal.Prelude.{◌≡◌, false, [], ◌∷◌, List, none, some, arith}
use witseal.Capture.{
  Bytes, Codecs, new_capture, head_tail_bytes, write_all, summarize, capture_from_bytes,
}
use witseal.Capture.Written.{concat, captured, write_all-captured}
use witseal.Capture.Summary.{shown, summarize-capture_from_bytes, summarize-hides}

-- Bytes in the place of their digest, and ASCII.
abbrev plain_codecs : Codecs
plain_codecs = record { sha256_hex = λ b. b; decode_utf8 = λ b. b }

abbrev three_chunks : List Bytes
three_chunks = (1 ∷ 2 ∷ []) ∷ [] ∷ (3 ∷ []) ∷ []

write_all-captured_example : write_all 2 new_capture three_chunks ≡ captured 2 (concat three_chunks)
write_all-captured_example = write_all-captured 2 three_chunks

summarize-capture_from_bytes_example :
    (summarize plain_codecs (write_all head_tail_bytes new_capture three_chunks)
      ≡ capture_from_bytes plain_codecs (concat three_chunks))
    × (capture_from_bytes plain_codecs (concat three_chunks)
        ≡ shown plain_codecs head_tail_bytes (concat three_chunks))
summarize-capture_from_bytes_example = summarize-capture_from_bytes plain_codecs three_chunks

summarize-hides_example :
    let s = summarize plain_codecs (write_all 2 new_capture three_chunks) in
    (s.head ≡ some (1 ∷ 2 ∷ [])) × ((s.tail ≡ none) × (s.truncated ≡ false))
summarize-hides_example =
    summarize-hides plain_codecs 2 three_chunks (omega arith) (omega arith) (omega arith)

-- ===== src/Capture.antt =====
-- src/execution/mediator.ts, `BoundedStreamingCapture`, and src/witness/record.ts,
-- `captureFromString`: the captured head, tail, size and hash of a stream of bytes.
pub mod Written
pub mod Summary
pub mod Tests
use witseal.Prelude.{
  ℕ, ◌+◌, ◌-◌, min, ◌*◌, ◌&&◌, Bool, List, [], ◌∷◌, ◌++◌, Option, none, some, length, take, drop,
  ltb, if◌then◌else◌,
}
use witseal.Prelude.Text.{Text}
use witseal.Schema.Execution.{StreamCapture}

-- Octets, each below 256.
abbrev pub Bytes : Type 0
Bytes = List ℕ

abbrev pub head_tail_bytes : ℕ
head_tail_bytes = 64 * 1024

-- `buf.subarray(buf.length - n)` where that is not negative
unfoldable pub last_bytes : ℕ → Bytes → Bytes
last_bytes n bytes = drop (length bytes - n) bytes

-- The fields of the stream; of the hash, the bytes that updated it.
pub record BoundedStreamingCapture : Type 0 where
  pub hash : Bytes
  pub head_buf : Bytes
  pub tail_buf : Bytes
  pub total_bytes : ℕ

abbrev pub new_capture : BoundedStreamingCapture
new_capture = record { hash = []; head_buf = []; tail_buf = []; total_bytes = 0 }

-- `_write`, with `headTailSize` first
unfoldable pub write_head : ℕ → Bytes → Bytes → Bytes
write_head size head_buf chunk =
    if ltb (length head_buf) size then head_buf ++ take (size - length head_buf) chunk else head_buf

unfoldable pub write_tail : ℕ → Bytes → Bytes → Bytes
unfolding last_bytes
write_tail size tail_buf chunk =
    let tail = tail_buf ++ chunk in if ltb size (length tail) then last_bytes size tail else tail

unfoldable pub write : ℕ → BoundedStreamingCapture → Bytes → BoundedStreamingCapture
write size c chunk = record {
  hash = c.hash ++ chunk;
  head_buf = write_head size c.head_buf chunk;
  tail_buf = write_tail size c.tail_buf chunk;
  total_bytes = c.total_bytes + length chunk;
}

unfoldable pub write_all : ℕ → BoundedStreamingCapture → List Bytes → BoundedStreamingCapture
write_all size c [] = c
write_all size c (chunk ∷ chunks) = write_all size (write size c chunk) chunks

-- The hex digest and the decoding of UTF-8, neither of which is in the repository.
pub record Codecs : Type 0 where
  pub sha256_hex : Bytes → Text
  pub decode_utf8 : Bytes → Text

module _ (codecs : Codecs) where
  open codecs use {sha256_hex, decode_utf8}

  unfoldable pub summarize : BoundedStreamingCapture → StreamCapture
  unfolding last_bytes
  summarize c =
      let head_bytes = min (length c.head_buf) c.total_bytes in
      let tail_bytes = min (length c.tail_buf) (c.total_bytes - head_bytes) in
      let truncated = ltb (head_bytes + tail_bytes) c.total_bytes in
      record {
        total_bytes = c.total_bytes;
        content_hash = sha256_hex c.hash;
        head = if ltb 0 head_bytes then some (decode_utf8 (take head_bytes c.head_buf)) else none;
        tail =
            if ltb 0 tail_bytes && truncated
            then some (decode_utf8 (last_bytes tail_bytes c.tail_buf))
            else none;
        head_bytes = head_bytes;
        tail_bytes = tail_bytes;
        truncated = truncated;
      }

  -- `captureFromString`, on the UTF-8 bytes of the string
  unfoldable pub capture_from_bytes : Bytes → StreamCapture
  unfolding last_bytes
  capture_from_bytes buf =
      let total = length buf in
      let head_bytes = min total head_tail_bytes in
      let tail_window =
        if ltb head_tail_bytes total then drop (total - head_tail_bytes) buf else buf in
      let tail_bytes = min (length tail_window) (total - head_bytes) in
      let truncated = ltb (head_bytes + tail_bytes) total in
      record {
        total_bytes = total;
        content_hash = sha256_hex buf;
        head = if ltb 0 head_bytes then some (decode_utf8 (take head_bytes buf)) else none;
        tail =
            if ltb 0 tail_bytes && truncated
            then some (decode_utf8 (last_bytes tail_bytes buf))
            else none;
        head_bytes = head_bytes;
        tail_bytes = tail_bytes;
        truncated = truncated;
      }

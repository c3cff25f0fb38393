-- ===== src/Cast/Proto/Overflow.antt =====
-- `read_bytes` of src/cast/proto.rs where `i + len` does not fit a `usize`.
use rockcast.Prelude.{
  ℕ, ◌+◌, ◌^◌, ◌≤◌, ◌≡◌, ◌∙◌, List, [], ◌∷◌, ◌++◌, length, length-append, lt→ltb, arith,
}
use rockcast.Prelude.Bytes.{IsU64}
use rockcast.Cast.Proto.{
  ok, panic, blank, read_varint, read_bytes, decode_field, decode_step, decode_loop, decode,
}
use rockcast.Cast.Proto.Varint.{groups, length-groups, read_varint-groups}
use rockcast.Cast.Proto.Fields.{decode_step-key}

-- Where the end of a length-delimited value passes 2 ^ 64, `read_bytes` panics.
read_bytes_panics :
    (buf : List ℕ) (i len j : ℕ)
    → read_varint buf i ≡ ok (len, j)
    → IsU64 len
    → j ≤ length buf
    → IsU64 (length buf)
    → 2 ^ 64 ≤ j + len
    → read_bytes buf i ≡ panic
unfolding read_bytes
read_bytes_panics buf i len j e hl hj hb over = rw e (ground arith)

module _ (len : ℕ) (rest : List ℕ) (hl : IsU64 len)
    (over : 2 ^ 64 ≤ 1 + length (groups 9 len) + len) (hr : IsU64 (length rest + 11)) where
  payload_panics : read_bytes ((58 ∷ []) ++ (groups 9 len ++ rest)) 1 ≡ panic
  payload_panics =
      read_bytes_panics _ 1 len (1 + length (groups 9 len))
        (read_varint-groups len (58 ∷ []) rest hl) hl
        (omega (arith, length-append (groups 9 len) rest))
        (omega (arith, length-append (groups 9 len) rest, length-groups 9 len)) over

  step_panics : decode_step (58 ∷ (groups 9 len ++ rest)) 0 blank ≡ panic
  unfolding groups decode_field
  step_panics = decode_step-key 58 [] (groups 9 len ++ rest) blank (omega arith) ∙ rw payload_panics

  -- `decode` panics on every message of fewer than 2 ^ 64 bytes that opens with a binary payload
  -- whose stated length `len`, a 64-bit number, carries the index past 2 ^ 64, whatever bytes follow.
  decode_length_overflow : decode (58 ∷ (groups 9 len ++ rest)) ≡ panic
  unfolding decode decode_loop
  decode_length_overflow =
      rw (lt→ltb 0 (length (58 ∷ (groups 9 len ++ rest))) (omega arith), step_panics)

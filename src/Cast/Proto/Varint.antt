-- ===== src/Cast/Proto/Varint.antt =====
-- Base-128 numbers of src/cast/proto.rs: `write_varint` and `read_varint`.
use native.Mathlib.Nat.{div-add-mod}
use native.Mathlib.Numerals.{towards_suc}
use mathlib.Core.WellFounded.{Acc}
use rockcast.Prelude.{
  ℕ, zero, suc, ◌+◌, ◌*◌, ◌/◌, ◌%◌, ◌^◌, ◌≤◌, ◌<◌, ◌≡◌, refl, ap, ◌∙◌, List, [], ◌∷◌, ◌++◌,
  append_assoc, bit_or, length, length-append, length-drop, drop, drop-append, ltb, if◌then◌else◌,
  arith,
}
use rockcast.Prelude.Order.{lt_wf}
use rockcast.Prelude.Bytes.{IsU64, and_7f, and_80, or_80, or_shifted, bit_or-lt}
use rockcast.Cast.Proto.{
  ok, write_varint_loop, write_varint, add_group, read_varint_loop, read_varint,
}

-- The number in groups of seven bits, lowest first, at most `k` of them marked as not the last.
unfoldable pub groups : ℕ → ℕ → List ℕ
groups zero v = v ∷ []
groups (suc k) v = if ltb v 128 then v ∷ [] else (v % 128 + 128) ∷ groups k (v / 128)

pub length-groups : (k v : ℕ) → (1 ≤ length (groups k v)) × (length (groups k v) ≤ k + 1)
unfolding groups
length-groups zero v = omega arith
length-groups (suc k) v = ground (arith, length-groups k (v / 128))

-- The marked byte that the writer pushes for a group.
marked : (v : ℕ) → bit_or (v % 256) 0x80 ≡ v % 128 + 128
marked v = omega (arith, or_80 (v % 256) (omega arith))

write_varint_loop-groups :
    (k v : ℕ) (w : Acc ◌<◌ v) (out : List ℕ)
    → v < 128 ^ suc k
    → write_varint_loop v w out ≡ out ++ groups k v
unfolding write_varint_loop groups
write_varint_loop-groups zero v (Acc.intro _ smaller) out h = ground arith
write_varint_loop-groups (suc k) v (Acc.intro _ smaller) out h = grind (
  arith,
  marked v,
  λ (w : Acc ◌<◌ (v / 128)).
      write_varint_loop-groups k (v / 128) w (out ++ ((v % 128 + 128) ∷ [])) (omega arith),
  append_assoc out ((v % 128 + 128) ∷ []) (groups k (v / 128)),
)

pub write_varint-groups : (v : ℕ) (out : List ℕ) → IsU64 v → write_varint v out ≡ out ++ groups 9 v
unfolding write_varint
write_varint-groups v out h = write_varint_loop-groups 9 v (lt_wf.apply v) out (omega arith)

-- A group joins the result as a sum while it fits 64 bits.
add_group-eq :
    (r b s : ℕ)
    → r < 2 ^ s
    → b < 256
    → IsU64 (b % 128 * 2 ^ s)
    → add_group r b s ≡ r + b % 128 * 2 ^ s
add_group-eq r b s hr hb fits = ground (arith, and_7f b hb, or_shifted s (b % 128) r hr)

shift_by_seven : (s : ℕ) → 2 ^ (s + 7) ≡ 128 * 2 ^ s
shift_by_seven s = simp towards_suc (omega arith)

low_and_high : (v s : ℕ) → v * 2 ^ s ≡ v % 128 * 2 ^ s + v / 128 * 2 ^ (s + 7)
low_and_high v s = omega (
  arith,
  ap (λ (t : ℕ). t * 2 ^ s) (div-add-mod v 128),
  ap (λ (t : ℕ). v / 128 * t) (shift_by_seven s),
)

-- The bits below the next group, once a group has joined.
below_next : (r g s : ℕ) → r < 2 ^ s → g < 128 → r + g * 2 ^ s < 2 ^ (s + 7)
below_next r g s hr hg = grind (arith, shift_by_seven s)

last_bits : (v s : ℕ) → v < 128 → v % 128 * 2 ^ s ≡ v * 2 ^ s
last_bits v s h = ap (λ (t : ℕ). t * 2 ^ s) (omega arith)

read_last :
    (v i r s : ℕ) (rest : List ℕ)
    → v < 128
    → r < 2 ^ s
    → IsU64 (r + v * 2 ^ s)
    → read_varint_loop (v ∷ rest) i r s ≡ ok (r + v * 2 ^ s, i + 1)
unfolding read_varint_loop
read_last v i r s rest hv hr fits = ground (arith, and_80 v, last_bits v s, add_group-eq r v s hr)

read_marked :
    (g i r s : ℕ) (rest : List ℕ)
    → g < 128
    → r < 2 ^ s
    → s + 7 ≤ 63
    → IsU64 (r + g * 2 ^ s)
    → read_varint_loop ((g + 128) ∷ rest) i r s
      ≡ read_varint_loop rest (i + 1) (r + g * 2 ^ s) (s + 7)
unfolding read_varint_loop
read_marked g i r s rest hg hr hs fits =
    ground (arith, and_80 (g + 128), marked_bits, add_group-eq r (g + 128) s hr)
  where
    marked_bits : (g + 128) % 128 * 2 ^ s ≡ g * 2 ^ s
    marked_bits = ap (λ (t : ℕ). t * 2 ^ s) (omega arith)

read_varint_loop-groups :
    (k v i r s : ℕ) (rest : List ℕ)
    → v < 128 ^ suc k
    → r < 2 ^ s
    → s + 7 * k ≤ 63
    → IsU64 (r + v * 2 ^ s)
    → read_varint_loop (groups k v ++ rest) i r s ≡ ok (r + v * 2 ^ s, i + length (groups k v))
unfolding groups
read_varint_loop-groups zero v i r s rest hv hr hs fits = read_last v i r s rest hv hr fits
read_varint_loop-groups (suc k) v i r s rest hv hr hs fits = ground (
  arith,
  read_last v i r s rest,
  low_and_high v s,
  read_marked (v % 128) i r s (groups k (v / 128) ++ rest),
  below_next r (v % 128) s,
  read_varint_loop-groups k (v / 128) (i + 1) (r + v % 128 * 2 ^ s) (s + 7) rest (omega arith),
)

-- Reading at the place where a number was written gives the number, and the index behind it.
pub read_varint-groups :
    (v : ℕ) (before rest : List ℕ)
    → IsU64 v
    → read_varint (before ++ (groups 9 v ++ rest)) (length before)
      ≡ ok (v, length before + length (groups 9 v))
unfolding read_varint
read_varint-groups v before rest h = rw (drop-append before (groups 9 v ++ rest)) (
    read_varint_loop-groups 9 v (length before) 0 0 rest (omega arith) (omega arith) (omega arith)
      (omega arith)
    ∙ ap (λ (t : ℕ). ok (t, length before + length (groups 9 v))) (omega arith))

-- `read_varint` after `write_varint`: at any place of a buffer, every 64-bit number is read back,
-- and the index returned is that of the byte behind what was written.
read_varint-write_varint :
    (v : ℕ) (out rest : List ℕ)
    → IsU64 v
    → read_varint (write_varint v out ++ rest) (length out) ≡ ok (v, length (write_varint v out))
read_varint-write_varint v out rest h =
    rw (write_varint-groups v out h, append_assoc, length-append) (read_varint-groups v out rest h)

add_group-IsU64 : (r b s : ℕ) → IsU64 r → IsU64 (add_group r b s)
add_group-IsU64 r b s h = bit_or-lt 64 r _ h (omega arith)

read_varint_loop-bounds :
    (bytes : List ℕ) (i r s k v j : ℕ)
    → IsU64 r
    → s ≡ 7 * k
    → k ≤ 9
    → read_varint_loop bytes i r s ≡ ok (v, j)
    → IsU64 v × (i < j) × (j ≤ i + length bytes) × (j + k ≤ i + 10)
unfolding read_varint_loop
read_varint_loop-bounds [] i r s k v j hr hs hk e = cc
read_varint_loop-bounds (b ∷ rest) i r s k v j hr hs hk e = ground (
  arith,
  add_group-IsU64 r b s hr,
  read_varint_loop-bounds rest (i + 1) (add_group r b s) (s + 7) (k + 1) v j,
)

-- From any index inside a buffer, a number that `read_varint` returns is a 64-bit number, and the index moved by
-- 1 to 10 bytes, inside the buffer.
pub read_varint_bounds :
    (buf : List ℕ) (i v j : ℕ)
    → i ≤ length buf
    → read_varint buf i ≡ ok (v, j)
    → IsU64 v × (i < j) × (j ≤ length buf) × (j ≤ i + 10)
unfolding read_varint
read_varint_bounds buf i v j h e = omega (
  arith,
  length-drop i buf,
  read_varint_loop-bounds (drop i buf) i 0 0 0 v j (omega arith) refl (omega arith) e,
)

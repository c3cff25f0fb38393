-- ===== src/Relay/Fanout/Push.antt =====
-- `Fanout::push` of src/relay/fanout.rs: the ring as the end of the stream, and its length.
use native.Mathlib.Nat.{div-add-mod}
use rockcast.Prelude.{
  ℕ, ◌+◌, ◌-◌, ◌*◌, ◌/◌, ◌%◌, min, max, ◌≤◌, ◌<◌, ◌≡◌, ◌≢◌, refl, sym, ap, ◌⊎◌, Option, none, some,
  Bool-cases, lt→ltb, inl, inr, List, [], ◌∷◌, ◌++◌, length, length-append, length-drop, drop,
  drop-append_le, drop-drop, ltb, append-nil, arith,
}
use rockcast.Prelude.Bytes.{IsU64, add64}
use rockcast.Relay.Fanout.{Fanout, ring_max, dropped, push_bytes, push, frame_align}
use rockcast.Relay.Fanout.Stream.{Represents, length-buf}

pub dropped-le : (f : Fanout) (n : ℕ) → dropped f n ≤ length f.buf
unfolding dropped
dropped-le f n = ground arith

-- Dropping the oldest bytes and appending new ones leaves an end of the longer stream.
suffix-append {ℓ} :
    {A : Type ℓ} (n k : ℕ) (hist bytes buf : List A)
    → buf ≡ drop k hist
    → n ≤ length buf
    → k ≤ length hist
    → drop n buf ++ bytes ≡ drop (k + n) (hist ++ bytes)
suffix-append n k hist bytes buf e hn hk =
    rw (e, drop-drop)
      (sym (drop-append_le (k + n) hist bytes (omega (arith, ap length e, length-drop k hist))))

module _ (f : Fanout) (hist bytes : List ℕ) (r : Represents f hist)
    (fits : IsU64 (length hist + length bytes)) where
  new_start : add64 f.start (dropped f (length bytes)) ≡ f.start + dropped f (length bytes)
  new_start = omega (arith, dropped-le f (length bytes), length-buf f hist r, r.inside)

  kept :
      drop (dropped f (length bytes)) f.buf ++ bytes
      ≡ drop (f.start + dropped f (length bytes)) (hist ++ bytes)
  kept =
      suffix-append (dropped f (length bytes)) f.start hist bytes f.buf r.bytes
        (dropped-le f (length bytes)) r.inside

  pub push_bytes-Represents : Represents (push_bytes f bytes) (hist ++ bytes)
  unfolding push_bytes
  push_bytes-Represents = record {
    bytes = rw new_start kept;
    inside = rw new_start (
        omega (
          arith,
          dropped-le f (length bytes),
          length-buf f hist r,
          r.inside,
          length-append hist bytes,
        ));
    written = omega (
      arith,
      new_start,
      dropped-le f (length bytes),
      length-buf f hist r,
      r.inside,
      length-append hist bytes,
      length-append (drop (dropped f (length bytes)) f.buf) bytes,
      length-drop (dropped f (length bytes)) f.buf,
    );
    fits = omega (arith, length-append hist bytes);
  }

-- `push` refines the append to an endless stream: the ring still holds the end of the stream, from
-- `start` on, and `written` is the stream's length, while that is below 2 ^ 64.
pub push-Represents :
    (f : Fanout) (hist bytes : List ℕ)
    → Represents f hist
    → IsU64 (length hist + length bytes)
    → Represents (push bytes f) (hist ++ bytes)
unfolding push
push-Represents f hist [] r fits = rw append-nil r
push-Represents f hist (b ∷ bytes) r fits = push_bytes-Represents f hist (b ∷ bytes) r fits

frame_align-pos : (format : Option (ℕ × ℕ)) → 4 ≤ frame_align format
unfolding frame_align
frame_align-pos none = omega arith
frame_align-pos (some (rate, channels)) = omega arith

length-push :
    (f : Fanout) (bytes : List ℕ)
    → bytes ≢ []
    → length (push bytes f).buf ≡ length f.buf - dropped f (length bytes) + length bytes
unfolding push push_bytes
length-push f [] ne = absurd (ne refl)
length-push f (b ∷ bytes) ne = omega (
  arith,
  length-append (drop (dropped f (length (b ∷ bytes))) f.buf) (b ∷ bytes),
  length-drop (dropped f (length (b ∷ bytes))) f.buf,
)

-- Whole frames, one at least, leave less than one frame of the excess.
rounded : (e a : ℕ) → 1 ≤ a → e ≤ max (e / a) 1 * a + (a - 1)
rounded e a h = grind (arith, div-add-mod e a)

-- Where at least one frame is in excess, the drop is rounded down to whole frames.
rounded_down : (e a : ℕ) → 1 ≤ a → a ≤ e → e % a ≢ 0 → max (e / a) 1 * a < e
rounded_down e a h k ne = grind (arith, div-add-mod e a)

min-cases : (m n : ℕ) → ((min m n ≡ m) × (m ≤ n)) ⊎ (min m n ≡ n)
min-cases m n = grind arith

-- What is dropped makes up for the excess but for less than one frame, or is the whole ring.
dropped-covers :
    (f : Fanout) (n : ℕ)
    → (length f.buf + n ≤ ring_max + dropped f n + (frame_align f.pcm_format - 1))
      ⊎ (dropped f n ≡ length f.buf)
unfolding dropped
dropped-covers f n = elim (Bool-cases (ltb ring_max (length f.buf + n))) [
  | inl full ↦
      rw full
        (elim (min-cases
          (max ((length f.buf + n - ring_max) / frame_align f.pcm_format) 1
            * frame_align f.pcm_format)
          (length f.buf)) [
            | inl part ↦ inl (
                rw part.0 (
                  omega (
                    arith,
                    rounded (length f.buf + n - ring_max) (frame_align f.pcm_format)
                        (omega (arith, frame_align-pos f.pcm_format)),
                  )))
            | inr whole ↦ inr whole
          ])
  | inr room ↦ inl (rw room (ground arith))
]

-- After a chunk of 1 to `RING_MAX` bytes the ring is less than one frame longer than
-- `RING_MAX`.
pub push_bound :
    (f : Fanout) (bytes : List ℕ)
    → bytes ≢ []
    → length bytes ≤ ring_max
    → length (push bytes f).buf ≤ ring_max + (frame_align f.pcm_format - 1)
push_bound f bytes ne small = elim (dropped-covers f (length bytes)) [
  | inl covered ↦ omega (arith, length-push f bytes ne, dropped-le f (length bytes))
  | inr whole ↦ omega (arith, length-push f bytes ne)
]

dropped_short :
    (f : Fanout) (n : ℕ)
    → ring_max + frame_align f.pcm_format ≤ length f.buf + n
    → (length f.buf + n - ring_max) % frame_align f.pcm_format ≢ 0
    → ring_max + dropped f n < length f.buf + n
unfolding dropped
dropped_short f n over ragged =
    rw (lt→ltb ring_max (length f.buf + n) (omega (arith, frame_align-pos f.pcm_format))) (
      omega (
        arith,
        rounded_down (length f.buf + n - ring_max) (frame_align f.pcm_format)
            (omega (arith, frame_align-pos f.pcm_format)) (omega arith) ragged,
      ))

-- The ring does outgrow `RING_MAX`, and the `debug_assert!` of `push` fails, whenever a frame or
-- more is in excess after a chunk and the excess is no whole number of frames: the drop is rounded down.
push_overfull :
    (f : Fanout) (bytes : List ℕ)
    → bytes ≢ []
    → ring_max + frame_align f.pcm_format ≤ length f.buf + length bytes
    → (length f.buf + length bytes - ring_max) % frame_align f.pcm_format ≢ 0
    → ring_max < length (push bytes f).buf
push_overfull f bytes ne over ragged = omega (
  arith,
  length-push f bytes ne,
  dropped-le f (length bytes),
  dropped_short f (length bytes) over ragged,
)

-- ===== src/Relay/Fanout/Read.antt =====
-- `Fanout::read_at` of src/relay/fanout.rs: what one turn of its loop hands to a client.
use native.Mathlib.Nat.{div-add-mod', mul-mod_left}
use mathlib.Core.Path.{subst}
use rockcast.Prelude.{
  ℕ, ◌+◌, ◌-◌, ◌*◌, ◌/◌, ◌%◌, min, max, ◌≤◌, ◌<◌, ◌≡◌, ◌≢◌, ap, true, false, Option, none, some,
  Bool-cases, inl, inr, List, length, length-drop, length-take, drop, take, drop-drop, ltb, ltb→lt,
  ◌==◌, arith,
}
use rockcast.Prelude.Bytes.{IsU64, add64}
use rockcast.Relay.Fanout.{
  Fanout, pcm_sample_bytes, end_pos, reposition, served, wait, idle, serve, read_step, join_cushion,
}
use rockcast.Relay.Fanout.Stream.{Represents, length-buf, end_pos-eq}

pub pcm_sample_bytes-pos : (format : Option (ℕ × ℕ)) → 4 ≤ pcm_sample_bytes format
unfolding pcm_sample_bytes
pcm_sample_bytes-pos none = omega arith
pcm_sample_bytes-pos (some (rate, channels)) = omega arith

-- Whole samples of a number of bytes.
pub whole-le : (n a : ℕ) → n / a * a ≤ n
whole-le n a = omega (arith, div-add-mod' n a)

-- A position inside the ring is left alone.
pub reposition-id : (f : Fanout) (pos : ℕ) → f.start ≤ pos → reposition f pos ≡ pos
unfolding reposition
reposition-id f pos h = ground arith

-- Where a client that fell behind goes on: inside the ring.
pub reposition_bounds :
    (f : Fanout) (hist : List ℕ) (pos : ℕ)
    → Represents f hist
    → pos ≤ length hist
    → (f.start ≤ reposition f pos) × (reposition f pos ≤ length hist)
unfolding reposition
reposition_bounds f hist pos r h = elim (Bool-cases (ltb pos f.start)) [
  | inl behind ↦ rw behind (
    omega (arith, end_pos-eq f hist r, r.inside, r.fits, moved),
    omega (arith, end_pos-eq f hist r, r.inside, r.fits, moved),
  )
  | inr inside ↦ rw inside (ground arith, h)
]
  where
    near : ℕ
    near = max (end_pos f - min join_cushion (length f.buf / 2)) f.start

    moved :
        (near - f.start) / pcm_sample_bytes f.pcm_format * pcm_sample_bytes f.pcm_format
        ≤ near - f.start
    moved = whole-le (near - f.start) (pcm_sample_bytes f.pcm_format)

pub from_buf :
    (k start : ℕ) (hist buf : List ℕ) → buf ≡ drop start hist → drop k buf ≡ drop (start + k) hist
from_buf k start hist buf e = rw (e, drop-drop)

whole-mod : (n a : ℕ) → 4 ≤ a → (n - n % a) % a ≡ 0
whole-mod n a h =
    let whole : n - n % a ≡ n / a * a = omega (arith, div-add-mod' n a) in
    rw (whole, mul-mod_left (n / a) a)

-- What `serve` hands over, from the number of bytes that it settled on.
pub record Part (hist : List ℕ) (pos out_len align : ℕ) (out : List ℕ) (next : ℕ) : Type 0 where
  pub bytes : out ≡ take (length out) (drop pos hist)
  pub moved : next ≡ pos + length out
  pub some_bytes : 0 < length out
  pub room : length out ≤ out_len
  pub inside : next ≤ length hist
  pub whole : length out % align ≡ 0

Part-of :
    (hist : List ℕ) (pos out_len align n : ℕ)
    → IsU64 (length hist)
    → n ≢ 0
    → pos + n ≤ length hist
    → n ≤ out_len
    → n % align ≡ 0
    → Part hist pos out_len align (take n (drop pos hist)) (add64 pos n)
Part-of hist pos out_len align n fits ne inside room whole = record {
  bytes = rw size;
  moved = omega (arith, size);
  some_bytes = omega (arith, size);
  room = omega (arith, size);
  inside = omega (arith, size);
  whole = rw size whole;
}
  where
    size : length (take n (drop pos hist)) ≡ n
    size = omega (arith, length-take n (drop pos hist), length-drop pos hist)

served-Part :
    {hist : List ℕ} {pos out_len align : ℕ} {bytes out : List ℕ} {moved next : ℕ}
    → served bytes moved ≡ served out next
    → Part hist pos out_len align bytes moved
    → Part hist pos out_len align out next
served-Part {hist} {pos} {out_len} {align} {bytes} {out} {moved} {next} e part =
    let same_bytes : bytes ≡ out = cc in
    let same_place : moved ≡ next = cc in
    subst (λ o. Part hist pos out_len align o next) same_bytes
      (subst (λ m. Part hist pos out_len align bytes m) same_place part)

module _ (f : Fanout) (hist : List ℕ) (r : Represents f hist) (pos out_len : ℕ) where
  -- The bytes that `serve` copies, as a part of the stream.
  stream_part :
      (n : ℕ) → f.start ≤ pos → take n (drop (pos - f.start) f.buf) ≡ take n (drop pos hist)
  stream_part n h =
      rw (from_buf (pos - f.start) f.start hist f.buf r.bytes)
        (ap (λ (k : ℕ). take n (drop k hist)) (omega arith))

  serve_lem :
      (out : List ℕ) (next : ℕ)
      → f.start ≤ pos
      → serve f pos out_len ≡ served out next
      → Part hist pos out_len (pcm_sample_bytes f.pcm_format) out next
  unfolding serve idle
  serve_lem out next h e = elim (Bool-cases (ltb pos (end_pos f))) [
    | inr past ↦ absurd (ground (arith, rw past at e))
    | inl before ↦ elim (Bool-cases (count == 0)) [
      | inl nothing ↦ absurd (ground (arith, rw (before, nothing) at e))
      | inr something ↦ served-Part (rw (before, something, stream_part count h) at e) (
          Part-of hist pos out_len (pcm_sample_bytes f.pcm_format) count r.fits
            (λ z. cc (rw z at something))
            (omega (
              arith,
              ltb→lt pos (end_pos f) before,
              length-buf f hist r,
              r.inside,
              end_pos-eq f hist r,
            ))
            (omega arith)
            (whole-mod room (pcm_sample_bytes f.pcm_format) (pcm_sample_bytes-pos f.pcm_format)))
    ]
  ]
    where
      room : ℕ
      room = min (length f.buf - (pos - f.start)) out_len

      count : ℕ
      count = room - room % pcm_sample_bytes f.pcm_format

-- What a client whose position is inside the stream is served is the stream from the place where it stands, or where a client that
-- fell behind is put: at least one byte, at most what it asked for, in whole samples, all
-- inside the stream so far; and its position moves by as many bytes.
pub read_step_served :
    (f : Fanout) (hist : List ℕ) (pos out_len : ℕ) (out : List ℕ) (next : ℕ)
    → Represents f hist
    → pos ≤ length hist
    → read_step f pos out_len ≡ served out next
    → Part hist (reposition f pos) out_len (pcm_sample_bytes f.pcm_format) out next
unfolding read_step
read_step_served f hist pos out_len out next r h e =
    serve_lem f hist r (reposition f pos) out_len out next (reposition_bounds f hist pos r h).0
      (ground arith)

-- A turn that waits leaves the position where the reader stands, and the feeder has not finished.
pub read_step_wait :
    (f : Fanout) (pos out_len next : ℕ)
    → read_step f pos out_len ≡ wait next
    → (next ≡ reposition f pos) × (f.stop ≡ false) × (f.error ≡ none) × (f.ended ≡ false)
unfolding read_step serve idle
read_step_wait f pos out_len next e = ground arith

-- Once the feeder has finished, no turn waits: every read returns.
pub read_step_ended :
    (f : Fanout) (pos out_len next : ℕ) → f.ended ≡ true → read_step f pos out_len ≢ wait next
read_step_ended f pos out_len next ended e = cc (ended, (read_step_wait f pos out_len next e).3)

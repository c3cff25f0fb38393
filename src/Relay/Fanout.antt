-- ===== src/Relay/Fanout.antt =====
-- src/relay/fanout.rs: the byte ring that one feeder fills and several HTTP clients read, each at
-- its own absolute stream position. Each method takes the lock once, so it is one function of the
-- state; what other threads do between two calls is what happens to the state between them.
-- Spectrum levels and the pacing clock (`levels`, `pace_pcm_chunk`) are not part of the state.
pub mod Stream
pub mod Push
pub mod Read
pub mod Client
pub mod Join
mod Tests
use Prim.Native.String.{String}
use text.Mathlib.Text.{◌==◌ as str_eq}
use rockcast.Prelude.{
  ℕ, suc, ◌+◌, ◌-◌, ◌*◌, ◌/◌, ◌%◌, ◌^◌, min, max, bit_and, Bool, true, false, not, ◌&&◌, Option,
  none, some, List, [], ◌∷◌, ◌++◌, length, take, drop, ltb, leb, ◌==◌, if◌then◌else◌,
}
use mathlib.Core.Option
use rockcast.Prelude.Bytes.{add64, sub64}

abbrev pub ring_max : ℕ
ring_max = 2 * 1024 * 1024

abbrev pub join_cushion : ℕ
join_cushion = 144 * 1024

-- `start` is the stream position of the first byte of `buf`.
pub record Fanout : Type 0 where
  pub stop : Bool
  pub buf : List ℕ
  pub start : ℕ
  pub ended : Bool
  pub error : Option String
  pub written : ℕ
  pub title : Option String
  pub pcm_format : Option (ℕ × ℕ)

unfoldable pub new : Bool → Fanout
new stop = record {
  stop = stop;
  buf = [];
  start = 0;
  ended = false;
  error = none;
  written = 0;
  title = none;
  pcm_format = none;
}

-- The first format that is known stays.
pub set_pcm_format : ℕ → ℕ → Fanout → Fanout
set_pcm_format rate channels f = elim f.pcm_format [
  | none ↦ record f { pcm_format = some (rate, channels) }
  | some known ↦ f
]

abbrev pub buffered_bytes : Fanout → ℕ
buffered_bytes f = length f.buf

-- Bytes of one sample of all channels, and of 20 ms. With `u32` rates and `u16` channels the
-- products are far below 2 ^ 64.
pub pcm_sample_bytes : Option (ℕ × ℕ) → ℕ
pcm_sample_bytes none = max 4 4
pcm_sample_bytes (some (rate, channels)) = max (max channels 1 * 2) 4

pub pcm_frame_bytes : ℕ → ℕ → ℕ
pcm_frame_bytes rate channels =
    let channels = max channels 1 in max (rate * channels * 2 * 20 / 1000) (channels * 2 * 256)

pub frame_align : Option (ℕ × ℕ) → ℕ
frame_align none = max 4 4
frame_align (some (rate, channels)) = max (pcm_frame_bytes rate channels) 4

-- How many of the oldest bytes go when `incoming` bytes arrive.
pub dropped : Fanout → ℕ → ℕ
dropped f incoming =
    if ltb ring_max (length f.buf + incoming)
    then (let excess = length f.buf + incoming - ring_max in
        let align = frame_align f.pcm_format in min (max (excess / align) 1 * align) (length f.buf))
    else 0

pub push_bytes : Fanout → List ℕ → Fanout
push_bytes f bytes =
    let drop_len = dropped f (length bytes) in
    let start = add64 f.start drop_len in
    let buf = drop drop_len f.buf ++ bytes in
    record f { buf = buf; start = start; written = add64 start (length buf) }

-- An empty slice returns at once.
pub push : List ℕ → Fanout → Fanout
push [] f = f
push (b ∷ bytes) f = push_bytes f (b ∷ bytes)

same_title : Option String → String → Bool
same_title none title = false
same_title (some old) title = str_eq old title

pub set_title : String → Fanout → Fanout
set_title title f = if same_title f.title title then f else record f { title = some title }

pub take_title : Fanout → Option String
take_title f = f.title

pub finish_ok : Fanout → Fanout
finish_ok f = record f { ended = true }

pub finish_err : String → Fanout → Fanout
finish_err msg f = record f { ended = true; error = some msg }

-- The stream position behind the last byte.
abbrev pub end_pos : Fanout → ℕ
end_pos f = add64 f.start (length f.buf)

-- A reader that fell behind the ring is moved near the live edge, to a whole sample.
pub reposition : Fanout → ℕ → ℕ
reposition f pos =
    if ltb pos f.start
    then (let cushion = min join_cushion (length f.buf / 2) in
        let near = max (end_pos f - cushion) f.start in
        let align = pcm_sample_bytes f.pcm_format in
        add64 f.start ((near - f.start) / align * align))
    else pos

-- What one turn of the loop of `read_at` does; each carries the position that it leaves behind.
pub data ReadStep : Type 0 where
  failed : String → ℕ → ReadStep
  served : List ℕ → ℕ → ReadStep
  at_end : ℕ → ReadStep
  wait : ℕ → ReadStep

-- `Ok(0)` once the feeder has finished, and a wait on the condition variable before.
pub idle : Fanout → ℕ → ReadStep
idle f pos = if f.ended then at_end pos else wait pos

pub serve : Fanout → ℕ → ℕ → ReadStep
serve f pos out_len =
    if ltb pos (end_pos f)
    then (let off = pos - f.start in
        let room = min (length f.buf - off) out_len in
        let n = room - room % pcm_sample_bytes f.pcm_format in
        if n == 0 then idle f pos else served (take n (drop off f.buf)) (add64 pos n))
    else idle f pos

pub read_step : Fanout → ℕ → ℕ → ReadStep
read_step f pos out_len =
    if f.stop
    then failed "stopped" pos
    else elim f.error [ some msg ↦ failed msg pos | none ↦ serve f (reposition f pos) out_len ]

-- `read_at` over the states that its turns find, until one of them returns. `none`: it still waits.
pub read_at : List Fanout → ℕ → ℕ → Option ReadStep
read_at [] pos out_len = none
read_at (f ∷ later) pos out_len = elim (read_step f pos out_len) [
  | wait pos' ↦ read_at later pos' out_len
  | done ↦ some done
]

-- `off` and `len - off` are wrapping subtractions of a release build; the loop writes the bytes
-- that there are from `off` on, at most `n`, into the front of `out`.
pub copy_at : Fanout → ℕ → List ℕ → ℕ × List ℕ
copy_at f pos out =
    if leb (end_pos f) pos
    then (0, out)
    else (let off = sub64 pos f.start in
        let n = min (sub64 (length f.buf) off) (length out) in
        let bytes = take n (drop off f.buf) in (n, bytes ++ drop (length bytes) out))

-- The first index at which an MPEG audio frame can begin.
pub is_mpeg_sync : ℕ → ℕ → Bool
is_mpeg_sync b0 b1 = b0 == 0xff && bit_and b1 0xe0 == 0xe0 && not (bit_and b1 0x18 == 0x08)

pub find_mpeg_frame_sync : List ℕ → Option ℕ
find_mpeg_frame_sync [] = none
find_mpeg_frame_sync (b0 ∷ []) = none
find_mpeg_frame_sync (b0 ∷ b1 ∷ rest) =
    if is_mpeg_sync b0 b1 then some 0 else Option.map suc (find_mpeg_frame_sync (b1 ∷ rest))

pub advance : ℕ → Option ℕ → ℕ
advance pos none = pos
advance pos (some rel) = add64 pos rel

pub align_mp3_pos : Fanout → ℕ → ℕ
align_mp3_pos f pos =
    let pos = min (max pos f.start) (end_pos f) in
    advance pos (find_mpeg_frame_sync (drop (pos - f.start) f.buf))

pub align_pcm_pos : Fanout → ℕ → ℕ
align_pcm_pos f pos =
    if leb (end_pos f) pos
    then end_pos f
    else (let align = pcm_sample_bytes f.pcm_format in
        add64 f.start ((pos - f.start) / align * align))

-- The lock is given back before `align_pcm_pos` takes it again: `later` is what it finds.
pub join_position : Fanout → Fanout → ℕ
join_position f later =
    let cushion = min join_cushion (length f.buf) in
    align_pcm_pos later (max (end_pos f - cushion) f.start)

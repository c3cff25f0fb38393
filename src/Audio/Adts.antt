-- ===== src/Audio/Adts.antt =====
-- `AdtsStreamReader` of src/audio/decode/live/adts.rs, with `find_adts_sync` of src/audio/format.rs: a
-- byte stream that comes in pieces, cut into ADTS frames.
pub mod Sync
pub mod Frames
mod Tests
use Prim.Native.String.{String}
use rockcast.Prelude.{
  ℕ, ◌+◌, ◌*◌, ◌/◌, ◌^◌, bit_and, Bool, true, false, not, ◌&&◌, ◌||◌, Option, none, some, List, [],
  ◌∷◌, ◌++◌, length, take, drop, ltb, leb, ◌==◌, if◌then◌else◌,
}
use rockcast.Prelude.Results.{Result, err, ok}

abbrev pub is_adts_sync : ℕ → ℕ → Bool
is_adts_sync b0 b1 = b0 == 0xff && bit_and b1 0xf6 == 0xf0

-- `windows(2).position(..)`
pub find_adts_sync : List ℕ → Option ℕ
find_adts_sync [] = none
find_adts_sync (b0 ∷ []) = none
find_adts_sync (b0 ∷ (b1 ∷ rest)) =
    let later = find_adts_sync (b1 ∷ rest) in
    if is_adts_sync b0 b1 then some 0 else elim later [ none ↦ none | some i ↦ some (i + 1) ]

-- The three parts of the length are in different bits, so `|` adds them.
pub adts_total_frame_len : List ℕ → Option ℕ
adts_total_frame_len (b0 ∷ b1 ∷ b2 ∷ b3 ∷ b4 ∷ b5 ∷ b6 ∷ rest) =
    if not (is_adts_sync b0 b1)
    then none
    else (let frame_len = bit_and b3 0x03 * 2 ^ 11 + b4 * 2 ^ 3 + bit_and b5 0xe0 / 2 ^ 5 in
        if leb 7 frame_len then some frame_len else none)
adts_total_frame_len _ = none

-- What one `refill` meets: the stop flag, or an answer of the source.
pub data Refill : Type 0 where
  stop_set : Refill
  end_of_stream : Refill
  chunk : List ℕ → Refill
  interrupted : Refill
  broken : String → Refill

-- A round of the loop: the stop flag at its start, and its `refill`, if it comes to one.
pub record Round : Type 0 where
  pub stopped : Bool
  pub refill : Refill

-- The buffer of a round, past what is no frame.
pub resync : List ℕ → List ℕ
resync pending = elim (find_adts_sync pending) [
  | some sync ↦ drop sync pending
  | none ↦ if ltb 32768 (length pending) then [] else pending
]

-- The length of the whole frame that a buffer starts with.
pub whole_frame : List ℕ → Option ℕ
whole_frame pending = elim (find_adts_sync pending) [
  | none ↦ none
  | some sync ↦ elim (adts_total_frame_len (drop sync pending)) [
    | none ↦ none
    | some len ↦ if leb len (length (drop sync pending)) then some len else none
  ]
]

-- The result and the buffer behind it; `none` while the rounds do not get to one.
pub next_frame : List Round → List ℕ → Option (Result String (Option (List ℕ)) × List ℕ)
next_frame [] pending = none
next_frame (round ∷ rounds) pending =
    if round.stopped then some (err "stopped", pending) else elim (whole_frame pending) [
      | some len ↦ some (ok (some (take len (resync pending))), drop len (resync pending))
      | none ↦ elim round.refill [
        | stop_set ↦ some (err "stopped", resync pending)
        | end_of_stream ↦ some (ok none, resync pending)
        | chunk bytes ↦ next_frame rounds (resync pending ++ bytes)
        | interrupted ↦ next_frame rounds (resync pending)
        | broken message ↦ some (err message, resync pending)
      ]
    ]

-- ===== src/Audio/Adts/Tests.antt =====
-- A frame in two pieces, after two bytes that are none, for src/audio/decode/live/adts.rs.
use rockcast.Prelude.{ℕ, false, some, List, [], ◌∷◌, ◌≡◌, refl}
use rockcast.Prelude.Results.{ok}
use rockcast.Audio.Adts.{
  find_adts_sync, adts_total_frame_len, chunk, Round, resync, whole_frame, next_frame,
}
use rockcast.Audio.Adts.Frames.{Cut, next_frame-Cut}

abbrev rounds : List Round
rounds =
    record { stopped = false; refill = chunk (0x01 ∷ 0x20 ∷ 0xfc ∷ 0xaa ∷ 0xff ∷ []) }
    ∷ record { stopped = false; refill = chunk [] }
    ∷ []

-- A header of a frame of 9 bytes: 7 and two of audio.
abbrev pending : List ℕ
pending = 3 ∷ 4 ∷ 0xff ∷ 0xf1 ∷ 0x50 ∷ 0x80 ∷ []

abbrev frame : List ℕ
frame = 0xff ∷ 0xf1 ∷ 0x50 ∷ 0x80 ∷ 0x01 ∷ 0x20 ∷ 0xfc ∷ 0xaa ∷ 0xff ∷ []

cut_run : next_frame rounds pending ≡ some (ok (some frame), [])
unfolding next_frame whole_frame resync adts_total_frame_len find_adts_sync
cut_run = refl

next_frame-Cut_example : Cut rounds pending frame []
next_frame-Cut_example = next_frame-Cut rounds pending frame [] cut_run

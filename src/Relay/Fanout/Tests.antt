-- ===== src/Relay/Fanout/Tests.antt =====
-- Runs of the ring of src/relay/fanout.rs, and the theorems at concrete inputs.
use rockcast.Prelude.{
  ℕ, zero, suc, ◌+◌, ◌-◌, ◌%◌, ◌≤◌, ◌≡◌, ◌≢◌, refl, ap, false, none, some, List, [], ◌∷◌, ◌++◌,
  length, arith,
}
use rockcast.Relay.Fanout.{
  Fanout, new, push, push_bytes, dropped, frame_align, pcm_sample_bytes, read_step, read_at, serve,
  idle, served, at_end, finish_ok, reposition, ring_max,
}
use rockcast.Relay.Fanout.Stream.{Represents, new-Represents}
use rockcast.Relay.Fanout.Client.{Run, joined, pushed, took, InStep, Run-InStep}

-- Ten bytes have gone through, and the ring still holds the last six.
abbrev stream : List ℕ
stream = 1 ∷ 2 ∷ 3 ∷ 4 ∷ 5 ∷ 6 ∷ 7 ∷ 0xff ∷ 0xfb ∷ 10 ∷ []

abbrev ring : Fanout
ring = record {
  stop = false;
  buf = 5 ∷ 6 ∷ 7 ∷ 0xff ∷ 0xfb ∷ 10 ∷ [];
  start = 4;
  ended = false;
  error = none;
  written = 10;
  title = none;
  pcm_format = none;
}

ring-Represents : Represents ring stream
ring-Represents = record { bytes = refl; inside = omega arith; written = refl; fits = omega arith }

serves : read_step ring 4 16 ≡ served (5 ∷ 6 ∷ 7 ∷ 0xff ∷ []) 8
unfolding read_step serve idle reposition pcm_sample_bytes
serves = refl

waits :
    read_at (ring ∷ push (11 ∷ 12 ∷ []) ring ∷ []) 8 16
    ≡ some (served (0xfb ∷ 10 ∷ 11 ∷ 12 ∷ []) 12)
unfolding read_at read_step serve idle reposition pcm_sample_bytes push push_bytes dropped
waits = refl

ends : read_at (ring ∷ finish_ok ring ∷ []) 8 16 ≡ some (at_end 8)
unfolding read_at read_step serve idle reposition pcm_sample_bytes finish_ok
ends = refl

new_is_empty : Represents (new false) []
new_is_empty = new-Represents false

-- A full ring, for which the contents do not matter.
zeros : ℕ → List ℕ
zeros zero = []
zeros (suc n) = 0 ∷ zeros n

length-zeros : (n : ℕ) → length (zeros n) ≡ n
unfolding zeros
length-zeros zero = refl
length-zeros (suc n) = ap suc (length-zeros n)

abbrev full : Fanout
full = record ring { buf = zeros ring_max; start = 0; written = ring_max }

frame_align-none : frame_align none ≡ 4
unfolding frame_align
frame_align-none = refl

six_over : (length full.buf + 6 - ring_max) % frame_align none ≢ 0
six_over = rw (frame_align-none, length-zeros ring_max) (omega arith)

-- The client reads four bytes, two more are pushed, and it reads four again.
abbrev pushed_ring : Fanout
pushed_ring = push (11 ∷ 12 ∷ []) ring

serves_again : read_step pushed_ring 8 16 ≡ served (0xfb ∷ 10 ∷ 11 ∷ 12 ∷ []) 12
unfolding read_step serve idle reposition pcm_sample_bytes push push_bytes dropped
serves_again = refl

kept_place : pushed_ring.start ≤ 8
unfolding push push_bytes dropped
kept_place = omega arith

abbrev given : List ℕ
given = 5 ∷ 6 ∷ 7 ∷ 0xff ∷ 0xfb ∷ 10 ∷ 11 ∷ 12 ∷ []

session : Run 4 pushed_ring (stream ++ (11 ∷ 12 ∷ [])) 12 given
session = took 16 (0xfb ∷ 10 ∷ 11 ∷ 12 ∷ []) 12 kept_place serves_again (
    pushed (11 ∷ 12 ∷ []) (omega arith) (
      took 16 (5 ∷ 6 ∷ 7 ∷ 0xff ∷ []) 8 (omega arith) serves
        (joined ring stream ring-Represents (omega arith))))

Run-InStep_example : InStep 4 pushed_ring (stream ++ (11 ∷ 12 ∷ [])) 12 given
Run-InStep_example = Run-InStep session

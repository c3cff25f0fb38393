-- ===== src/Playback/Job/Tests.antt =====
-- Runs of the workers of src/playback/mod.rs.
use Prim.Native.String.{String}
use rockcast.Prelude.{Bool, true, false, none, [], ◌∷◌, ◌≡◌, refl}
use rockcast.Prelude.Results.{err, ok}
use rockcast.Playback.{PlaybackController, new, play, stop}
use rockcast.Playback.Job.{Gate, is_closed, CastWorld, cast_device, World, play_job}
use rockcast.Playback.Job.Relay.{is_running, is_announced, play_job-relay}

-- The station was stopped in the meantime.
abbrev stopped : PlaybackController
stopped = (stop none (play false none new).0).0

abbrev open_gate : Gate
open_gate = record { runtime_cancelled = false; operation_cancelled = false; generation = 1 }

abbrev receiver : CastWorld
receiver = record {
  before_start = open_gate;
  relay = ok ("http://relay", "audio/wav");
  data_ready = true;
  wait_cancelled = false;
  unavailable = "station unavailable";
  before_cast = open_gate;
  callbacks = ("loading", 1) ∷ [];
  result = err "refused";
  generation_after = 1;
  tap_url = none;
}

abbrev world : World
world = record {
  entry = open_gate;
  stream_url = ok "http://rock";
  headers = ok tt;
  device = cast_device receiver;
}

abbrev is_wav : String → Bool
is_wav load_ct = true

play_job-relay_example :
    is_running true (play_job is_wav "s" 1 world) ≡ is_announced (play_job is_wav "s" 1 world)
unfolding is_closed
play_job-relay_example =
    play_job-relay is_wav "s" 1 true open_gate (ok "http://rock") (ok tt) receiver refl refl

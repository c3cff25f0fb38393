-- ===== src/Playback/Tests.antt =====
-- Runs of the controller of src/playback/mod.rs.
use rockcast.Prelude.{false, none, [], ◌∷◌, ◌≡◌, refl, arith}
use rockcast.Playback.{
  playing, stopping, PlaybackEvent, play_ok, PlaybackController, new, send, play, stop, apply_event,
  poll,
}
use rockcast.Playback.Machine.Invariant.{Runs-IsConsistent}
use rockcast.Playback.Machine.{
  play_command, stop_command, Runs, started, played, halted, sent, polled, IsConsistent,
}

-- A station is played, and stopped before its success has come in.
abbrev after_play : PlaybackController
after_play = (play false none new).0

abbrev late : PlaybackEvent
late = play_ok "s" none 1 false

abbrev after_stop : PlaybackController
after_stop = (stop none after_play).0

late_run :
    Runs
      (poll (send late after_stop))
      ((2, stop_command) ∷ (1, play_command false) ∷ [])
      stop_command
unfolding new play stop
late_run = polled (
    sent late ((2, stop_command) ∷ []) [] (play_command false) refl
      (halted none (omega arith) (played false none (omega arith) started)))

late_ignored : (poll (send late after_stop)).phase ≡ stopping 2
unfolding new play stop send poll apply_event
late_ignored = refl

in_time : (poll (send late after_play)).phase ≡ playing 1 false
unfolding new play send poll apply_event
in_time = refl

Runs-IsConsistent_example :
    IsConsistent
      (poll (send late after_stop))
      ((2, stop_command) ∷ (1, play_command false) ∷ [])
      stop_command
Runs-IsConsistent_example = Runs-IsConsistent late_run

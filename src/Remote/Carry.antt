-- ===== src/Remote/Carry.antt =====
-- The branches of `poll_device_control_commands` in src/app/actions/playback.rs, one for each plan.
use rockcast.Prelude.{ℕ, true, false, Option, none, some, if◌then◌else◌}
use rockcast.DeviceControl.Protocol.{failed}
use rockcast.DeviceControl.Receivers.{get_fresh_at}
use rockcast.Remote.Plan.{
  RemoteCommandPlan, play_chosen, stop_now, play_next, play_previous, play_at, play_delivered,
  volume_to, discover_receivers, connect_receiver, disconnect_receiver, start_relay, stop_relay,
}
use rockcast.Remote.Controls.{
  Player, CastDevice, RemoteOutput, on_local, via_relay, Moment, Reply, answered, started,
  discovering, succeeded, is_local_output, find_index, is_some, play_selected, stop_playing,
  select_and_play, play_remote_relative, place_delivered, select_cast_device,
}

abbrev begun : Option RemoteOutput → Player × Option ℕ → Player × Reply
begun output (p, generation) = (p, started generation output)

pub connect : Moment → ℕ → Option CastDevice → Player → Player × Reply
connect m id none p = (
  p,
  answered (failed "invalid_payload" "Chromecast receiver is missing or discovery has expired"),
)
connect m id (some device) p =
    if is_some p.selected_station
    then begun (some (via_relay (some id))) (play_selected m.submit (select_cast_device device p))
    else (
      p,
      answered
          (failed "invalid_payload" "A selected station is required before connecting Chromecast"),
    )

pub fall_back : Moment → Option ℕ → Player → Player × Reply
fall_back m none p =
    (p, answered (failed "invalid_payload" "No local output is available for Chromecast fallback"))
fall_back m (some index) p =
    if is_some p.selected_station
    then begun (some on_local) (play_selected m.submit (record p { selected_device = some index }))
    else (
      p,
      answered (failed "invalid_payload" "A selected station is required before local fallback"),
    )

pub disconnect : Moment → RemoteOutput → Player → Player × Reply
disconnect m on_local p = (p, answered succeeded)
disconnect m (via_relay id) p = fall_back m (find_index is_local_output p.devices) p

unfoldable pub carry_out : Moment → RemoteCommandPlan → Player → Player × Reply
carry_out m play_chosen p = begun none (play_selected m.submit p)
carry_out m stop_now p = begun none (stop_playing m.submit p)
carry_out m play_next p = begun none (play_remote_relative m.submit true p)
carry_out m play_previous p = begun none (play_remote_relative m.submit false p)
carry_out m (play_at index) p = begun none (select_and_play m.submit index p)
carry_out m (play_delivered id shown uri) p =
    let placed = place_delivered id shown uri p.stations in
    begun none (select_and_play m.submit placed.1 (record p { stations = placed.0 }))
carry_out m (volume_to level) p = (record p { volume = level }, answered succeeded)
carry_out m discover_receivers p = (p, discovering)
carry_out m (connect_receiver id) p = connect m id (get_fresh_at p.receivers id m.now) p
carry_out m disconnect_receiver p = disconnect m p.output p
carry_out m start_relay p = (
  p,
  answered (
      if m.relay_active
      then succeeded
      else failed "invalid_payload" "Relay requires active Chromecast playback"),
)
carry_out m stop_relay p =
    if m.relay_active then begun none (stop_playing m.submit p) else (p, answered succeeded)

-- The output of a command that has ended well, where it changes the output.
pub take_output : Option RemoteOutput → Player → Player
take_output none p = p
take_output (some output) p = record p { output = output }

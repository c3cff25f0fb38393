-- ===== src/Remote/Plan.antt =====
-- `plan_remote_command` of src/app/actions/playback.rs: what a command asks of the player as it is now.
use Prim.Native.String.{String}
use text.Mathlib.Text.{◌==◌ as str_eq}
use rockcast.Prelude.{
  ℕ, zero, suc, ◌+◌, ◌-◌, min, Option, none, some, List, [], ◌∷◌, length, ltb, if◌then◌else◌,
}
use rockcast.Prelude.Results.{Result, err, ok}
use rockcast.DeviceControl.Protocol.{
  ℤ, pos, negsuc, StationPresentation, PlayerCommand, play, pause, stop, next, previous,
  play_station, play_stream, set_volume, change_volume, set_mute, chromecast_discover,
  chromecast_connect, chromecast_disconnect, relay_start, relay_stop, relay_set_mode, CommandResult,
  failed,
}
use rockcast.Stations.Catalog.{Station}

pub data RemoteCommandPlan : Type 0 where
  play_chosen : RemoteCommandPlan
  stop_now : RemoteCommandPlan
  play_next : RemoteCommandPlan
  play_previous : RemoteCommandPlan
  play_at : ℕ → RemoteCommandPlan
  play_delivered : String → Option StationPresentation → String → RemoteCommandPlan
  volume_to : ℕ → RemoteCommandPlan
  discover_receivers : RemoteCommandPlan
  connect_receiver : ℕ → RemoteCommandPlan
  disconnect_receiver : RemoteCommandPlan
  start_relay : RemoteCommandPlan
  stop_relay : RemoteCommandPlan

abbrev pub cannot_apply : CommandResult
cannot_apply = failed "invalid_payload" "Command cannot be applied to local playback state"

-- `position`, of the first station with an id
unfoldable pub position_of : String → List Station → Option ℕ
position_of id [] = none
position_of id (s ∷ stations) =
    let rest = position_of id stations in
    if str_eq s.id id then some 0 else elim rest [ none ↦ none | some i ↦ some (suc i) ]

pub planned_or : Option RemoteCommandPlan → Result CommandResult RemoteCommandPlan
planned_or none = err cannot_apply
planned_or (some plan) = ok plan

pub next_plan : ℕ → Option ℕ → Option RemoteCommandPlan
next_plan count none = none
next_plan count (some current) = if ltb (current + 1) count then some play_next else none

pub previous_plan : Option ℕ → Option RemoteCommandPlan
previous_plan none = none
previous_plan (some zero) = none
previous_plan (some (suc current)) = some play_previous

pub station_plan : Option ℕ → Option RemoteCommandPlan
station_plan none = none
station_plan (some index) = some (play_at index)

-- `(i16::from(volume) + i16::from(delta)).clamp(0, 100)`
pub changed_volume : ℕ → ℤ → ℕ
changed_volume volume (pos up) = min 100 (volume + up)
changed_volume volume (negsuc down) = min 100 (volume - suc down)

pub plan_remote_command :
    PlayerCommand → List Station → Option ℕ → ℕ → Result CommandResult RemoteCommandPlan
plan_remote_command play stations selected volume = ok play_chosen
plan_remote_command stop stations selected volume = ok stop_now
plan_remote_command next stations selected volume =
    planned_or (next_plan (length stations) selected)
plan_remote_command previous stations selected volume = planned_or (previous_plan selected)
plan_remote_command (play_station id) stations selected volume =
    planned_or (station_plan (position_of id stations))
plan_remote_command (play_stream id station uri) stations selected volume =
    ok (play_delivered id station uri)
plan_remote_command (set_volume level) stations selected volume = ok (volume_to level)
plan_remote_command (change_volume delta) stations selected volume =
    ok (volume_to (changed_volume volume delta))
plan_remote_command pause stations selected volume =
    err (failed "capability_not_supported" "Command is not supported by this player")
plan_remote_command (set_mute muted) stations selected volume =
    err (failed "capability_not_supported" "Command is not supported by this player")
plan_remote_command chromecast_discover stations selected volume = ok discover_receivers
plan_remote_command (chromecast_connect id) stations selected volume = ok (connect_receiver id)
plan_remote_command chromecast_disconnect stations selected volume = ok disconnect_receiver
plan_remote_command relay_start stations selected volume = ok start_relay
plan_remote_command relay_stop stations selected volume = ok stop_relay
plan_remote_command (relay_set_mode mode) stations selected volume =
    if str_eq mode "via_pc"
    then ok start_relay
    else err (failed "capability_not_supported" "Relay mode is not supported by this player")

-- ===== src/Remote.antt =====
-- The commands of device control as the user interface carries them out: src/app/actions/playback.rs, and the ends
-- of such commands in src/app/actions/poll/playback.rs and src/app/actions/poll/devices.rs.
pub mod Plan
pub mod Controls
pub mod Carry
pub mod Answered
pub mod History
pub mod Placed
pub mod Delivered
mod Tests
use Prim.Native.String.{String}
use rockcast.Prelude.{
  ℕ, zero, suc, Bool, true, false, not, ◌&&◌, Option, none, some, List, [], ◌∷◌, ◌==◌,
  if◌then◌else◌,
}
use rockcast.DeviceControl.Protocol.{DeviceCommand, CommandResult, failed, ChromecastReceiver}
use rockcast.DeviceControl.Book.{CommandBook, take_command, complete}
use rockcast.DeviceControl.Receivers.{CachedReceiver}
use rockcast.DeviceControl.Receivers
use rockcast.Prelude.Results.{Result, err, ok}
use rockcast.Playback.{PlaybackController}
use rockcast.Remote.Plan.{RemoteCommandPlan, plan_remote_command, cannot_apply}
use rockcast.Remote.Controls.{
  Player, CastDevice, RemoteOutput, on_local, via_relay, Reply, answered, started, discovering,
  succeeded, Moment,
}
use rockcast.Remote.Carry.{carry_out, take_output}

pub record PendingRemoteCommand : Type 0 where
  pub id : ℕ
  pub generation : ℕ
  pub output : Option RemoteOutput

-- The fields of the application that hold commands that are not answered.
pub record Desk : Type 0 where
  pub book : CommandBook
  pub pending_command : Option PendingRemoteCommand
  pub pending_discovery : Option ℕ

pub record App : Type 0 where
  pub desk : Desk
  pub player : Player

pub settle_command : ℕ → CommandResult → Desk → Desk
settle_command id result d = record d { book = complete id result d.book }

abbrev pub interruption : CommandResult
interruption = failed "command_timeout" "Command was interrupted"

-- `replace`: the command that waited before is interrupted.
pub track : ℕ → ℕ → Option RemoteOutput → Desk → Desk
track id generation output d =
    let waiting : Desk = record d {
      pending_command = some (record { id = id; generation = generation; output = output });
    } in
    elim d.pending_command [
      | none ↦ waiting
      | some previous ↦ settle_command previous.id interruption waiting
    ]

pub discover_chromecasts : ℕ → Bool → Desk → Desk
discover_chromecasts id spawned d = elim d.pending_discovery [
  | some other ↦
      settle_command id (failed "command_timeout" "Chromecast discovery is already running") d
  | none ↦
      if spawned
      then record d { pending_discovery = some id }
      else settle_command id (failed "command_timeout" "Chromecast discovery could not start")
          (record d { pending_discovery = none })
]

-- The end of a round: the command is answered, or waits for the playback or the scan that it has started.
pub conclude : ℕ → Bool → Reply → Desk → Desk
conclude id spawned (answered result) d = settle_command id result d
conclude id spawned (started none output) d = settle_command id cannot_apply d
conclude id spawned (started (some generation) output) d = track id generation output d
conclude id spawned discovering d = discover_chromecasts id spawned d

pub handle : Moment → DeviceCommand → App → App
handle m command a =
    elim (plan_remote_command command.command a.player.stations a.player.selected_station
      a.player.volume) [
        | err result ↦ record a { desk = settle_command command.id result a.desk }
        | ok plan ↦
            let done = carry_out m plan a.player in
            record { desk = conclude command.id m.spawned done.1 a.desk; player = done.0 }
      ]

-- `for _ in 0..n`; the `n`-th round from the end finds the world at `moments n`.
pub poll_rounds : ℕ → (ℕ → Moment) → App → App
poll_rounds zero moments a = a
poll_rounds (suc n) moments a =
    let next = take_command a.desk.book in
    elim next.1 [
      | none ↦ a
      | some command ↦
          poll_rounds n moments
            (handle (moments n) command (record a { desk = record a.desk { book = next.0 } }))
    ]

abbrev pub max_remote_commands_per_frame : ℕ
max_remote_commands_per_frame = 16

pub has_queued_commands : CommandBook → Bool
has_queued_commands b = elim b.queued [ [] ↦ false | _ ∷ _ ↦ true ]

pub poll_device_control_commands : (ℕ → Moment) → App → App × Bool
poll_device_control_commands moments a =
    let after = poll_rounds max_remote_commands_per_frame moments a in
    (after, has_queued_commands after.desk.book)

-- `finish_remote_command`
pub finish_remote_command : ℕ → Bool → App → App
finish_remote_command generation ended_well a = elim a.desk.pending_command [
  | none ↦ a
  | some p ↦ if not (p.generation == generation) then a else record {
    desk =
        settle_command p.id
          (if ended_well
            then succeeded
            else failed "command_timeout" "Playback failed or was interrupted")
          (record a.desk { pending_command = none });
    player = if ended_well then take_output p.output a.player else a.player;
  }
]

-- `current` is the generation of the playback controller.
pub finish_stale_remote_command : App → App
finish_stale_remote_command a = elim a.desk.pending_command [
  | none ↦ a
  | some p ↦
      if not (p.generation == a.player.playback.generation)
      then record a {
        desk = settle_command p.id interruption (record a.desk { pending_command = none });
      }
      else a
]

-- The new entries of the cache and the receivers to report are `replace_at`'s.
pub handle_remote_chromecast_discovery :
    ℕ → Option (List (CachedReceiver CastDevice) × List ChromecastReceiver) → App → App
handle_remote_chromecast_discovery id found a = elim a.desk.pending_discovery [
  | none ↦ a
  | some waiting ↦ if not (waiting == id) then a else elim found [
    | none ↦ record a {
      desk =
          settle_command id (failed "command_timeout" "Chromecast discovery failed")
            (record a.desk { pending_discovery = none });
    }
    | some (receivers, reported) ↦ record {
      desk =
          settle_command id (record { error = none; output = some reported })
            (record a.desk { pending_discovery = none });
      player = record a.player { receivers = receivers };
    }
  ]
]

-- `filter` and `and_then` on the pending command.
pub pending_output : ℕ → Option PendingRemoteCommand → Option RemoteOutput
pending_output generation none = none
pending_output generation (some p) = if p.generation == generation then p.output else none

pub output_or : RemoteOutput → Option RemoteOutput → RemoteOutput
output_or other none = other
output_or other (some output) = output

pub confirm_playback_output : ℕ → Bool → App → App
confirm_playback_output generation local a =
    if local then record a { player = record a.player { output = on_local } } else record a {
      player = record a.player {
        output = output_or (via_relay none) (pending_output generation a.desk.pending_command);
      };
    }

-- ===== src/DeviceControl/Book.antt =====
-- `CommandBook` of src/device_control.rs and what is done to it under its lock: by the worker that
-- receives frames and sends results, and by the thread of the user interface that takes and completes commands. A
-- `HashMap` is the list of its entries.
pub mod Shape
pub mod Kept
pub mod Window
pub mod Flight
mod Tests
use rockcast.Prelude.{
  ℕ, ◌+◌, ◌≤◌, Bool, true, false, not, ◌&&◌, ◌||◌, Option, none, some, List, [], ◌∷◌, ◌++◌, length,
  ltb, leb, ◌==◌, if◌then◌else◌,
}
use rockcast.Prelude.Maps.{mem, lookup, insert, remove, keys}
use rockcast.DeviceControl.Protocol.{
  PlayerCommand, play, pause, stop, next, previous, play_station, play_stream, set_volume,
  change_volume, set_mute, chromecast_discover, chromecast_connect, chromecast_disconnect,
  relay_start, relay_stop, relay_set_mode, DeviceCommand, CommandResult, failed,
}

abbrev pub max_deduped_commands : ℕ
max_deduped_commands = 64

abbrev pub max_pending_commands : ℕ
max_pending_commands = 64

-- With a completed command's result, whether the result was delivered.
pub record CommandBook : Type 0 where
  pub queued : List DeviceCommand
  pub in_flight : List (ℕ × DeviceCommand)
  pub completed : List (ℕ × (CommandResult × Bool))
  pub completed_order : List ℕ

unfoldable pub new : CommandBook
new = record { queued = []; in_flight = []; completed = []; completed_order = [] }

abbrev pub ids : List DeviceCommand → List ℕ
ids [] = []
ids (c ∷ cs) = c.id ∷ ids cs

-- The loop that lets the oldest results go.
pub evict : List ℕ → List (ℕ × (CommandResult × Bool)) → List ℕ × List (ℕ × (CommandResult × Bool))
evict [] completed = ([], completed)
evict (oldest ∷ order) completed =
    let rest = evict order (remove oldest completed) in
    if ltb max_deduped_commands (length (oldest ∷ order)) then rest else (oldest ∷ order, completed)

pub complete : ℕ → CommandResult → CommandBook → CommandBook
complete id result b =
    if mem id (keys b.in_flight)
    then (let kept =
          evict (b.completed_order ++ (id ∷ [])) (insert id (result, false) b.completed) in
        record b {
          in_flight = remove id b.in_flight;
          completed = kept.1;
          completed_order = kept.0;
        })
    else b

pub take_command : CommandBook → CommandBook × Option DeviceCommand
take_command b = elim b.queued [
  | [] ↦ (b, none)
  | command ∷ rest ↦
      (record b { queued = rest; in_flight = insert command.id command b.in_flight }, some command)
]

-- What the worker does about a command that was read.
pub data Verdict : Type 0 where
  silent : Verdict
  resend : CommandResult → Verdict
  refused : CommandResult → Verdict
  accepted : Verdict

pub command_is_advertised : PlayerCommand → Bool
command_is_advertised play = true
command_is_advertised stop = true
command_is_advertised next = true
command_is_advertised previous = true
command_is_advertised (play_station id) = true
command_is_advertised (play_stream id station uri) = true
command_is_advertised (set_volume level) = true
command_is_advertised (change_volume delta) = true
command_is_advertised _ = false

pub admit : DeviceCommand → CommandBook → CommandBook × Verdict
admit command b =
    if leb max_pending_commands (length b.queued + length b.in_flight)
    then (b, refused (failed "command_timeout" "Device command queue is full"))
    else (record b { queued = b.queued ++ (command ∷ []) }, accepted)

pub recall : DeviceCommand → Option (CommandResult × Bool) → CommandBook → CommandBook × Verdict
recall command none b = admit command b
recall command (some (result, true)) b = (b, silent)
recall command (some (result, false)) b = (b, resend result)

-- `receive_command`, from a command that `command_from_frame` returned.
pub receive : DeviceCommand → CommandBook → CommandBook × Verdict
receive command b =
    if not (command_is_advertised command.command)
    then (b, refused (failed "capability_not_supported" "Command is not supported by this player"))
    else if mem command.id (keys b.in_flight) || mem command.id (ids b.queued)
    then (b, silent)
    else recall command (lookup command.id b.completed) b

-- `*delivered = true`, once the result is on its way: the lock was given back in between.
pub mark : Option (CommandResult × Bool) → ℕ → CommandBook → CommandBook
mark none id b = b
mark (some (result, delivered)) id b = record b { completed = insert id (result, true) b.completed }

pub mark_delivered : ℕ → CommandBook → CommandBook
mark_delivered id b = mark (lookup id b.completed) id b

-- The results that `send_pending_results` sends.
pub pending : List (ℕ × (CommandResult × Bool)) → List (ℕ × CommandResult)
pending [] = []
pending ((id, (result, delivered)) ∷ completed) =
    if not delivered then (id, result) ∷ pending completed else pending completed

-- One holding of the lock, by either thread.
pub data Turn : Type 0 where
  received : DeviceCommand → Turn
  taken : Turn
  ended : ℕ → CommandResult → Turn
  delivered : ℕ → Turn

pub turn : Turn → CommandBook → CommandBook
turn (received command) b = (receive command b).0
turn taken b = (take_command b).0
turn (ended id result) b = complete id result b
turn (delivered id) b = mark_delivered id b

pub run : List Turn → CommandBook → CommandBook
run [] b = b
run (t ∷ turns) b = run turns (turn t b)

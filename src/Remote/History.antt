-- ===== src/Remote/History.antt =====
-- Any run of the user interface in src/app/actions/poll.rs and of the worker of device control, seen from the commands.
use rockcast.Prelude.{ℕ, Bool, Option, List, [], ◌∷◌}
use rockcast.DeviceControl.Protocol.{DeviceCommand, ChromecastReceiver}
use rockcast.DeviceControl.Receivers.{CachedReceiver}
use rockcast.DeviceControl.Book.{receive, mark_delivered}
use rockcast.DeviceControl.Book.Flight.{in_flight-receive, in_flight-mark}
use rockcast.Remote.Controls.{Player, CastDevice, Moment}
use rockcast.Remote.{
  App, poll_device_control_commands, max_remote_commands_per_frame, finish_remote_command,
  finish_stale_remote_command, handle_remote_chromecast_discovery,
}
use rockcast.Remote.Answered.{
  Accounted, poll_rounds-Accounted, finish-Accounted, stale-Accounted, scanned-Accounted,
  same_flight,
}

-- What may happen to the desk: a frame of the user interface, the end of a playback, a stale event, the end of a
-- scan, what the worker does to the book of commands, and whatever else changes the player.
pub data Happening : Type 0 where
  frame : (ℕ → Moment) → Happening
  playback_ended : ℕ → Bool → Happening
  stale_event : Happening
  scanned : ℕ → Option (List (CachedReceiver CastDevice) × List ChromecastReceiver) → Happening
  command_came : DeviceCommand → Happening
  result_sent : ℕ → Happening
  player_changed : Player → Happening

pub happen : Happening → App → App
happen (frame moments) a = (poll_device_control_commands moments a).0
happen (playback_ended generation ended_well) a = finish_remote_command generation ended_well a
happen stale_event a = finish_stale_remote_command a
happen (scanned id found) a = handle_remote_chromecast_discovery id found a
happen (command_came command) a = record a {
  desk = record a.desk { book = (receive command a.desk.book).0 };
}
happen (result_sent id) a = record a {
  desk = record a.desk { book = mark_delivered id a.desk.book };
}
happen (player_changed player) a = record a { player = player }

pub history : List Happening → App → App
history [] a = a
history (x ∷ xs) a = history xs (happen x a)

happen-Accounted : (x : Happening) (a : App) → Accounted a.desk → Accounted (happen x a).desk
unfolding happen poll_device_control_commands
happen-Accounted (frame moments) a h =
    poll_rounds-Accounted max_remote_commands_per_frame moments a h
happen-Accounted (playback_ended generation ended_well) a h =
    finish-Accounted generation ended_well a h
happen-Accounted stale_event a h = stale-Accounted a h
happen-Accounted (scanned id found) a h = scanned-Accounted id found a h
happen-Accounted (command_came command) a h =
    same_flight a.desk (receive command a.desk.book).0 (in_flight-receive command a.desk.book) h
happen-Accounted (result_sent id) a h =
    same_flight a.desk (mark_delivered id a.desk.book) (in_flight-mark id a.desk.book) h
happen-Accounted (player_changed player) a h = h

-- If every command that is taken and not answered is the one that waits for a playback or the one that waits for a
-- scan, then that is so after any frames, ends of playbacks, stale events, ends of scans, received commands and
-- sent results, in any order, and whatever else changes the player in between.
pub history-Accounted :
    (xs : List Happening) (a : App) → Accounted a.desk → Accounted (history xs a).desk
unfolding history
history-Accounted [] a h = h
history-Accounted (x ∷ xs) a h = history-Accounted xs (happen x a) (happen-Accounted x a h)

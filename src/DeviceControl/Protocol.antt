-- ===== src/DeviceControl/Protocol.antt =====
-- The commands and results of src/device_control/protocol.rs, and the checks on a command that comes in.
-- Lengths are those of Rust: `len` counts bytes, `count` characters. Uuids are numbers.
pub mod Safety
mod Tests
use Prim.Native.String.{String, len, count}
use text.Mathlib.Text.{◌==◌ as str_eq}
use rockcast.Prelude.{
  ℕ, ◌+◌, ◌*◌, ◌^◌, ◌%◌, min, Bool, true, false, not, ◌&&◌, ◌||◌, Option, none, some, List, [], ◌∷◌,
  ltb, leb, ◌==◌, if◌then◌else◌,
}
use Prim.Native.Char.{Char, code}
use rockcast.Prelude.Texts.{
  is_blank, all_chars, is_ascii_lowercase, is_ascii_digit, starts_lowercase,
}
use rockcast.Prelude.Results.{Result, err, ok}

pub data ℤ : Type 0 where
  pos : ℕ → ℤ
  negsuc : ℕ → ℤ

pub record StationPresentation : Type 0 where
  pub name : String
  pub icon_url : Option String

pub data PlayerCommand : Type 0 where
  play : PlayerCommand
  pause : PlayerCommand
  stop : PlayerCommand
  next : PlayerCommand
  previous : PlayerCommand
  play_station : String → PlayerCommand
  play_stream : String → Option StationPresentation → String → PlayerCommand
  set_volume : ℕ → PlayerCommand
  change_volume : ℤ → PlayerCommand
  set_mute : Bool → PlayerCommand
  chromecast_discover : PlayerCommand
  chromecast_connect : ℕ → PlayerCommand
  chromecast_disconnect : PlayerCommand
  relay_start : PlayerCommand
  relay_stop : PlayerCommand
  relay_set_mode : String → PlayerCommand

pub data StationSource : Type 0 where
  rockserver_catalog : StationSource
  direct_stream : StationSource

-- What serde made of the `body` of a frame: `u8` and `i8` numbers are in their ranges already.
pub data CommandBody : Type 0 where
  play_body : CommandBody
  pause_body : CommandBody
  stop_body : CommandBody
  next_body : CommandBody
  previous_body : CommandBody
  play_station_body : String → CommandBody
  play_stream_body :
      StationSource → Option String → Option StationPresentation → String → CommandBody
  set_volume_body : ℕ → CommandBody
  change_volume_body : ℤ → CommandBody
  set_mute_body : Bool → CommandBody
  discover_body : CommandBody
  connect_body : ℕ → CommandBody
  disconnect_body : CommandBody
  relay_start_body : CommandBody
  relay_stop_body : CommandBody
  relay_set_mode_body : String → CommandBody

pub record DeviceCommand : Type 0 where
  pub id : ℕ
  pub command : PlayerCommand

pub record CommandFailure : Type 0 where
  pub code : String
  pub message : String

pub record ChromecastReceiver : Type 0 where
  pub receiver_id : ℕ
  pub display_name : String
  pub discovered_at : String
  pub expires_at : String

pub record CommandResult : Type 0 where
  pub error : Option CommandFailure
  pub output : Option (List ChromecastReceiver)

abbrev pub failed : String → String → CommandResult
failed code message = record {
  error = some (record { code = code; message = message });
  output = none;
}

pub data ControlError : Type 0 where
  unavailable : ControlError
  authentication : ControlError
  protocol : ControlError

pub presentation_is_valid : StationPresentation → Bool
presentation_is_valid s =
    not (is_blank s.name)
    && (leb (count s.name) 128
        && elim s.icon_url [ none ↦ true | some icon_url ↦ leb (count icon_url) 2048 ])

pub is_mode_char : Char → Bool
is_mode_char c = is_ascii_lowercase c || (is_ascii_digit c || code c == 0x5f)

-- The bytes of a character beyond ASCII are no mode bytes either.
pub valid_mode : String → Bool
valid_mode mode =
    not (len mode == 0)
    && (leb (len mode) 32 && (starts_lowercase mode && all_chars is_mode_char mode))

pub short_id : String → Bool
short_id id = not (len id == 0) && leb (len id) 128

pub in_volume_step : ℤ → Bool
in_volume_step (pos n) = not (n == 0) && leb n 100
in_volume_step (negsuc n) = leb (n + 1) 100

pub invalid_station : Option StationPresentation → Bool
invalid_station none = false
invalid_station (some s) = not (presentation_is_valid s)

pub stream_command : String → Option StationPresentation → String → Option PlayerCommand
stream_command station_id station stream_uri =
    if not (short_id station_id)
    then none
    else if invalid_station station
    then none
    else if not (len stream_uri == 0) && leb (len stream_uri) 2048
    then some (play_stream station_id station stream_uri)
    else none

pub command_from_body : CommandBody → Option PlayerCommand
command_from_body play_body = some play
command_from_body pause_body = some pause
command_from_body stop_body = some stop
command_from_body next_body = some next
command_from_body previous_body = some previous
command_from_body (play_station_body id) = if short_id id then some (play_station id) else none
command_from_body (play_stream_body rockserver_catalog none station uri) = none
command_from_body (play_stream_body rockserver_catalog (some id) station uri) =
    stream_command id station uri
command_from_body (play_stream_body direct_stream id station uri) = none
command_from_body (set_volume_body level) = if leb level 100 then some (set_volume level) else none
command_from_body (change_volume_body delta) =
    if in_volume_step delta then some (change_volume delta) else none
command_from_body (set_mute_body muted) = some (set_mute muted)
command_from_body discover_body = some chromecast_discover
command_from_body (connect_body receiver) = some (chromecast_connect receiver)
command_from_body disconnect_body = some chromecast_disconnect
command_from_body relay_start_body = some relay_start
command_from_body relay_stop_body = some relay_stop
command_from_body (relay_set_mode_body mode) =
    if valid_mode mode then some (relay_set_mode mode) else none

-- The strict reading of a frame, `CommandEnvelope`.
pub record CommandEnvelope : Type 0 where
  pub protocol_version : ℕ
  pub kind : String
  pub sent_at : String
  pub command_id : ℕ
  pub device_id : ℕ
  pub deadline_at : Option String
  pub body : CommandBody

-- A frame: its size, what serde reads of the command's id and name by themselves, and what it reads of
-- the whole, if it does.
pub record Frame : Type 0 where
  pub size : ℕ
  pub id_probe : Option ℕ
  pub name_probe : Option String
  pub envelope : Option CommandEnvelope

pub record CommandReject : Type 0 where
  pub command_id : Option ℕ
  pub code : String

abbrev pub max_frame_bytes : ℕ
max_frame_bytes = 65536

abbrev pub command_names : List String
command_names =
    "playback.play" ∷ "playback.pause" ∷ "playback.stop" ∷ "playback.next" ∷ "playback.previous"
    ∷ "station.play_station" ∷ "station.play_stream" ∷ "volume.set_volume" ∷ "volume.change_volume"
    ∷ "volume.set_mute" ∷ "chromecast.discover" ∷ "chromecast.connect" ∷ "chromecast.disconnect"
    ∷ "relay.start" ∷ "relay.stop" ∷ "relay.set_mode" ∷ []

pub is_one_of : String → List String → Bool
is_one_of name [] = false
is_one_of name (known ∷ rest) = str_eq name known || is_one_of name rest

pub known_command_name : String → Bool
known_command_name name = is_one_of name command_names

pub is_unsupported : Option String → Bool
is_unsupported none = false
is_unsupported (some name) = not (known_command_name name)

pub is_direct_stream : CommandBody → Bool
is_direct_stream (play_stream_body direct_stream id station uri) = true
is_direct_stream _ = false

pub is_target : Option ℕ → ℕ → Bool
is_target none device = false
is_target (some id) device = id == device

-- `is_rfc3339` is the time crate's parser, as a test.
module _ (is_rfc3339 : String → Bool) where
  pub is_bad_deadline : Option String → Bool
  is_bad_deadline none = false
  is_bad_deadline (some deadline) = not (is_rfc3339 deadline)

  pub command_from_envelope : CommandEnvelope → Option ℕ → Result CommandReject DeviceCommand
  command_from_envelope env authenticated =
      if not (env.protocol_version == 1)
        || (not (str_eq env.kind "device.command") || not (is_rfc3339 env.sent_at))
      then err (record { command_id = none; code = "invalid_message" })
      else if is_bad_deadline env.deadline_at || not (is_target authenticated env.device_id)
      then err (record { command_id = some env.command_id; code = "invalid_payload" })
      else if is_direct_stream env.body
      then err (record { command_id = some env.command_id; code = "unsupported_command" })
      else elim (command_from_body env.body) [
        | none ↦ err (record { command_id = some env.command_id; code = "invalid_payload" })
        | some command ↦ ok (record { id = env.command_id; command = command })
      ]

  pub command_from_frame : Frame → Option ℕ → Result CommandReject DeviceCommand
  command_from_frame frame authenticated =
      if ltb max_frame_bytes frame.size
      then err (record { command_id = none; code = "frame_too_large" })
      else elim frame.envelope [
        | none ↦ err (record {
          command_id = frame.id_probe;
          code =
              if is_unsupported frame.name_probe then "unsupported_command" else "invalid_payload";
        })
        | some env ↦ command_from_envelope env authenticated
      ]

-- Milliseconds. `1 << attempt.min(5)`.
unfoldable pub backoff : ℕ → ℕ
backoff attempt =
    let seconds = 2 ^ min attempt 5 in min (min (seconds * 1000) 30000 + attempt % 4 * 137) 30000

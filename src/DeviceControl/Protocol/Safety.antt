-- ===== src/DeviceControl/Protocol/Safety.antt =====
-- What a command that src/device_control/protocol.rs accepts may hold.
use mathlib.Core.Path.{subst}
use Prim.Native.String.{String, len, count}
use rockcast.Prelude.{
  ℕ, zero, suc, ◌+◌, ◌≤◌, ◌<◌, Bool, true, false, not, ◌&&◌, ◌||◌, Option, none, some, leb, ◌==◌,
  if◌then◌else◌, ◌≡◌, refl, ap, inl, inr, Bool-cases, Option-cases, arith,
}
use rockcast.Prelude.Texts.{
  is_blank, all_chars, is_ascii_lowercase, is_ascii_digit, starts_lowercase,
}
use Prim.Native.Char.{code}
use rockcast.Prelude.Results.{ok}
use rockcast.DeviceControl.Protocol.{
  ℤ, pos, negsuc, StationPresentation, PlayerCommand, play_station, play_stream, set_volume,
  change_volume, relay_set_mode, rockserver_catalog, direct_stream, CommandBody, play_body,
  pause_body, stop_body, next_body, previous_body, play_station_body, play_stream_body,
  set_volume_body, change_volume_body, set_mute_body, discover_body, connect_body, disconnect_body,
  relay_start_body, relay_stop_body, relay_set_mode_body, DeviceCommand, presentation_is_valid,
  valid_mode, is_mode_char, short_id, in_volume_step, invalid_station, stream_command,
  command_from_body, CommandEnvelope, Frame, max_frame_bytes, is_direct_stream, is_target,
  command_from_envelope, command_from_frame, backoff,
}

abbrev IsShort : ℕ → String → Type 0
IsShort most s = (0 < len s) × (len s ≤ most)

abbrev IsAtMost : ℕ → Option String → Type 0
IsAtMost most none = Unit
IsAtMost most (some s) = count s ≤ most

abbrev IsPresentable : Option StationPresentation → Type 0
IsPresentable none = Unit
IsPresentable (some s) = (is_blank s.name ≡ false) × (count s.name ≤ 128) × IsAtMost 2048 s.icon_url

-- A small letter first, and no characters but small letters, digits and underscores.
abbrev IsMode : String → Type 0
IsMode mode =
    (starts_lowercase mode ≡ true)
    × (all_chars (λ c. is_ascii_lowercase c || (is_ascii_digit c || code c == 0x5f)) mode ≡ true)

-- The bounds that the protocol states for a command.
abbrev pub IsSafe : PlayerCommand → Type 0
IsSafe (play_station id) = IsShort 128 id
IsSafe (play_stream id station uri) = IsShort 128 id × IsPresentable station × IsShort 2048 uri
IsSafe (set_volume level) = level ≤ 100
IsSafe (change_volume (pos n)) = (0 < n) × (n ≤ 100)
IsSafe (change_volume (negsuc n)) = n + 1 ≤ 100
IsSafe (relay_set_mode mode) = IsShort 32 mode × IsMode mode
IsSafe _ = Unit

IsAtMost-valid :
    (o : Option String)
    → elim o as (λ _. Bool) [ none ↦ true | some icon_url ↦ leb (count icon_url) 2048 ] ≡ true
    → IsAtMost 2048 o
IsAtMost-valid none h = tt
IsAtMost-valid (some s) h = ground arith

IsPresentable-valid : (o : Option StationPresentation) → invalid_station o ≡ false → IsPresentable o
unfolding invalid_station presentation_is_valid
IsPresentable-valid none h = tt
IsPresentable-valid (some s) h =
    (ground arith, ground arith, IsAtMost-valid s.icon_url (ground arith))

abbrev IsAllowed : Option PlayerCommand → Type 0
IsAllowed none = Unit
IsAllowed (some c) = IsSafe c

if-IsAllowed :
    (b : Bool) (c : PlayerCommand) → (b ≡ true → IsSafe c) → IsAllowed (if b then some c else none)
if-IsAllowed true c h = h refl
if-IsAllowed false c h = tt

short_id-IsShort : (id : String) → short_id id ≡ true → IsShort 128 id
unfolding short_id
short_id-IsShort id h = ground arith

stream_command-IsAllowed :
    (id : String) (station : Option StationPresentation) (uri : String)
    → IsAllowed (stream_command id station uri)
unfolding stream_command
stream_command-IsAllowed id station uri = elim (Bool-cases (short_id id)) [
  | inr long ↦ rw long tt
  | inl short ↦ elim (Bool-cases (invalid_station station)) [
    | inl bad ↦ rw (short, bad) tt
    | inr good ↦
        rw (short, good)
          (if-IsAllowed (not (len uri == 0) && leb (len uri) 2048) (play_stream id station uri)
            (λ u. (short_id-IsShort id short, IsPresentable-valid station good, ground arith)))
  ]
]

in_volume_step-IsSafe : (delta : ℤ) → in_volume_step delta ≡ true → IsSafe (change_volume delta)
unfolding in_volume_step
in_volume_step-IsSafe (pos n) h = ground arith
in_volume_step-IsSafe (negsuc n) h = ground arith

valid_mode-IsSafe : (mode : String) → valid_mode mode ≡ true → IsSafe (relay_set_mode mode)
unfolding valid_mode is_mode_char
valid_mode-IsSafe mode h = ((ground arith, ground arith), (ground arith, ground arith))

command_from_body-IsAllowed : (b : CommandBody) → IsAllowed (command_from_body b)
unfolding command_from_body
command_from_body-IsAllowed play_body = tt
command_from_body-IsAllowed pause_body = tt
command_from_body-IsAllowed stop_body = tt
command_from_body-IsAllowed next_body = tt
command_from_body-IsAllowed previous_body = tt
command_from_body-IsAllowed (play_station_body id) =
    if-IsAllowed (short_id id) (play_station id) (short_id-IsShort id)
command_from_body-IsAllowed (play_stream_body rockserver_catalog none station uri) = tt
command_from_body-IsAllowed (play_stream_body rockserver_catalog (some id) station uri) =
    stream_command-IsAllowed id station uri
command_from_body-IsAllowed (play_stream_body direct_stream id station uri) = tt
command_from_body-IsAllowed (set_volume_body level) =
    if-IsAllowed (leb level 100) (set_volume level) (λ h. ground arith)
command_from_body-IsAllowed (change_volume_body delta) =
    if-IsAllowed (in_volume_step delta) (change_volume delta) (in_volume_step-IsSafe delta)
command_from_body-IsAllowed (set_mute_body muted) = tt
command_from_body-IsAllowed discover_body = tt
command_from_body-IsAllowed (connect_body receiver) = tt
command_from_body-IsAllowed disconnect_body = tt
command_from_body-IsAllowed relay_start_body = tt
command_from_body-IsAllowed relay_stop_body = tt
command_from_body-IsAllowed (relay_set_mode_body mode) =
    if-IsAllowed (valid_mode mode) (relay_set_mode mode) (valid_mode-IsSafe mode)

-- What the frame of an accepted command says.
pub record Accepted (frame : Frame) (authenticated : Option ℕ) (command : DeviceCommand)
    : Type 0 where
  pub envelope : CommandEnvelope
  pub read : frame.envelope ≡ some envelope
  pub size : frame.size ≤ max_frame_bytes
  pub target : authenticated ≡ some envelope.device_id
  pub id : command.id ≡ envelope.command_id
  pub is_safe : IsSafe command.command
  pub no_direct_stream : is_direct_stream envelope.body ≡ false

is_target-eq : (o : Option ℕ) (device : ℕ) → is_target o device ≡ true → o ≡ some device
unfolding is_target
is_target-eq none device h = cc
is_target-eq (some id) device h = ap some (ground arith)

module _ (is_rfc3339 : String → Bool) where
  envelope_lem :
      (env : CommandEnvelope) (authenticated : Option ℕ) (command : DeviceCommand)
      → command_from_envelope is_rfc3339 env authenticated ≡ ok command
      → (is_target authenticated env.device_id ≡ true)
        × (is_direct_stream env.body ≡ false)
        × (command_from_body env.body ≡ some command.command)
        × (command.id ≡ env.command_id)
  unfolding command_from_envelope
  envelope_lem env authenticated command h = elim (Option-cases (command_from_body env.body)) [
    | inl e ↦ absurd (ground arith)
    | inr (c, e) ↦ ground arith
  ]

  -- A frame yields a command only if it is at most 65,536 bytes, is addressed to the device that this
  -- connection was authenticated for, and is no direct stream. The command has the frame's id. A station's id has 1 to
  -- 128 bytes, an address 1 to 2,048 bytes, a name that is shown is not blank and has at most 128 characters and its icon's
  -- address at most 2,048, a relay mode has 1 to 32 bytes, the first a small letter and each a small letter, a digit
  -- or an underscore, the volume is at most 100 and a volume step is not 0 and at most 100 either way.
  pub command_from_frame-Accepted :
      (frame : Frame) (authenticated : Option ℕ) (command : DeviceCommand)
      → command_from_frame is_rfc3339 frame authenticated ≡ ok command
      → Accepted frame authenticated command
  unfolding command_from_frame
  command_from_frame-Accepted frame authenticated command h = elim (Option-cases frame.envelope) [
    | inl e ↦ absurd (ground arith)
    | inr (env, e) ↦
        let passed : command_from_envelope is_rfc3339 env authenticated ≡ ok command =
          ground arith in
        let facts = envelope_lem env authenticated command passed in
        record {
          envelope = env;
          read = e;
          size = ground arith;
          target = is_target-eq authenticated env.device_id facts.0;
          id = facts.3;
          is_safe = subst IsAllowed facts.2 (command_from_body-IsAllowed env.body);
          no_direct_stream = facts.1;
        }
  ]

-- The pause before a reconnection never falls with the failures, lies between 1 and 30 seconds, and is
-- 30 seconds from the sixth failure on.
pub backoff_bounds :
    (n : ℕ)
    → (1000 ≤ backoff n)
      × (backoff n ≤ 30000)
      × (backoff n ≤ backoff (n + 1))
      × (5 ≤ n → backoff n ≡ 30000)
unfolding backoff
backoff_bounds zero = ground arith
backoff_bounds (suc zero) = ground arith
backoff_bounds (suc (suc zero)) = ground arith
backoff_bounds (suc (suc (suc zero))) = ground arith
backoff_bounds (suc (suc (suc (suc zero)))) = ground arith
backoff_bounds (suc (suc (suc (suc (suc n))))) = ground arith

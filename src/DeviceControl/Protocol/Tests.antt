-- ===== src/DeviceControl/Protocol/Tests.antt =====
-- Frames read by src/device_control/protocol.rs.
use Prim.Native.String.{String, len}
use rockcast.Prelude.{ℕ, Bool, true, not, none, some, ◌==◌, ◌≡◌, refl}
use rockcast.Prelude.Results.{err, ok}
use rockcast.DeviceControl.Protocol.{
  pos, set_volume, direct_stream, play_stream_body, set_volume_body, change_volume_body,
  command_from_body, CommandBody, DeviceCommand, in_volume_step, Frame, known_command_name,
  is_one_of, is_unsupported, is_direct_stream, is_target, is_bad_deadline, command_from_envelope,
  command_from_frame,
}
use rockcast.DeviceControl.Protocol.Safety.{Accepted, command_from_frame-Accepted}

abbrev dated : String → Bool
dated s = not (len s == 0)

abbrev frame_of : ℕ → CommandBody → Frame
frame_of size body = record {
  size = size;
  id_probe = some 3;
  name_probe = some "volume.set_volume";
  envelope = some (record {
    protocol_version = 1;
    kind = "device.command";
    sent_at = "2026-01-01T00:00:00Z";
    command_id = 3;
    device_id = 8;
    deadline_at = none;
    body = body;
  });
}

abbrev louder : DeviceCommand
louder = record { id = 3; command = set_volume 40 }

accepts : command_from_frame dated (frame_of 300 (set_volume_body 40)) (some 8) ≡ ok louder
unfolding command_from_frame command_from_envelope is_target is_bad_deadline is_direct_stream
    command_from_body
accepts = refl

other_device :
    command_from_frame dated (frame_of 300 (set_volume_body 40)) (some 9)
    ≡ err (record { command_id = some 3; code = "invalid_payload" })
unfolding command_from_frame command_from_envelope is_target is_bad_deadline
other_device = refl

direct :
    command_from_frame dated
      (frame_of 300 (play_stream_body direct_stream none none "http://a"))
      (some 8)
    ≡ err (record { command_id = some 3; code = "unsupported_command" })
unfolding command_from_frame command_from_envelope is_target is_bad_deadline is_direct_stream
direct = refl

too_loud : command_from_body (set_volume_body 101) ≡ none
unfolding command_from_body
too_loud = refl

no_step : command_from_body (change_volume_body (pos 0)) ≡ none
unfolding command_from_body in_volume_step
no_step = refl

eject_is_unsupported : is_unsupported (some "playback.eject") ≡ true
unfolding is_unsupported known_command_name is_one_of
eject_is_unsupported = refl

command_from_frame-Accepted_example : Accepted (frame_of 300 (set_volume_body 40)) (some 8) louder
command_from_frame-Accepted_example =
    command_from_frame-Accepted dated (frame_of 300 (set_volume_body 40)) (some 8) louder accepts

-- ===== src/Remote/Delivered.antt =====
-- `station.play_stream` in src/app/actions/playback.rs: the station of the server, whatever the local catalogue holds.
use Prim.Native.String.{String}
use rockcast.Prelude.{
  ℕ, Bool, true, false, Option, none, some, List, [], ◌∷◌, ◌++◌, length, ◌==◌, ◌≡◌, refl, ap, inl,
  inr, Option-cases, arith,
}
use rockcast.Prelude.Bytes.{add64}
use rockcast.DeviceControl.Protocol.{StationPresentation}
use rockcast.Playback
use rockcast.Remote.Plan.{play_delivered}
use rockcast.Remote.Carry.{carry_out}
use rockcast.Remote.Controls.{
  Player, OutputDevice, cast_device, local_device, Moment, started, is_some, chosen,
  is_local_output, can_start_play, start_on, play_selected, select_and_play, place_delivered,
}
use rockcast.Remote.Placed.{DeliveredAt, place_delivered-DeliveredAt}

-- What is played on a cast device is not local, and what is played on another is.
pub OpenedAs : OutputDevice → Bool → Type 0
OpenedAs (cast_device d) local = local ≡ false
OpenedAs (local_device id) local = local ≡ true

is_local_output-OpenedAs : (device : OutputDevice) → OpenedAs device (is_local_output device)
unfolding OpenedAs is_local_output
is_local_output-OpenedAs (cast_device d) = refl
is_local_output-OpenedAs (local_device id) = refl

-- The player can start: a device is selected and there.
chosen_there :
    (devices : List OutputDevice) (selected : Option ℕ) (device : OutputDevice)
    → chosen devices selected ≡ some device
    → (is_some selected ≡ true) × ((length devices == 0) ≡ false)
unfolding chosen is_some
chosen_there devices none device e = absurd cc
chosen_there [] (some i) device e = absurd cc
chosen_there (d ∷ devices) (some i) device e = (refl, ground arith)

started_generation :
    (local : Bool) (submit : Option String) (c : Playback.PlaybackController)
    → (Playback.play local submit c).1 ≡ add64 c.generation 1
unfolding Playback.play
started_generation local submit c = elim (Option-cases submit) [
  | inl taken ↦ rw (Playback.play, taken) refl
  | inr (message, refused) ↦ rw (Playback.play, refused) refl
]

-- What a player does with a play_stream command that it plays on this device.
pub record PlayedOn (m : Moment) (id : String) (shown : Option StationPresentation) (uri : String)
    (p q : Player) (device : OutputDevice) : Type 0 where
  pub index : ℕ
  pub delivered : DeliveredAt id shown uri p.stations q.stations index
  pub is_selected : q.selected_station ≡ some index
  pub bound : q.playback_station_id ≡ some id
  pub called :
      q.calls
      ≡ p.calls ++ (record { station = delivered.station; device = device; volume = p.volume } ∷ [])
  pub opened : OpenedAs device q.playing_local
  pub controller : q.playback ≡ (Playback.play q.playing_local m.submit p.playback).0
  pub same_device : q.selected_device ≡ p.selected_device

-- A play_stream command is played on the selected device, if there is one and the program is not shutting down. The
-- list of stations then holds at the selected place the station with the command's id, with its address as its own and
-- its primary stream's, and with its name if it has one, and elsewhere what it held. Playback is called once, with that
-- station, the selected device and the volume, as local output if and only if the device is no cast device,
-- and is bound to that id; and the command waits for the generation that is started.
pub carry_out-DeliveredAt :
    (m : Moment) (id : String) (shown : Option StationPresentation) (uri : String) (p : Player)
    (device : OutputDevice)
    → p.shutting_down ≡ false
    → chosen p.devices p.selected_device ≡ some device
    → PlayedOn m id shown uri p (carry_out m (play_delivered id shown uri) p).0 device
      × ((carry_out m (play_delivered id shown uri) p).1
          ≡ started (some (add64 p.playback.generation 1)) none)
unfolding carry_out select_and_play play_selected start_on chosen can_start_play is_some
carry_out-DeliveredAt m id shown uri p device running there =
    let i : ℕ = (place_delivered id shown uri p.stations).1 in
    let d : DeliveredAt id shown uri p.stations (place_delivered id shown uri p.stations).0 i =
      place_delivered-DeliveredAt id shown uri p.stations in
    let (selected, some_device) = chosen_there p.devices p.selected_device device there in
    let q : Player = record p {
      stations = (place_delivered id shown uri p.stations).0;
      selected_station = some i;
      voice_fallback = [];
    } in
    let able : can_start_play q ≡ true = ground (arith, running, selected, some_device) in
    let began : play_selected m.submit q ≡ start_on m.submit d.station device q =
      rw (play_selected, able, d.here, there) refl in
    rw (carry_out, began, started_generation (is_local_output device) m.submit p.playback)
      (
        record {
          index = i;
          delivered = d;
          is_selected = refl;
          bound = ap some d.same_id;
          called = refl;
          opened = is_local_output-OpenedAs device;
          controller = refl;
          same_device = refl;
        },
        refl,
      )

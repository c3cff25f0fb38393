-- ===== src/Remote/Tests.antt =====
-- Commands carried out by a player with two stations.
use rockcast.Prelude.{true, false, none, some, List, [], ◌∷◌, ◌≡◌, refl}
use rockcast.Prelude.Bytes.{add64}
use rockcast.DeviceControl.Protocol.{StationPresentation, play_station, next, stop}
use rockcast.DeviceControl.Book
use rockcast.Playback
use rockcast.Stations.Catalog.{Station}
use rockcast.Stations.Codec.{from_primary}
use rockcast.Remote.Plan.{play_delivered}
use rockcast.Remote.Carry.{carry_out}
use rockcast.Remote.Controls.{Player, local_device, on_local, Moment, started, chosen}
use rockcast.Remote.{Desk}
use rockcast.Remote.Answered.{Accounted, fresh_Accounted}
use rockcast.Remote.History.{
  frame, command_came, playback_ended, stale_event, Happening, history, history-Accounted,
}
use rockcast.Remote.Delivered.{PlayedOn, carry_out-DeliveredAt}

abbrev one : Station
one = from_primary "one" "One" "https://one.test" "" "" 128 "mp3"

abbrev two : Station
two = from_primary "two" "Two" "https://two.test" "" "" 128 "mp3"

abbrev player : Player
player = record {
  playback = Playback.new;
  calls = [];
  stations = one ∷ two ∷ [];
  selected_station = none;
  devices = local_device "default" ∷ [];
  selected_device = some 0;
  loading_devices = false;
  shutting_down = false;
  volume = 50;
  output = on_local;
  receivers = [];
  playing_op = false;
  playing = false;
  playing_local = false;
  playing_url = none;
  playback_station_id = none;
  pending_voice_play = false;
  voice_fallback = [];
}

abbrev moment : Moment
moment = record { now = 100; relay_active = false; submit = none; spawned = true }

abbrev presentation : StationPresentation
presentation = record { name = "Two again"; icon_url = none }

abbrev desk : Desk
desk = record { book = Book.new; pending_command = none; pending_discovery = none }

abbrev commands : List Happening
commands =
    command_came (record { id = 7; command = play_station "two" })
    ∷ frame (λ n. moment)
    ∷ command_came (record { id = 8; command = next })
    ∷ command_came (record { id = 9; command = stop })
    ∷ frame (λ n. moment)
    ∷ stale_event
    ∷ playback_ended 2 true
    ∷ []

desk_empty : Book.new.in_flight ≡ []
unfolding Book.new
desk_empty = refl

history-Accounted_example :
    Accounted (history commands (record { desk = desk; player = player })).desk
history-Accounted_example =
    history-Accounted commands (record { desk = desk; player = player })
      (fresh_Accounted desk desk_empty)

device_there : chosen player.devices player.selected_device ≡ some (local_device "default")
unfolding chosen
device_there = refl

carry_out-DeliveredAt_example :
    PlayedOn moment "two"
      (some presentation)
      "https://proxy.test/two"
      player
      (carry_out moment
        (play_delivered "two" (some presentation) "https://proxy.test/two")
        player).0
      (local_device "default")
    × ((carry_out moment
          (play_delivered "two" (some presentation) "https://proxy.test/two")
          player).1
        ≡ started (some (add64 player.playback.generation 1)) none)
carry_out-DeliveredAt_example =
    carry_out-DeliveredAt moment "two" (some presentation) "https://proxy.test/two" player
      (local_device "default") refl device_there

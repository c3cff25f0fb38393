-- ===== src/Remote/Controls.antt =====
-- What the commands do to the player: `play`, `stop` and the branches of `poll_device_control_commands` in
-- src/app/actions/playback.rs. The texts on the screen, the icons, the settings file and the observers are left out.
use Prim.Native.String.{String}
use text.Mathlib.Text.{◌==◌ as str_eq}
use rockcast.Prelude.{
  ℕ, zero, suc, Bool, true, false, not, ◌&&◌, ◌||◌, Option, none, some, List, [], ◌∷◌, ◌++◌, length,
  get_elem?, ltb, ◌==◌, if◌then◌else◌,
}
use rockcast.Prelude.Sorting.{sort_by}
use rockcast.DeviceControl.Protocol.{StationPresentation, CommandResult}
use rockcast.DeviceControl.Receivers.{CachedReceiver}
use rockcast.Playback.{PlaybackController}
use rockcast.Playback
use rockcast.Stations.Catalog.{Station, StationStream}
use rockcast.Stations.Codec.{from_primary}
use rockcast.Remote.Plan.{position_of}

-- What the player reads of a cast device.
pub record CastDevice : Type 0 where
  pub host : String
  pub id : String

pub data OutputDevice : Type 0 where
  cast_device : CastDevice → OutputDevice
  local_device : String → OutputDevice

pub data RemoteOutput : Type 0 where
  on_local : RemoteOutput
  via_relay : Option ℕ → RemoteOutput

-- What `PlaybackController::play` is called with, and runs the work of Playback/Job.antt on; the switch of the
-- equaliser is left out.
pub record PlayCall : Type 0 where
  pub station : Station
  pub device : OutputDevice
  pub volume : ℕ

-- `calls`: the calls of `PlaybackController::play`, in their order.
pub record Player : Type 0 where
  pub playback : PlaybackController
  pub calls : List PlayCall
  pub stations : List Station
  pub selected_station : Option ℕ
  pub devices : List OutputDevice
  pub selected_device : Option ℕ
  pub loading_devices : Bool
  pub shutting_down : Bool
  pub volume : ℕ
  pub output : RemoteOutput
  pub receivers : List (CachedReceiver CastDevice)
  pub playing_op : Bool
  pub playing : Bool
  pub playing_local : Bool
  pub playing_url : Option String
  pub playback_station_id : Option String
  pub pending_voice_play : Bool
  pub voice_fallback : List Station

-- What a round finds in the world: the time, whether the relay serves a receiver, the runtime's answers when it is
-- given the work of the playback controller, and whether it takes a scan.
pub record Moment : Type 0 where
  pub now : ℕ
  pub relay_active : Bool
  pub submit : Option String
  pub spawned : Bool

pub data Reply : Type 0 where
  answered : CommandResult → Reply
  started : Option ℕ → Option RemoteOutput → Reply
  discovering : Reply

abbrev pub succeeded : CommandResult
succeeded = record { error = none; output = none }

unfoldable pub is_local_output : OutputDevice → Bool
is_local_output (cast_device d) = false
is_local_output (local_device id) = true

pub output_id : OutputDevice → String
output_id (cast_device d) = d.id
output_id (local_device id) = id

pub same_output_device : OutputDevice → OutputDevice → Bool
same_output_device (local_device a) (local_device b) = str_eq a b
same_output_device (cast_device a) (cast_device b) = str_eq a.host b.host
same_output_device a b = false

pub find_index {ℓ} : {A : Type ℓ} → (A → Bool) → List A → Option ℕ
find_index test [] = none
find_index test (x ∷ xs) =
    let rest = find_index test xs in
    if test x then some 0 else elim rest [ none ↦ none | some i ↦ some (suc i) ]

unfoldable pub update_at {ℓ} : {A : Type ℓ} → ℕ → (A → A) → List A → List A
update_at n f [] = []
update_at zero f (x ∷ xs) = f x ∷ xs
update_at (suc n) f (x ∷ xs) = x ∷ update_at n f xs

-- `index.and_then(|index| list.get(index))`
unfoldable pub chosen {ℓ} : {A : Type ℓ} → List A → Option ℕ → Option A
chosen xs none = none
chosen xs (some i) = get_elem? xs i

unfoldable pub is_some {ℓ} : {A : Type ℓ} → Option A → Bool
is_some none = false
is_some (some a) = true

unfoldable pub can_start_play : Player → Bool
can_start_play p =
    not p.shutting_down
    && (is_some p.selected_station
        && (is_some p.selected_device && (not p.loading_devices || not (length p.devices == 0))))

unfoldable pub start_on : Option String → Station → OutputDevice → Player → Player × Option ℕ
start_on submit station device p =
    let local = is_local_output device in
    let begun = Playback.play local submit p.playback in
    (
      record p {
        playback = begun.0;
        calls = p.calls ++ (record { station = station; device = device; volume = p.volume } ∷ []);
        playback_station_id = some station.id;
        playing_url = none;
        playing_op = true;
        playing = false;
        playing_local = local;
      },
      some begun.1,
    )

unfoldable pub play_selected : Option String → Player → Player × Option ℕ
play_selected submit p =
    if not (can_start_play p) then (p, none) else elim (chosen p.stations p.selected_station) [
      | none ↦ (p, none)
      | some station ↦ elim (chosen p.devices p.selected_device) [
        | none ↦ (p, none)
        | some device ↦ start_on submit station device p
      ]
    ]

pub stop_playing : Option String → Player → Player × Option ℕ
stop_playing submit p =
    if p.shutting_down
    then (p, none)
    else (let ended = Playback.stop submit p.playback in
        (
          record p {
            playback = ended.0;
            playing_op = true;
            pending_voice_play = false;
            voice_fallback = [];
            playing = false;
            playing_local = false;
            playing_url = none;
          },
          some ended.1,
        ))

unfoldable pub select_and_play : Option String → ℕ → Player → Player × Option ℕ
select_and_play submit index p =
    play_selected submit (record p { selected_station = some index; voice_fallback = [] })

-- `checked_add_signed(offset)`, for the offsets 1 and -1.
pub stepped : Bool → ℕ → Option ℕ
stepped true current = some (suc current)
stepped false zero = none
stepped false (suc current) = some current

pub play_remote_relative : Option String → Bool → Player → Player × Option ℕ
play_remote_relative submit forward p = elim p.selected_station [
  | none ↦ (p, none)
  | some current ↦ elim (stepped forward current) [
    | none ↦ (p, none)
    | some next ↦ if ltb next (length p.stations) then select_and_play submit next p else (p, none)
  ]
]

unfoldable pub name_or : String → Option StationPresentation → String
name_or other none = other
name_or other (some shown) = shown.name

pub icon_of : Option StationPresentation → Option String
icon_of none = none
icon_of (some shown) = shown.icon_url

unfoldable pub delivered_station : String → Option StationPresentation → String → Station
delivered_station id shown uri = record (from_primary id (name_or id shown) uri "" "" 0 "") {
  favicon_url = icon_of shown;
}

-- `iter_mut().find(|stream| stream.primary)`
unfoldable pub redirect_primary : String → List StationStream → List StationStream
redirect_primary uri [] = []
redirect_primary uri (s ∷ streams) =
    let rest = redirect_primary uri streams in
    if s.primary then record s { url = uri } ∷ streams else s ∷ rest

unfoldable pub redirected : Option StationPresentation → String → Station → Station
redirected shown uri s = record s {
  url = uri;
  name = name_or s.name shown;
  favicon_url = elim (icon_of shown) [ none ↦ s.favicon_url | some icon ↦ some icon ];
  streams = redirect_primary uri s.streams;
}

unfoldable pub place_delivered :
    String → Option StationPresentation → String → List Station → List Station × ℕ
place_delivered id shown uri stations = elim (position_of id stations) [
  | some i ↦ (update_at i (redirected shown uri) stations, i)
  | none ↦ (stations ++ (delivered_station id shown uri ∷ []), length stations)
]

-- `sort_by_key(|device| !device.is_local_output())`
pub local_first : OutputDevice → OutputDevice → Bool
local_first a b = is_local_output a || not (is_local_output b)

pub select_cast_device : CastDevice → Player → Player
select_cast_device d p =
    elim (find_index (λ (existing : OutputDevice). same_output_device existing (cast_device d))
      p.devices) [
        | some i ↦ record p {
          devices = update_at i (λ _. cast_device d) p.devices;
          selected_device = some i;
        }
        | none ↦
            let sorted = sort_by local_first (p.devices ++ (cast_device d ∷ [])) in
            record p {
              devices = sorted;
              selected_device =
                  find_index (λ (device : OutputDevice). str_eq (output_id device) d.id) sorted;
            }
      ]

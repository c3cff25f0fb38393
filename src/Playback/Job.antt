-- ===== src/Playback/Job.antt =====
-- What `play` and `stop` of src/playback/mod.rs run on the worker threads. A worker is a function of
-- what it observes, in the order in which it asks, and gives the calls that it makes and the events
-- that it sends.
pub mod Events
pub mod Run
pub mod Relay
mod Tests
use Prim.Native.String.{String}
use rockcast.Prelude.{
  ℕ, ◌*◌, Bool, true, false, not, ◌||◌, Option, none, some, List, [], ◌∷◌, ◌++◌, ◌==◌,
  if◌then◌else◌,
}
use rockcast.Prelude.Results.{Result, err, ok}
use rockcast.Playback.{PlaybackEvent, status, title, play_ok, stop_ok, error}

-- A test of the two cancellation flags and of the current generation.
pub record Gate : Type 0 where
  pub runtime_cancelled : Bool
  pub operation_cancelled : Bool
  pub generation : ℕ

pub is_closed : ℕ → Gate → Bool
is_closed g gate =
    gate.runtime_cancelled || (gate.operation_cancelled || not (gate.generation == g))

pub data Effect : Type 0 where
  stop_local : Effect
  stop_relay : Effect
  stop_cast : Effect
  -- With whether it succeeded.
  start_relay : Bool → Effect
  wait_for_pcm_format : Effect
  wait_for_data : ℕ → Effect
  play_cast : Effect
  play_local : Effect
  set_cast_volume : Effect
  emit : PlaybackEvent → Effect

-- What the players call back: a text, or that a local player has started; each with the generation that
-- is current then.
pub data Callback : Type 0 where
  on_status : String → ℕ → Callback
  on_started : ℕ → Callback

pub record CastWorld : Type 0 where
  pub before_start : Gate
  pub relay : Result String (String × String)
  pub data_ready : Bool
  pub wait_cancelled : Bool
  pub unavailable : String
  pub before_cast : Gate
  pub callbacks : List (String × ℕ)
  pub result : Result String Unit
  pub generation_after : ℕ
  pub tap_url : Option String

pub record LocalWorld : Type 0 where
  pub before_play : Gate
  pub callbacks : List Callback
  pub result : Result String Unit
  pub generation_after : ℕ

pub data OutputDevice : Type 0 where
  cast_device : CastWorld → OutputDevice
  local_device : LocalWorld → OutputDevice

pub record World : Type 0 where
  pub entry : Gate
  pub stream_url : Result String String
  pub headers : Result String Unit
  pub device : OutputDevice

-- `contains_wav` is the test `load_ct.contains("wav")`, `station_url` the station's.
module _ (contains_wav : String → Bool) (station_url : String) (g : ℕ) where
  pub cast_statuses : List (String × ℕ) → List Effect
  cast_statuses [] = []
  cast_statuses ((text, current) ∷ rest) =
      if current == g then emit (status text g) ∷ cast_statuses rest else cast_statuses rest

  pub cast_end : CastWorld → List Effect
  cast_end w = if not (w.generation_after == g) then [] else elim w.result [
    | ok done ↦ set_cast_volume ∷ emit (play_ok station_url w.tap_url g false) ∷ []
    | err message ↦ stop_relay ∷ emit (error message g) ∷ []
  ]

  pub cast_launch : CastWorld → List Effect
  cast_launch w =
      if is_closed g w.before_cast
      then stop_relay ∷ []
      else play_cast ∷ (cast_statuses w.callbacks ++ cast_end w)

  pub cast_buffer : String → CastWorld → List Effect
  cast_buffer load_ct w =
      let min_pcm = 48000 * 2 * 2 in
      let min_bytes = if contains_wav load_ct then min_pcm else 8 * 1024 in
      (if contains_wav load_ct then wait_for_pcm_format ∷ [] else [])
      ++ (wait_for_data min_bytes
          ∷ (if not w.data_ready
              then (if w.wait_cancelled
                  then stop_relay ∷ []
                  else emit (error w.unavailable g) ∷ stop_relay ∷ [])
              else cast_launch w))

  pub cast_part : CastWorld → List Effect
  cast_part w = if is_closed g w.before_start then [] else elim w.relay [
    | ok (load_url, load_ct) ↦ start_relay true ∷ cast_buffer load_ct w
    | err message ↦ start_relay false ∷ emit (error message g) ∷ []
  ]

  pub local_callbacks : String → List Callback → List Effect
  local_callbacks upstream [] = []
  local_callbacks upstream (on_status text current ∷ rest) =
      if current == g
      then emit (status text g) ∷ local_callbacks upstream rest
      else local_callbacks upstream rest
  local_callbacks upstream (on_started current ∷ rest) =
      if current == g
      then emit (play_ok station_url (some upstream) g true) ∷ local_callbacks upstream rest
      else local_callbacks upstream rest

  pub local_end : LocalWorld → List Effect
  local_end w =
      if not (w.generation_after == g)
      then []
      else elim w.result [ ok done ↦ [] | err message ↦ emit (error message g) ∷ [] ]

  pub local_part : String → LocalWorld → List Effect
  local_part upstream w =
      stop_cast
      ∷ (if is_closed g w.before_play
          then []
          else play_local ∷ (local_callbacks upstream w.callbacks ++ local_end w))

  pub device_part : String → OutputDevice → List Effect
  device_part upstream (cast_device w) = cast_part w
  device_part upstream (local_device w) = local_part upstream w

  pub play_job : World → List Effect
  play_job w =
      if is_closed g w.entry
      then []
      else stop_local ∷ stop_relay ∷ elim w.stream_url [
        | err message ↦ emit (error message g) ∷ []
        | ok upstream ↦ elim w.headers [
          | err message ↦ emit (error message g) ∷ []
          | ok done ↦ device_part upstream w.device
        ]
      ]

pub stop_job : ℕ → Result String Unit → List Effect
stop_job g result =
    stop_local
    ∷ stop_relay
    ∷ stop_cast
    ∷ elim result [ ok done ↦ emit (stop_ok g) ∷ [] | err message ↦ emit (error message g) ∷ [] ]

-- One turn of the loop that passes a local player's titles on: the test, and what came in.
pub data Heard : Type 0 where
  heard : String → ℕ → Heard
  timeout : Heard
  disconnected : Heard

pub title_job : ℕ → List (Gate × Heard) → List Effect
title_job g [] = []
title_job g ((gate, heard text current) ∷ turns) =
    if is_closed g gate
    then []
    else if current == g
    then emit (title text g) ∷ title_job g turns
    else title_job g turns
title_job g ((gate, timeout) ∷ turns) = if is_closed g gate then [] else title_job g turns
title_job g ((gate, disconnected) ∷ turns) = []

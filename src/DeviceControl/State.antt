-- ===== src/DeviceControl/State.antt =====
-- The state that src/device_control.rs publishes to RockServer: the slot with the latest value, the revisions,
-- and what a connection sends of them.
pub mod Sync
pub mod Steps
pub mod Latest
pub mod Resync
mod Tests
use Prim.Native.String.{String, len}
use text.Mathlib.Text.{◌==◌ as str_eq}
use rockcast.Prelude.{
  ℕ, ◌+◌, ◌-◌, ◌^◌, min, max, Bool, true, false, not, ◌&&◌, ◌||◌, Option, none, some, List, [], ◌∷◌,
  ltb, ◌==◌, if◌then◌else◌,
}
use rockcast.Prelude.Results.{Result, err, ok}
use rockcast.DeviceControl.Protocol.{ControlError, protocol}

pub record PlayerState : Type 0 where
  pub playback_status : String
  pub station_id : Option String
  pub track_title : Option String
  pub volume : ℕ
  pub output_mode : String
  pub receiver_id : Option String

abbrev pub idle_player : ℕ → PlayerState
idle_player volume = record {
  playback_status = "idle";
  station_id = none;
  track_title = none;
  volume = volume;
  output_mode = "local";
  receiver_id = none;
}

pub same_text : Option String → Option String → Bool
same_text none none = true
same_text (some a) (some b) = str_eq a b
same_text none (some b) = false
same_text (some a) none = false

pub same_state : PlayerState → PlayerState → Bool
same_state a b =
    str_eq a.playback_status b.playback_status
    && (same_text a.station_id b.station_id
        && (same_text a.track_title b.track_title
            && (a.volume == b.volume
                && (str_eq a.output_mode b.output_mode && same_text a.receiver_id b.receiver_id))))

pub record PublishedState : Type 0 where
  pub revision : ℕ
  pub observed_at : String
  pub state : PlayerState

-- The placeholder of `with_parts_and_wake`.
abbrev pub starting : ℕ → PublishedState
starting initial_revision = record {
  revision = initial_revision;
  observed_at = "";
  state = idle_player 0;
}

abbrev pub max_revision : ℕ
max_revision = 2 ^ 64 - 1

-- `saturating_add(1)` of a `u64`.
abbrev pub next_revision : ℕ → ℕ
next_revision n = min (n + 1) max_revision

-- `now` is what `timestamp()` returned.
pub advance_published_state :
    Option PublishedState → PlayerState → String → Option PublishedState × Option ℕ
advance_published_state none next now = (none, none)
advance_published_state (some current) next now =
    if same_state current.state next && not (len current.observed_at == 0)
    then (some current, none)
    else (let revision = max (next_revision current.revision) 1 in
        (some (record { revision = revision; observed_at = now; state = next }), some revision))

pub state_is_newer_than : Option PublishedState → ℕ → Bool
state_is_newer_than none sent_revision = false
state_is_newer_than (some current) sent_revision = ltb sent_revision current.revision

pub record StateSnapshot : Type 0 where
  pub state_revision : ℕ
  pub observed_at : String
  pub state : PlayerState

-- The snapshot that `send_full` hands to `send`.
pub send_full : Option PublishedState → ℕ → Result ControlError StateSnapshot
send_full none previous = err protocol
send_full (some current) previous =
    if current.revision == 0 || len current.observed_at == 0
    then err protocol
    else ok (record {
      state_revision = max current.revision (next_revision previous);
      observed_at = current.observed_at;
      state = current.state;
    })

-- A connection that is registered: the slot, the last revision sent, and what was sent, the newest first.
pub record Connection : Type 0 where
  pub slot : Option PublishedState
  pub sent_revision : ℕ
  pub sent : List StateSnapshot

-- What the user interface publishes between two iterations of the loop, and what the iterations do about the state.
-- `ticked` and `resynced` carry the socket's error, if it makes one.
pub data Event : Type 0 where
  published : PlayerState → String → Event
  ticked : Option ControlError → Event
  resynced : Option ControlError → Event

pub deliver : Connection → Option ControlError → StateSnapshot → Result ControlError Connection
deliver c (some e) snapshot = err e
deliver c none snapshot =
    ok (record { slot = c.slot; sent_revision = snapshot.state_revision; sent = snapshot ∷ c.sent })

pub push_full : Connection → Option ControlError → Result ControlError Connection
push_full c outcome = elim (send_full c.slot c.sent_revision) [
  | err e ↦ err e
  | ok snapshot ↦ deliver c outcome snapshot
]

pub step : Event → Connection → Result ControlError Connection
step (published state now) c = ok (record c { slot = (advance_published_state c.slot state now).0 })
step (ticked outcome) c =
    if state_is_newer_than c.slot c.sent_revision then push_full c outcome else ok c
step (resynced outcome) c = push_full c outcome

pub run : List Event → Connection → Result ControlError Connection
run [] c = ok c
run (e ∷ events) c = elim (step e c) [ err x ↦ err x | ok d ↦ run events d ]

-- After the registration: nothing was sent yet, and a full snapshot always is.
pub open_connection : Option PublishedState → Option ControlError → Result ControlError Connection
open_connection slot outcome =
    push_full (record { slot = slot; sent_revision = 0; sent = [] }) outcome

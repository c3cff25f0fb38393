-- ===== src/Playback.antt =====
-- `PlaybackController` of src/playback/mod.rs with the phases and events of src/playback/phase.rs:
-- what it does at once, on the thread of the user interface. Playback/Job.antt is what `play` and `stop` run on the worker threads,
-- and Playback/Machine.antt the two together.
pub mod Job
pub mod Machine
mod Tests
use Prim.Native.String.{String}
use rockcast.Prelude.{
  ℕ, Bool, true, false, Option, none, some, List, [], ◌∷◌, ◌++◌, ◌==◌, if◌then◌else◌,
}
use rockcast.Prelude.Bytes.{add64}

pub data PlaybackPhase : Type 0 where
  idle : PlaybackPhase
  opening : ℕ → Bool → PlaybackPhase
  playing : ℕ → Bool → PlaybackPhase
  stopping : ℕ → PlaybackPhase
  failed : ℕ → PlaybackPhase

-- The fields of the source's order; `generation` comes last but in `play_ok`.
pub data PlaybackEvent : Type 0 where
  status : String → ℕ → PlaybackEvent
  title : String → ℕ → PlaybackEvent
  play_ok : String → Option String → ℕ → Bool → PlaybackEvent
  stop_ok : ℕ → PlaybackEvent
  error : String → ℕ → PlaybackEvent

abbrev pub phase_generation : PlaybackPhase → Option ℕ
phase_generation idle = none
phase_generation (opening g local) = some g
phase_generation (playing g local) = some g
phase_generation (stopping g) = some g
phase_generation (failed g) = some g

abbrev pub event_generation : PlaybackEvent → ℕ
event_generation (status text g) = g
event_generation (title text g) = g
event_generation (play_ok url tap g local) = g
event_generation (stop_ok g) = g
event_generation (error message g) = g

-- `cancelled` is the flag `operation_cancel` that the controller holds now; `channel` what was sent to
-- `event_tx` and not yet received.
pub record PlaybackController : Type 0 where
  pub generation : ℕ
  pub phase : PlaybackPhase
  pub cancelled : Bool
  pub channel : List PlaybackEvent

pub new : PlaybackController
new = record { generation = 0; phase = idle; cancelled = true; channel = [] }

pub send : PlaybackEvent → PlaybackController → PlaybackController
send event c = record c { channel = c.channel ++ (event ∷ []) }

-- `submit` is the answer of `runtime.spawn`: an error's message, or none.
unfoldable pub play : Bool → Option String → PlaybackController → PlaybackController × ℕ
play local submit c =
    let generation = add64 c.generation 1 in
    let opened : PlaybackController = record c {
      generation = generation;
      cancelled = false;
      phase = opening generation local;
    } in
    elim submit [
      | none ↦ (opened, generation)
      | some message ↦ (
        send (error message generation) (record opened { phase = failed generation }),
        generation,
      )
    ]

pub stop : Option String → PlaybackController → PlaybackController × ℕ
stop submit c =
    let generation = add64 c.generation 1 in
    let stopped : PlaybackController = record c {
      generation = generation;
      cancelled = true;
      phase = stopping generation;
    } in
    elim submit [
      | none ↦ (stopped, generation)
      | some message ↦ (send (error message generation) stopped, generation)
    ]

-- The phase after an event of the current generation.
abbrev pub phase_after : PlaybackEvent → PlaybackPhase → PlaybackPhase
phase_after (title text g) phase = phase
phase_after (play_ok url tap g local) phase = playing g local
phase_after (stop_ok g) phase = idle
phase_after (error message g) phase = failed g
phase_after (status text g) phase = phase

pub apply_event : PlaybackEvent → PlaybackController → PlaybackController × Bool
apply_event event c =
    if event_generation event == c.generation
    then (record c { phase = phase_after event c.phase }, true)
    else (c, false)

-- `try_event`, and the event's application as the poll of the user interface does it.
pub poll : PlaybackController → PlaybackController
poll c = elim c.channel [
  | [] ↦ c
  | event ∷ rest ↦ (apply_event event (record c { channel = rest })).0
]

-- It also stops the players, the relay and the runtime.
pub shutdown : PlaybackController → PlaybackController
shutdown c = record c { generation = add64 c.generation 1; cancelled = true; phase = idle }

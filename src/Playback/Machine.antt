-- ===== src/Playback/Machine.antt =====
-- The controller of src/playback/mod.rs and its workers, interleaved in any order.
pub mod Invariant
use Prim.Native.String.{String}
use mathlib.Core.Path.{subst}
use rockcast.Prelude.{
  ℕ, ◌+◌, ◌≤◌, Bool, Option, none, some, List, [], ◌∷◌, ◌++◌, All, All-append, ◌==◌, ==_iff, ◌≡◌,
  ◌≢◌, inl, inr, refl, Bool-cases, arith,
}
use rockcast.Prelude.Bytes.{add64, IsU64}
use rockcast.Playback.{
  PlaybackPhase, idle, opening, playing, stopping, failed, PlaybackEvent, status, title, play_ok,
  stop_ok, error, PlaybackController, new, send, play, stop, apply_event, phase_after,
  event_generation, poll, shutdown,
}

-- What the user asked for last. At the start, and after `shutdown`, nothing.
pub data Command : Type 0 where
  nothing : Command
  play_command : Bool → Command
  stop_command : Command

-- The events that a worker of a command may send.
abbrev pub Fits : PlaybackEvent → Command → Type 0
Fits (status text g) c = (local : Bool) × (c ≡ play_command local)
Fits (title text g) c = (local : Bool) × (c ≡ play_command local)
Fits (play_ok url tap g local) c = c ≡ play_command local
Fits (stop_ok g) c = c ≡ stop_command
Fits (error message g) c = c ≢ nothing

-- The phases that belong to the latest command and its generation.
abbrev pub PhaseFits : PlaybackPhase → ℕ → Command → Type 0
PhaseFits idle g c = (local : Bool) → c ≢ play_command local
PhaseFits (opening g' local) g c = (g' ≡ g) × (c ≡ play_command local)
PhaseFits (playing g' local) g c = (g' ≡ g) × (c ≡ play_command local)
PhaseFits (stopping g') g c = (g' ≡ g) × (c ≡ stop_command)
PhaseFits (failed g') g c = (g' ≡ g) × (c ≢ nothing)

-- A worker is the generation and the command that it was started for. The commands of one run are
-- fewer than 2 ^ 64.
pub data Runs : PlaybackController → List (ℕ × Command) → Command → Type 0 where
  started : Runs new [] nothing
  played :
      {c : PlaybackController} {jobs : List (ℕ × Command)} {latest : Command} (local : Bool)
      (submit : Option String)
      → IsU64 (c.generation + 1)
      → Runs c jobs latest
      → Runs
          (play local submit c).0
          ((c.generation + 1, play_command local) ∷ jobs)
          (play_command local)
  halted :
      {c : PlaybackController} {jobs : List (ℕ × Command)} {latest : Command}
      (submit : Option String)
      → IsU64 (c.generation + 1)
      → Runs c jobs latest
      → Runs (stop submit c).0 ((c.generation + 1, stop_command) ∷ jobs) stop_command
  sent :
      {c : PlaybackController} {latest : Command} (event : PlaybackEvent)
      (before after : List (ℕ × Command)) (command : Command)
      → Fits event command
      → Runs c (before ++ ((event_generation event, command) ∷ after)) latest
      → Runs (send event c) (before ++ ((event_generation event, command) ∷ after)) latest
  polled :
      {c : PlaybackController} {jobs : List (ℕ × Command)} {latest : Command}
      → Runs c jobs latest
      → Runs (poll c) jobs latest
  ended :
      {c : PlaybackController} {jobs : List (ℕ × Command)} {latest : Command}
      → IsU64 (c.generation + 1)
      → Runs c jobs latest
      → Runs (shutdown c) jobs nothing

-- Of a generation that was given out, and if it is the current one, then of the latest command.
abbrev pub JobFits : ℕ → Command → ℕ × Command → Type 0
JobFits g latest (k, c) = (k ≤ g) × (k ≡ g → c ≡ latest)

abbrev pub EventFits : ℕ → Command → PlaybackEvent → Type 0
EventFits g latest e = (event_generation e ≤ g) × (event_generation e ≡ g → Fits e latest)

pub record IsConsistent (c : PlaybackController) (jobs : List (ℕ × Command)) (latest : Command)
    : Type 0 where
  pub phase : PhaseFits c.phase c.generation latest
  pub jobs_fit : All (JobFits c.generation latest) jobs
  pub events_fit : All (EventFits c.generation latest) c.channel

-- ===== src/Playback/Machine/Invariant.antt =====
-- The controller of src/playback/mod.rs and the latest command, through each step of a run.
use Prim.Native.String.{String}
use mathlib.Core.Path.{subst}
use rockcast.Prelude.{
  ℕ, ◌+◌, Bool, Option, none, some, List, [], ◌∷◌, ◌++◌, All, All-append, ◌==◌, ==_iff, ◌≡◌, ◌≢◌,
  inl, inr, refl, Bool-cases, arith,
}
use rockcast.Prelude.Bytes.{add64, IsU64}
use rockcast.Playback.{
  PlaybackPhase, PlaybackEvent, status, title, play_ok, stop_ok, error, PlaybackController, new,
  send, play, stop, apply_event, phase_after, event_generation, poll, shutdown,
}
use rockcast.Playback.Machine.{
  Command, nothing, play_command, stop_command, Fits, PhaseFits, Runs, started, played, halted,
  sent, polled, ended, JobFits, EventFits, IsConsistent,
}

older_jobs :
    (g : ℕ) (old latest : Command) (jobs : List (ℕ × Command))
    → All (JobFits g old) jobs
    → All (JobFits (g + 1) latest) jobs
older_jobs g old latest [] h = tt
older_jobs g old latest ((k, c) ∷ jobs) h =
    ((omega (arith, h.0.0), λ e. absurd (omega (arith, h.0.0))), older_jobs g old latest jobs h.1)

older_events :
    (g : ℕ) (old latest : Command) (events : List PlaybackEvent)
    → All (EventFits g old) events
    → All (EventFits (g + 1) latest) events
older_events g old latest [] h = tt
older_events g old latest (e ∷ events) h = (
  (omega (arith, h.0.0), λ q. absurd (omega (arith, h.0.0))),
  older_events g old latest events h.1,
)

not_nothing : (local : Bool) → play_command local ≢ nothing
not_nothing local e = cc e

after-Fits :
    (e : PlaybackEvent) (phase : PlaybackPhase) (g : ℕ) (latest : Command)
    → event_generation e ≡ g
    → Fits e latest
    → PhaseFits phase g latest
    → PhaseFits (phase_after e phase) g latest
after-Fits (status text k) phase g latest h f p = p
after-Fits (title text k) phase g latest h f p = p
after-Fits (play_ok url tap k local) phase g latest h f p = (h, f)
after-Fits (stop_ok k) phase g latest h f p = λ local e. cc (e, f)
after-Fits (error message k) phase g latest h f p = (h, f)

-- Taking a consistent controller from before a command to after it, where the phase is the command's.
module _ {c : PlaybackController} {jobs : List (ℕ × Command)} {old : Command}
    (i : IsConsistent c jobs old) (room : IsU64 (c.generation + 1)) where
  next : add64 c.generation 1 ≡ c.generation + 1
  next = omega (arith, room)

  play-IsConsistent :
      (local : Bool) (submit : Option String)
      → IsConsistent
          (play local submit c).0
          ((c.generation + 1, play_command local) ∷ jobs)
          (play_command local)
  unfolding play send
  play-IsConsistent local none = rw next (record {
    phase = (refl, refl);
    jobs_fit = (
      (omega arith, λ e. refl),
      older_jobs c.generation old (play_command local) jobs i.jobs_fit,
    );
    events_fit = older_events c.generation old (play_command local) c.channel i.events_fit;
  })
  play-IsConsistent local (some message) = rw next (record {
    phase = (refl, not_nothing local);
    jobs_fit = (
      (omega arith, λ e. refl),
      older_jobs c.generation old (play_command local) jobs i.jobs_fit,
    );
    events_fit =
        All-append _ c.channel (error message (c.generation + 1) ∷ [])
          (older_events c.generation old (play_command local) c.channel i.events_fit)
          ((omega arith, λ e. not_nothing local), tt);
  })

  stop-IsConsistent :
      (submit : Option String)
      → IsConsistent (stop submit c).0 ((c.generation + 1, stop_command) ∷ jobs) stop_command
  unfolding stop send
  stop-IsConsistent none = rw next (record {
    phase = (refl, refl);
    jobs_fit = ((omega arith, λ e. refl), older_jobs c.generation old stop_command jobs i.jobs_fit);
    events_fit = older_events c.generation old stop_command c.channel i.events_fit;
  })
  stop-IsConsistent (some message) = rw next (record {
    phase = (refl, refl);
    jobs_fit = ((omega arith, λ e. refl), older_jobs c.generation old stop_command jobs i.jobs_fit);
    events_fit =
        All-append _ c.channel (error message (c.generation + 1) ∷ [])
          (older_events c.generation old stop_command c.channel i.events_fit)
          ((omega arith, λ e q. cc q), tt);
  })

  shutdown-IsConsistent : IsConsistent (shutdown c) jobs nothing
  unfolding shutdown
  shutdown-IsConsistent = rw next (record {
    phase = λ local e. cc e;
    jobs_fit = older_jobs c.generation old nothing jobs i.jobs_fit;
    events_fit = older_events c.generation old nothing c.channel i.events_fit;
  })

All-middle :
    {A : Type 0} (P : A → Type 0) (xs : List A) (y : A) (zs : List A) → All P (xs ++ (y ∷ zs)) → P y
All-middle P [] y zs h = h.0
All-middle P (x ∷ xs) y zs h = All-middle P xs y zs h.1

send-IsConsistent :
    {c : PlaybackController} {jobs : List (ℕ × Command)} {latest command : Command}
    (e : PlaybackEvent)
    → Fits e command
    → JobFits c.generation latest (event_generation e, command)
    → IsConsistent c jobs latest
    → IsConsistent (send e c) jobs latest
unfolding send
send-IsConsistent {c} e f job i = record {
  phase = i.phase;
  jobs_fit = i.jobs_fit;
  events_fit =
      All-append _ c.channel (e ∷ []) i.events_fit ((job.0, λ h. subst (Fits e) (job.1 h) f), tt);
}

poll-IsConsistent :
    {c : PlaybackController} {jobs : List (ℕ × Command)} {latest : Command}
    → IsConsistent c jobs latest
    → IsConsistent (poll c) jobs latest
unfolding poll apply_event
poll-IsConsistent {c} {jobs} {latest} i = go c.channel i.events_fit
  where
    go :
        (events : List PlaybackEvent)
        → All (EventFits c.generation latest) events
        → IsConsistent
            (elim events [
              | [] ↦ c
              | event ∷ rest ↦ (apply_event event (record c { channel = rest })).0
            ])
            jobs
            latest
    go [] h = i
    go (event ∷ rest) h = elim (Bool-cases (event_generation event == c.generation)) [
      | inl same ↦
          let now : event_generation event ≡ c.generation =
            (==_iff (event_generation event) c.generation).0 same in
          rw same (record {
            phase = after-Fits event c.phase c.generation latest now (h.0.1 now) i.phase;
            jobs_fit = i.jobs_fit;
            events_fit = h.1;
          })
      | inr other ↦ rw other (record { phase = i.phase; jobs_fit = i.jobs_fit; events_fit = h.1 })
    ]

-- However commands, workers' events and polls are interleaved, the phase is one of the latest command
-- and its generation, so a worker of an earlier command never changes it: the controller plays or opens
-- only if the latest command is to play, to the same kind of output, and stops only if it is to stop.
pub Runs-IsConsistent :
    {c : PlaybackController} {jobs : List (ℕ × Command)} {latest : Command}
    → Runs c jobs latest
    → IsConsistent c jobs latest
unfolding new
Runs-IsConsistent started = record { phase = λ local e. cc e; jobs_fit = tt; events_fit = tt }
Runs-IsConsistent (played local submit room run) =
    play-IsConsistent (Runs-IsConsistent run) room local submit
Runs-IsConsistent (halted submit room run) = stop-IsConsistent (Runs-IsConsistent run) room submit
Runs-IsConsistent (sent event before after command f run) =
    let i = Runs-IsConsistent run in
    send-IsConsistent event f
      (All-middle _ before (event_generation event, command) after i.jobs_fit) i
Runs-IsConsistent (polled run) = poll-IsConsistent (Runs-IsConsistent run)
Runs-IsConsistent (ended room run) = shutdown-IsConsistent (Runs-IsConsistent run) room

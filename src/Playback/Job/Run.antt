-- ===== src/Playback/Job/Run.antt =====
-- The effects of a worker of src/playback/mod.rs on the controller.
use Prim.Native.String.{String}
use mathlib.Core.Path.{subst}
use rockcast.Prelude.{ℕ, Bool, List, [], ◌∷◌, ◌++◌, All, sym}
use rockcast.Playback.{PlaybackController, send}
use rockcast.Playback.Machine.Invariant.{Runs-IsConsistent}
use rockcast.Playback.Machine.{Command, play_command, Runs, sent, IsConsistent}
use rockcast.Playback.Job.{
  Effect, stop_local, stop_relay, stop_cast, start_relay, wait_for_pcm_format, wait_for_data,
  play_cast, play_local, set_cast_volume, emit, World, play_job,
}
use rockcast.Playback.Job.Events.{Owned, is_local, play_job-Owned}

-- The controller's channel after a worker's effects.
pub perform : List Effect → PlaybackController → PlaybackController
perform [] c = c
perform (emit e ∷ effects) c = perform effects (send e c)
perform (_ ∷ effects) c = perform effects c

perform-Runs :
    (g : ℕ) (command latest : Command) (before after : List (ℕ × Command)) (effects : List Effect)
    (c : PlaybackController)
    → All (Owned g command) effects
    → Runs c (before ++ ((g, command) ∷ after)) latest
    → Runs (perform effects c) (before ++ ((g, command) ∷ after)) latest
unfolding perform
perform-Runs g command latest before after [] c h run = run
perform-Runs g command latest before after (emit e ∷ effects) c h run =
    perform-Runs g command latest before after effects (send e c) h.1 (
      subst (λ k. Runs (send e c) (before ++ ((k, command) ∷ after)) latest) h.0.0
        (sent e before after command h.0.1
          (subst (λ k. Runs c (before ++ ((k, command) ∷ after)) latest) (sym h.0.0) run)))
perform-Runs g command latest before after (stop_local ∷ effects) c h run =
    perform-Runs g command latest before after effects c h.1 run
perform-Runs g command latest before after (stop_relay ∷ effects) c h run =
    perform-Runs g command latest before after effects c h.1 run
perform-Runs g command latest before after (stop_cast ∷ effects) c h run =
    perform-Runs g command latest before after effects c h.1 run
perform-Runs g command latest before after (start_relay b ∷ effects) c h run =
    perform-Runs g command latest before after effects c h.1 run
perform-Runs g command latest before after (wait_for_pcm_format ∷ effects) c h run =
    perform-Runs g command latest before after effects c h.1 run
perform-Runs g command latest before after (wait_for_data n ∷ effects) c h run =
    perform-Runs g command latest before after effects c h.1 run
perform-Runs g command latest before after (play_cast ∷ effects) c h run =
    perform-Runs g command latest before after effects c h.1 run
perform-Runs g command latest before after (play_local ∷ effects) c h run =
    perform-Runs g command latest before after effects c h.1 run
perform-Runs g command latest before after (set_cast_volume ∷ effects) c h run =
    perform-Runs g command latest before after effects c h.1 run

-- Whatever a worker of `play` observes and sends, the controller stays consistent with the latest
-- command, which may be a later one than the worker's.
play_job-IsConsistent :
    (contains_wav : String → Bool) (station_url : String) (g : ℕ) (w : World) (latest : Command)
    (before after : List (ℕ × Command)) (c : PlaybackController)
    → Runs c (before ++ ((g, play_command (is_local w.device)) ∷ after)) latest
    → IsConsistent
        (perform (play_job contains_wav station_url g w) c)
        (before ++ ((g, play_command (is_local w.device)) ∷ after))
        latest
play_job-IsConsistent contains_wav station_url g w latest before after c run = Runs-IsConsistent (
    perform-Runs g (play_command (is_local w.device)) latest before after
      (play_job contains_wav station_url g w) c (play_job-Owned contains_wav station_url g w) run)

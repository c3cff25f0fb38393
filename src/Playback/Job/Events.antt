-- ===== src/Playback/Job/Events.antt =====
-- The events that the workers of src/playback/mod.rs send.
use Prim.Native.String.{String}
use rockcast.Prelude.{
  ℕ, Bool, true, false, not, List, [], ◌∷◌, All, All-append, ◌==◌, if◌then◌else◌, ◌≡◌, refl,
}
use rockcast.Prelude.Results.{Result, err, ok}
use rockcast.Playback.{play_ok, error, event_generation}
use rockcast.Playback.Machine.{Command, play_command, stop_command, Fits}
use rockcast.Playback.Job.{
  Gate, is_closed, Effect, stop_relay, start_relay, set_cast_volume, emit, Callback, on_status,
  on_started, CastWorld, LocalWorld, OutputDevice, cast_device, local_device, World, cast_statuses,
  cast_end, cast_launch, cast_buffer, cast_part, local_callbacks, local_end, local_part,
  device_part, play_job, stop_job, Heard, heard, timeout, disconnected, title_job,
}

-- An event that is sent has the worker's generation, and fits its command.
abbrev pub Owned : ℕ → Command → Effect → Type 0
Owned g c (emit e) = (event_generation e ≡ g) × Fits e c
Owned g c _ = Unit

abbrev pub is_local : OutputDevice → Bool
is_local (cast_device w) = false
is_local (local_device w) = true

-- Both branches of a test do.
pub if-All :
    {A : Type 0} (P : A → Type 0) (b : Bool) (xs ys : List A)
    → All P xs
    → All P ys
    → All P (if b then xs else ys)
if-All P true xs ys hx hy = hx
if-All P false xs ys hx hy = hy

module _ (contains_wav : String → Bool) (station_url : String) (g : ℕ) where
  error-Owned :
      (local : Bool) (message : String) → Owned g (play_command local) (emit (error message g))
  error-Owned local message = (refl, λ e. cc e)

  cast_statuses-Owned :
      (calls : List (String × ℕ))
      → All (Owned g (play_command false)) (cast_statuses contains_wav station_url g calls)
  unfolding cast_statuses
  cast_statuses-Owned [] = tt
  cast_statuses-Owned ((text, current) ∷ rest) =
      if-All _ (current == g) _ _ ((refl, (false, refl)), cast_statuses-Owned rest)
        (cast_statuses-Owned rest)

  cast_end-Owned :
      (w : CastWorld) → All (Owned g (play_command false)) (cast_end contains_wav station_url g w)
  unfolding cast_end
  cast_end-Owned w = if-All _ (not (w.generation_after == g)) _ _ tt (go w.result)
    where
      go :
          (r : Result String Unit)
          → All (Owned g (play_command false)) (elim r [
            | ok done ↦ set_cast_volume ∷ emit (play_ok station_url w.tap_url g false) ∷ []
            | err message ↦ stop_relay ∷ emit (error message g) ∷ []
          ])
      go (ok done) = (tt, ((refl, refl), tt))
      go (err message) = (tt, (error-Owned false message, tt))

  cast_launch-Owned :
      (w : CastWorld)
      → All (Owned g (play_command false)) (cast_launch contains_wav station_url g w)
  unfolding cast_launch
  cast_launch-Owned w =
      if-All _ (is_closed g w.before_cast) _ _ (tt, tt)
        (tt, All-append _ _ _ (cast_statuses-Owned w.callbacks) (cast_end-Owned w))

  cast_buffer-Owned :
      (ct : String) (w : CastWorld)
      → All (Owned g (play_command false)) (cast_buffer contains_wav station_url g ct w)
  unfolding cast_buffer
  cast_buffer-Owned ct w = All-append _ _ _ (if-All _ (contains_wav ct) _ _ (tt, tt) tt) (
    tt,
    if-All _ (not w.data_ready) _ _
        (if-All _ w.wait_cancelled _ _ (tt, tt) (error-Owned false w.unavailable, (tt, tt)))
        (cast_launch-Owned w),
  )

  cast_part-Owned :
      (w : CastWorld) → All (Owned g (play_command false)) (cast_part contains_wav station_url g w)
  unfolding cast_part
  cast_part-Owned w = if-All _ (is_closed g w.before_start) _ _ tt (go w.relay)
    where
      go :
          (r : Result String (String × String))
          → All (Owned g (play_command false)) (elim r [
            | ok (load_url, load_ct) ↦
                start_relay true ∷ cast_buffer contains_wav station_url g load_ct w
            | err message ↦ start_relay false ∷ emit (error message g) ∷ []
          ])
      go (ok (load_url, load_ct)) = (tt, cast_buffer-Owned load_ct w)
      go (err message) = (tt, (error-Owned false message, tt))

  local_callbacks-Owned :
      (upstream : String) (calls : List Callback)
      → All
          (Owned g (play_command true))
          (local_callbacks contains_wav station_url g upstream calls)
  unfolding local_callbacks
  local_callbacks-Owned upstream [] = tt
  local_callbacks-Owned upstream (on_status text current ∷ rest) =
      if-All _ (current == g) _ _ ((refl, (true, refl)), local_callbacks-Owned upstream rest)
        (local_callbacks-Owned upstream rest)
  local_callbacks-Owned upstream (on_started current ∷ rest) =
      if-All _ (current == g) _ _ ((refl, refl), local_callbacks-Owned upstream rest)
        (local_callbacks-Owned upstream rest)

  local_part-Owned :
      (upstream : String) (w : LocalWorld)
      → All (Owned g (play_command true)) (local_part contains_wav station_url g upstream w)
  unfolding local_part local_end
  local_part-Owned upstream w = (
    tt,
    if-All _ (is_closed g w.before_play) _ _ tt (
      tt,
      All-append _ _ _ (local_callbacks-Owned upstream w.callbacks)
          (if-All _ (not (w.generation_after == g)) _ _ tt (go w.result)),
    ),
  )
    where
      go :
          (r : Result String Unit)
          → All
              (Owned g (play_command true))
              (elim r [ ok done ↦ [] | err message ↦ emit (error message g) ∷ [] ])
      go (ok done) = tt
      go (err message) = (error-Owned true message, tt)

  device_part-Owned :
      (upstream : String) (d : OutputDevice)
      → All
          (Owned g (play_command (is_local d)))
          (device_part contains_wav station_url g upstream d)
  unfolding device_part
  device_part-Owned upstream (cast_device w) = cast_part-Owned w
  device_part-Owned upstream (local_device w) = local_part-Owned upstream w

  -- Whatever a worker of `play` observes, each event that it sends carries its own generation, and is one
  -- that the controller expects of a command to play to this kind of output.
  pub play_job-Owned :
      (w : World)
      → All (Owned g (play_command (is_local w.device))) (play_job contains_wav station_url g w)
  unfolding play_job
  play_job-Owned w = if-All _ (is_closed g w.entry) _ _ tt (tt, (tt, url_lem w.stream_url))
    where
      headers_lem :
          (upstream : String) (r : Result String Unit)
          → All (Owned g (play_command (is_local w.device))) (elim r [
            | err message ↦ emit (error message g) ∷ []
            | ok done ↦ device_part contains_wav station_url g upstream w.device
          ])
      headers_lem upstream (err message) = (error-Owned (is_local w.device) message, tt)
      headers_lem upstream (ok done) = device_part-Owned upstream w.device

      url_lem :
          (r : Result String String)
          → All (Owned g (play_command (is_local w.device))) (elim r [
            | err message ↦ emit (error message g) ∷ []
            | ok upstream ↦ elim w.headers [
              | err message ↦ emit (error message g) ∷ []
              | ok done ↦ device_part contains_wav station_url g upstream w.device
            ]
          ])
      url_lem (err message) = (error-Owned (is_local w.device) message, tt)
      url_lem (ok upstream) = headers_lem upstream w.headers

-- The same for a worker of `stop`, and of a local player's titles.
pub stop_job-Owned : (g : ℕ) (r : Result String Unit) → All (Owned g stop_command) (stop_job g r)
unfolding stop_job
stop_job-Owned g (ok done) = (tt, (tt, (tt, ((refl, refl), tt))))
stop_job-Owned g (err message) = (tt, (tt, (tt, ((refl, λ e. cc e), tt))))

pub title_job-Owned :
    (g : ℕ) (turns : List (Gate × Heard)) → All (Owned g (play_command true)) (title_job g turns)
unfolding title_job
title_job-Owned g [] = tt
title_job-Owned g ((gate, heard text current) ∷ turns) = if-All _ (is_closed g gate) _ _ tt (
    if-All _ (current == g) _ _ ((refl, (true, refl)), title_job-Owned g turns)
      (title_job-Owned g turns))
title_job-Owned g ((gate, timeout) ∷ turns) =
    if-All _ (is_closed g gate) _ _ tt (title_job-Owned g turns)
title_job-Owned g ((gate, disconnected) ∷ turns) = tt

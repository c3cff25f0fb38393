-- ===== src/Playback/Job/Relay.antt =====
-- What a worker of src/playback/mod.rs that plays to a Cast device leaves behind.
use Prim.Native.String.{String}
use rockcast.Prelude.{
  ℕ, Bool, true, false, not, List, [], ◌∷◌, ◌++◌, ◌==◌, ==_iff, if◌then◌else◌, ◌≡◌, refl, inl, inr,
  Bool-cases,
}
use rockcast.Prelude.Results.{Result, err, ok}
use rockcast.Playback.{play_ok, error}
use rockcast.Playback.Job.{
  Gate, is_closed, Effect, stop_relay, start_relay, set_cast_volume, emit, CastWorld, cast_device,
  cast_statuses, cast_end, cast_launch, cast_buffer, cast_part, device_part, play_job,
}

-- Whether the relay runs after the effects.
pub is_running : Bool → List Effect → Bool
is_running r [] = r
is_running r (start_relay succeeded ∷ effects) = is_running succeeded effects
is_running r (stop_relay ∷ effects) = is_running false effects
is_running r (_ ∷ effects) = is_running r effects

-- Whether the effects report a success.
pub is_announced : List Effect → Bool
is_announced [] = false
is_announced (emit (play_ok url tap g local) ∷ effects) = true
is_announced (_ ∷ effects) = is_announced effects

Balanced : Bool → List Effect → Type 0
Balanced r effects = is_running r effects ≡ is_announced effects

if-Balanced :
    (r b : Bool) (xs ys : List Effect)
    → (b ≡ true → Balanced r xs)
    → (b ≡ false → Balanced r ys)
    → Balanced r (if b then xs else ys)
if-Balanced r true xs ys hx hy = hx refl
if-Balanced r false xs ys hx hy = hy refl

module _ (contains_wav : String → Bool) (station_url : String) (g : ℕ) where
  statuses-Balanced :
      (r : Bool) (calls : List (String × ℕ)) (es : List Effect)
      → Balanced r es
      → Balanced r (cast_statuses contains_wav station_url g calls ++ es)
  unfolding Balanced cast_statuses is_running is_announced
  statuses-Balanced r [] es h = h
  statuses-Balanced r ((text, current) ∷ rest) es h = elim (Bool-cases (current == g)) [
    | inl e ↦ rw e (statuses-Balanced r rest es h)
    | inr e ↦ rw e (statuses-Balanced r rest es h)
  ]

  cast_end-Balanced :
      (w : CastWorld)
      → w.generation_after ≡ g
      → Balanced true (cast_end contains_wav station_url g w)
  unfolding Balanced cast_end is_running is_announced
  cast_end-Balanced w kept =
      let same : (w.generation_after == g) ≡ true = (==_iff w.generation_after g).1 kept in
      rw same (go w.result)
    where
      go :
          (r : Result String Unit)
          → Balanced true (elim r [
            | ok done ↦ set_cast_volume ∷ emit (play_ok station_url w.tap_url g false) ∷ []
            | err message ↦ stop_relay ∷ emit (error message g) ∷ []
          ])
      go (ok done) = refl
      go (err message) = refl

  cast_launch-Balanced :
      (w : CastWorld)
      → w.generation_after ≡ g
      → Balanced true (cast_launch contains_wav station_url g w)
  unfolding Balanced cast_launch is_running is_announced
  cast_launch-Balanced w kept =
      if-Balanced true (is_closed g w.before_cast) _ _ (λ e. refl)
        (λ e. statuses-Balanced true w.callbacks _ (cast_end-Balanced w kept))

  cast_buffer-Balanced :
      (ct : String) (w : CastWorld)
      → w.generation_after ≡ g
      → Balanced true (cast_buffer contains_wav station_url g ct w)
  unfolding Balanced cast_buffer is_running is_announced
  cast_buffer-Balanced ct w kept =
      let waited : Balanced true (
          if not w.data_ready
          then (if w.wait_cancelled
              then stop_relay ∷ []
              else emit (error w.unavailable g) ∷ stop_relay ∷ [])
          else cast_launch contains_wav station_url g w) =
        if-Balanced true (not w.data_ready) _ _
          (λ e. if-Balanced true w.wait_cancelled _ _ (λ q. refl) (λ q. refl))
          (λ e. cast_launch-Balanced w kept) in
      elim (Bool-cases (contains_wav ct)) [ inl e ↦ rw e waited | inr e ↦ rw e waited ]

  cast_part-Balanced :
      (w : CastWorld)
      → w.generation_after ≡ g
      → Balanced false (cast_part contains_wav station_url g w)
  unfolding Balanced cast_part is_running is_announced
  cast_part-Balanced w kept =
      if-Balanced false (is_closed g w.before_start) _ _ (λ e. refl) (λ e. go w.relay)
    where
      go :
          (r : Result String (String × String))
          → Balanced false (elim r [
            | ok (load_url, load_ct) ↦
                start_relay true ∷ cast_buffer contains_wav station_url g load_ct w
            | err message ↦ start_relay false ∷ emit (error message g) ∷ []
          ])
      go (ok (load_url, load_ct)) = cast_buffer-Balanced load_ct w kept
      go (err message) = refl

  -- A worker that plays to a Cast device and gets past its first test leaves the relay running exactly
  -- if it reports success, whatever fails or is cancelled on the way and whether or not the relay ran
  -- before, unless another command came while the device started.
  pub play_job-relay :
      (running : Bool) (entry : Gate) (stream_url : Result String String)
      (headers : Result String Unit) (w : CastWorld)
      → is_closed g entry ≡ false
      → w.generation_after ≡ g
      → let effects = play_job contains_wav station_url g (record {
        entry = entry;
        stream_url = stream_url;
        headers = headers;
        device = cast_device w;
      }) in
        is_running running effects ≡ is_announced effects
  unfolding play_job device_part Balanced is_running is_announced
  play_job-relay running entry stream_url headers w open_gate kept =
      rw open_gate (url_lem stream_url)
    where
      headers_lem :
          (r : Result String Unit)
          → Balanced false (elim r [
            | err message ↦ emit (error message g) ∷ []
            | ok done ↦ cast_part contains_wav station_url g w
          ])
      headers_lem (err message) = refl
      headers_lem (ok done) = cast_part-Balanced w kept

      url_lem :
          (r : Result String String)
          → Balanced false (elim r [
            | err message ↦ emit (error message g) ∷ []
            | ok upstream ↦ elim headers [
              | err message ↦ emit (error message g) ∷ []
              | ok done ↦ cast_part contains_wav station_url g w
            ]
          ])
      url_lem (err message) = refl
      url_lem (ok upstream) = headers_lem headers

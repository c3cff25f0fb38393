-- ===== src/DeviceControl/Receivers/Handles.antt =====
-- What a handle of src/device_control/output.rs stands for, and for how long.
use Prim.Native.String.{String}
use rockcast.Prelude.{
  ℕ, suc, ◌+◌, ◌≤◌, ◌<◌, Bool, true, false, ◌||◌, none, some, List, [], ◌∷◌, take, length,
  length-take, All, All-map, ltb, ◌==◌, ◌≡◌, refl, ap, inl, inr, Bool-cases, Option-cases, arith,
}
use rockcast.Prelude.Sorting.{sort_by}
use rockcast.DeviceControl.Protocol.{ChromecastReceiver}
use rockcast.DeviceControl.Receivers.{
  discovery_ttl_seconds, max_receivers, Found, CachedReceiver, precedes, dedup, live_handle,
  receivers_at, get_fresh_at, cache_one, cache_all, replace_at,
}

has_id {ℓ} : {T : Type ℓ} → ℕ → List (CachedReceiver T) → Bool
has_id id [] = false
has_id id (c ∷ entries) = c.receiver_id == id || has_id id entries

module _ {ℓ} {T : Type ℓ} where
  -- An entry as the cache writes it at a time.
  record Cached (now : ℕ) (c : CachedReceiver T) : Type 0 where
    expiry : c.expires_at ≡ now + discovery_ttl_seconds
    same_id : c.receiver.receiver_id ≡ c.receiver_id

  get-has_id :
      (now at_time id : ℕ) (entries : List (CachedReceiver T))
      → All (Cached now) entries
      → at_time < now + discovery_ttl_seconds
      → has_id id entries ≡ true
      → (d : T) × (get_fresh_at entries id at_time ≡ some d)
  unfolding get_fresh_at has_id
  get-has_id now at_time id [] a h e = absurd cc
  get-has_id now at_time id (c ∷ entries) a h e =
      let fresh : ltb at_time c.expires_at ≡ true = ground (arith, a.0.expiry) in
      elim (Bool-cases (c.receiver_id == id)) [
        | inl here ↦ (c.device, rw (here, fresh) refl)
        | inr there ↦
            let rest = get-has_id now at_time id entries a.1 h (ground arith) in
            (rest.0, rw there rest.1)
      ]

  get_expired :
      (now at_time id : ℕ) (entries : List (CachedReceiver T))
      → All (Cached now) entries
      → now + discovery_ttl_seconds ≤ at_time
      → get_fresh_at entries id at_time ≡ none
  unfolding get_fresh_at
  get_expired now at_time id [] a h = refl
  get_expired now at_time id (c ∷ entries) a h =
      let stale : ltb at_time c.expires_at ≡ false = ground (arith, a.0.expiry) in
      ground (arith, get_expired now at_time id entries a.1 h)

  receivers-known :
      (now : ℕ) (entries all : List (CachedReceiver T))
      → All (Cached now) entries
      → ((id : ℕ) → has_id id entries ≡ true → has_id id all ≡ true)
      → All (λ (r : ChromecastReceiver). has_id r.receiver_id all ≡ true) (receivers_at entries now)
  unfolding receivers_at has_id
  receivers-known now [] all a h = tt
  receivers-known now (c ∷ entries) all a h =
      let fresh : ltb now c.expires_at ≡ true = ground (arith, a.0.expiry) in
      let self : (c.receiver_id == c.receiver.receiver_id) ≡ true = ground (arith, a.0.same_id) in
      rw fresh (
        h c.receiver.receiver_id (ground arith),
        receivers-known now entries all a.1 (λ id e. h id (ground arith)),
      )

  receivers-le :
      (now : ℕ) (entries : List (CachedReceiver T))
      → length (receivers_at entries now) ≤ length entries
  unfolding receivers_at
  receivers-le now [] = omega arith
  receivers-le now (c ∷ entries) = ground (arith, receivers-le now entries)

module _ {ℓ} {T : Type ℓ} (format_time : ℕ → String) where
  cache_all-Cached :
      (incoming : List (Found T)) (entries : List (CachedReceiver T)) (uuid : ℕ → ℕ) (now : ℕ)
      → All (Cached now) (cache_all format_time incoming entries uuid now)
  unfolding cache_all cache_one
  cache_all-Cached [] entries uuid now = tt
  cache_all-Cached (found ∷ incoming) entries uuid now =
      elim (Option-cases (live_handle found.key now entries)) [
        | inl e ↦
            rw (All, e)
              (
                record { expiry = refl; same_id = refl },
                cache_all-Cached incoming entries (λ n. uuid (suc n)) now,
              )
        | inr (id, e) ↦
            rw (All, e)
              (record { expiry = refl; same_id = refl }, cache_all-Cached incoming entries uuid now)
      ]

  length-cache_all :
      (incoming : List (Found T)) (entries : List (CachedReceiver T)) (uuid : ℕ → ℕ) (now : ℕ)
      → length (cache_all format_time incoming entries uuid now) ≡ length incoming
  unfolding cache_all
  length-cache_all [] entries uuid now = refl
  length-cache_all (found ∷ incoming) entries uuid now =
      elim (Option-cases (live_handle found.key now entries)) [
        | inl e ↦
            rw (length, e) (ap suc (length-cache_all incoming entries (λ n. uuid (suc n)) now))
        | inr (id, e) ↦ rw (length, e) (ap suc (length-cache_all incoming entries uuid now))
      ]

  -- After a scan at a time, whatever it found and the cache held, at most 32 receivers are told to the server, the
  -- handle of each of them leads to a device during the next minute, and from then on no handle leads anywhere.
  handles_last_a_minute :
      (devices : List (Found T)) (entries : List (CachedReceiver T)) (uuid : ℕ → ℕ) (now : ℕ)
      → let result = replace_at format_time devices entries uuid now in
        (length result.1 ≤ max_receivers)
        × ((at_time : ℕ)
            → at_time < now + discovery_ttl_seconds
            → All
                (λ (r : ChromecastReceiver).
                  (d : T) × (get_fresh_at result.0 r.receiver_id at_time ≡ some d))
                result.1)
        × ((at_time id : ℕ)
            → now + discovery_ttl_seconds ≤ at_time
            → get_fresh_at result.0 id at_time ≡ none)
  unfolding replace_at
  handles_last_a_minute devices entries uuid now =
      let incoming = take max_receivers (dedup (sort_by precedes devices)) in
      let next = cache_all format_time incoming entries uuid now in
      let cached = cache_all-Cached incoming entries uuid now in
      (
        omega (
          arith,
          receivers-le now next,
          length-cache_all incoming entries uuid now,
          length-take max_receivers (dedup (sort_by precedes devices)),
        ),
        (λ at_time h.
            All-map (receivers_at next now)
              (λ r k. get-has_id now at_time r.receiver_id next cached h k)
              (receivers-known now next next cached (λ id e. e))),
        (λ at_time id h. get_expired now at_time id next cached h),
      )

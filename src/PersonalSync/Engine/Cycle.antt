-- ===== src/PersonalSync/Engine/Cycle.antt =====
-- `sync_once` and `retry_backoff` of src/personal_sync/engine.rs.
use Prim.Native.String.{String}
use rockcast.Prelude.{
  ℕ, zero, suc, ◌+◌, ◌*◌, ◌≤◌, ◌<◌, Option, none, some, List, [], ◌∷◌, ◌++◌, map, length,
  append_assoc, append-nil, ◌≡◌, refl, sym, ap, ◌∙◌, arith,
}
use rockcast.PersonalSync.{FavouritePush, HistoryPush, SyncRequest, SyncResponse}
use rockcast.PersonalSync.Chunks.Slices.{concat}
use rockcast.PersonalSync.Chunks.Complete.{upserts_of, deletes_of, chunk_requests_complete}
use rockcast.PersonalSync.Diff.{Synced, diff}
use rockcast.PersonalSync.Engine.{
  Result, err, ok, SyncFailure, SyncChannel, SyncOutcome, SyncState, LocalProfile, deliver,
  deliver_all, absorb, or_pull, retry_backoff, start_outcome, sync_requests, sync_once,
}

-- The pause is 60 s doubled for each failure, up to the fourth: it never falls, and never exceeds
-- 960 s, which it has from the fourth failure on.
pub retry_backoff_bounds :
    (n : ℕ)
    → (60 ≤ retry_backoff n)
      × (retry_backoff n ≤ 960)
      × (retry_backoff n ≤ retry_backoff (n + 1))
      × (n < 4 → retry_backoff (n + 1) ≡ 2 * retry_backoff n)
      × (4 ≤ n → retry_backoff n ≡ 960)
unfolding retry_backoff
retry_backoff_bounds zero = ground arith
retry_backoff_bounds (suc zero) = ground arith
retry_backoff_bounds (suc (suc zero)) = ground arith
retry_backoff_bounds (suc (suc (suc zero))) = ground arith
retry_backoff_bounds (suc (suc (suc (suc n)))) = ground arith

abbrev last_or : ℕ → List ℕ → ℕ
last_or n [] = n
last_or n (m ∷ ms) = last_or m ms

module _ {J S : Type 0} (channel : SyncChannel J S) where
  -- The requests that a cycle delivers, in order, each from the state that the one before left: all
  -- of them are answered, or one fails and the rest are not sent.
  pub data Exchange
      : S → List (SyncRequest J) → List (SyncResponse J) → Option SyncFailure → S → Type 0 where
    finished : {s : S} → Exchange s [] [] none s
    failed :
        {s t : S} {request : SyncRequest J} {requests : List (SyncRequest J)} {e : SyncFailure}
        → deliver channel request s ≡ (err e, t)
        → Exchange s (request ∷ requests) [] (some e) t
    answered :
        {s t u : S} {request : SyncRequest J} {requests : List (SyncRequest J)}
        {response : SyncResponse J} {responses : List (SyncResponse J)} {o : Option SyncFailure}
        → deliver channel request s ≡ (ok response, t)
        → Exchange t requests responses o u
        → Exchange s (request ∷ requests) (response ∷ responses) o u

  -- What the answers of a cycle add up to.
  pub gathered : SyncOutcome J → List (SyncResponse J) → SyncOutcome J
  gathered start responses = record {
    favourite_records = start.favourite_records ++ concat (map (λ r. r.favourites) responses);
    history_records = start.history_records ++ concat (map (λ r. r.history) responses);
    server_revision = last_or start.server_revision (map (λ r. r.server_revision) responses);
    batches = start.batches + length responses;
    pushed_favourites = start.pushed_favourites;
    pushed_history = start.pushed_history;
  }

  abbrev pub reported : SyncOutcome J → Option SyncFailure → Result SyncFailure (SyncOutcome J)
  reported outcome none = ok outcome
  reported outcome (some e) = err e

  gathered-absorb :
      (start : SyncOutcome J) (r : SyncResponse J) (rs : List (SyncResponse J))
      → gathered (absorb start r) rs ≡ gathered start (r ∷ rs)
  unfolding gathered absorb
  gathered-absorb start r rs =
      let counted : (start.batches + 1) + length rs ≡ start.batches + suc (length rs) =
        omega arith in
      rw (append_assoc start.favourite_records, append_assoc start.history_records, counted) refl

  gathered-none : (start : SyncOutcome J) → gathered start [] ≡ start
  unfolding gathered
  gathered-none start =
      let counted : start.batches + 0 ≡ start.batches = omega arith in
      rw (append-nil start.favourite_records, append-nil start.history_records, counted) refl

  -- Some exchange of the requests took place and accounts for the result.
  abbrev pub Settled :
      List (SyncRequest J) → SyncOutcome J → S → Result SyncFailure (SyncOutcome J) × S → Type 0
  Settled requests outcome s result =
      (responses : List (SyncResponse J)) × ((o : Option SyncFailure) × Exchange s requests
          responses o result.1
        × (result.0 ≡ reported (gathered outcome responses) o))

  deliver_all-Exchange :
      (requests : List (SyncRequest J)) (outcome : SyncOutcome J) (s : S)
      → Settled requests outcome s (deliver_all channel requests outcome s)
  unfolding deliver_all
  deliver_all-Exchange [] outcome s = ([], (none, finished, ap ok (sym (gathered-none outcome))))
  deliver_all-Exchange (request ∷ requests) outcome s =
      go (deliver channel request s) refl (λ o t. deliver_all-Exchange requests o t)
    where
      go :
          (x : Result SyncFailure (SyncResponse J) × S)
          → deliver channel request s ≡ x
          → ((o : SyncOutcome J) (t : S) → Settled requests o t (deliver_all channel requests o t))
          → Settled (request ∷ requests) outcome s (elim x.0 [
            | err e ↦ (err e, x.1)
            | ok response ↦ deliver_all channel requests (absorb outcome response) x.1
          ])
      go (err e, t) h rest = ([], (some e, failed h, refl))
      go (ok response, t) h rest =
          let (responses, (o, run, same)) = rest (absorb outcome response) t in
          (
            response ∷ responses,
            (
              o,
              answered h run,
              same ∙ ap (λ g. reported g o) (gathered-absorb outcome response responses),
            ),
          )

or_pull-ne :
    {J : Type 0} (n : ℕ) (requests : List (SyncRequest J)) → 0 < length (or_pull n requests)
unfolding or_pull
or_pull-ne n [] = omega arith
or_pull-ne n (request ∷ requests) = omega arith

module _ {J A : Type 0} (carry : SyncRequest J → List A) where
  -- The request that only pulls adds nothing to what the requests carry.
  concat-or_pull :
      (n : ℕ) (requests : List (SyncRequest J))
      → ((since : Option ℕ)
          → carry (record { since_revision = since; favourites = none; history = none }) ≡ [])
      → concat (map carry (or_pull n requests)) ≡ concat (map carry requests)
  unfolding or_pull
  concat-or_pull n [] h = rw h refl
  concat-or_pull n (request ∷ requests) h = refl

module _ {J F H : Type 0} (favourite : Synced F FavouritePush) (entry : Synced H (HistoryPush J))
    (tombstone : String → String) (profile : LocalProfile F H) (state : SyncState F H) where
  -- The requests of a cycle carry the changes between the device's base and its profile, each once and
  -- in order, for both collections.
  pub sync_requests_complete :
      let requests = sync_requests favourite entry tombstone profile state in
      let favourites = diff favourite tombstone state.favourites profile.favourites in
      let history = diff entry tombstone state.history profile.playback_history in
      (concat (map (λ r. upserts_of r.favourites) requests) ≡ favourites.upserts)
      × (concat (map (λ r. deletes_of r.favourites) requests) ≡ favourites.deletes)
      × (concat (map (λ r. upserts_of r.history) requests) ≡ history.upserts)
      × (concat (map (λ r. deletes_of r.history) requests) ≡ history.deletes)
  unfolding sync_requests
  sync_requests_complete =
      let all =
        chunk_requests_complete (diff favourite tombstone state.favourites profile.favourites)
          (diff entry tombstone state.history profile.playback_history) state.server_revision in
      (
        concat-or_pull (λ r. upserts_of r.favourites) state.server_revision _ (λ since. refl)
            ∙ all.0,
        concat-or_pull (λ r. deletes_of r.favourites) state.server_revision _ (λ since. refl)
            ∙ all.1,
        concat-or_pull (λ r. upserts_of r.history) state.server_revision _ (λ since. refl) ∙ all.2,
        concat-or_pull (λ r. deletes_of r.history) state.server_revision _ (λ since. refl) ∙ all.3,
      )

module _ {J S F H : Type 0} (favourite : Synced F FavouritePush) (entry : Synced H (HistoryPush J))
    (tombstone : String → String) (channel : SyncChannel J S) (profile : LocalProfile F H)
    (state : SyncState F H) where
  -- A cycle makes at least one request. It delivers its requests in order until one fails. If one
  -- fails, the cycle ends with that failure; otherwise its outcome has the records of all the answers
  -- in order, the revision of the last answer, and the number of answers as the number of batches.
  pub sync_once-Exchange :
      (s : S)
      → (0 < length (sync_requests favourite entry tombstone profile state))
        × Settled channel
            (sync_requests favourite entry tombstone profile state)
            (start_outcome favourite entry tombstone profile state)
            s
            (sync_once favourite entry tombstone channel profile state s)
  unfolding sync_once sync_requests
  sync_once-Exchange s = (
    or_pull-ne state.server_revision _,
    deliver_all-Exchange channel (sync_requests favourite entry tombstone profile state) _ s,
  )

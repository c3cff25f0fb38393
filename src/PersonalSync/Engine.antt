-- ===== src/PersonalSync/Engine.antt =====
-- One push and pull cycle: src/personal_sync/engine.rs, over the channel trait of
-- src/personal_sync/transport.rs. `S` is the state of a channel, which a call takes and returns.
pub mod Deliver
pub mod Cycle
mod Tests
use Prim.Native.String.{String}
use rockcast.Prelude.{
  ℕ, suc, ◌+◌, ◌*◌, ◌^◌, ◌-◌, min, Bool, true, false, Option, none, some, List, [], ◌∷◌, ◌++◌,
  length, ltb, if◌then◌else◌,
}
pub use rockcast.Prelude.Results.{Result, err, ok}
use rockcast.PersonalSync.{
  Changes, FavouritePush, HistoryPush, SyncRequest, FavouriteRecord, HistoryRecord, SyncResponse,
}
use rockcast.PersonalSync.Chunks.{is_empty, chunk_requests}
use rockcast.PersonalSync.Diff.{Synced, diff}

pub data SyncTransportError : Type 0 where
  unauthorized : SyncTransportError
  rate_limited : SyncTransportError
  rejected : String → SyncTransportError
  unavailable : SyncTransportError
  invalid : String → SyncTransportError

-- The module of `SyncFailure` has the same words.
pub data SyncFailure : Type 0 where
  sync_rate_limited : SyncFailure
  sync_rejected : String → SyncFailure
  sync_unauthorized : SyncFailure
  sync_unavailable : SyncFailure
  local_apply : String → SyncFailure
  sync_invalid : String → SyncFailure

abbrev pub failure_of : SyncTransportError → SyncFailure
failure_of unauthorized = sync_unauthorized
failure_of rate_limited = sync_rate_limited
failure_of (rejected field) = sync_rejected field
failure_of unavailable = sync_unavailable
failure_of (invalid details) = sync_invalid details

pub record SyncChannel (J S : Type 0) : Type 0 where
  pub send : SyncRequest J → S → Result SyncTransportError (SyncResponse J) × S
  pub refresh_session : S → Result SyncTransportError Unit × S

pub record SyncOutcome (J : Type 0) : Type 0 where
  pub favourite_records : List FavouriteRecord
  pub history_records : List (HistoryRecord J)
  pub server_revision : ℕ
  pub batches : ℕ
  pub pushed_favourites : ℕ
  pub pushed_history : ℕ

-- Seconds; `saturating_mul` stops at the largest 64-bit word.
pub retry_backoff : ℕ → ℕ
retry_backoff failed_attempts =
    let shift = min failed_attempts 4 in min (60 * 2 ^ shift) (2 ^ 64 - 1)

-- The cycle's view of `SyncState` and `LocalProfile`.
pub record SyncState (F H : Type 0) : Type 0 where
  pub server_revision : ℕ
  pub favourites : List (ℕ × F)
  pub history : List (ℕ × H)

pub record LocalProfile (F H : Type 0) : Type 0 where
  pub favourites : List F
  pub playback_history : List H

module _ {J S : Type 0} where
  -- The second answer counts, whatever it is.
  abbrev pub last_try :
      Result SyncTransportError (SyncResponse J) × S → Result SyncFailure (SyncResponse J) × S
  last_try (err e, s) = (err (failure_of e), s)
  last_try (ok response, s) = (ok response, s)

module _ {J : Type 0} where
  pub absorb : SyncOutcome J → SyncResponse J → SyncOutcome J
  absorb outcome response = record {
    favourite_records = outcome.favourite_records ++ response.favourites;
    history_records = outcome.history_records ++ response.history;
    server_revision = response.server_revision;
    batches = outcome.batches + 1;
    pushed_favourites = outcome.pushed_favourites;
    pushed_history = outcome.pushed_history;
  }

module _ {J S : Type 0} (channel : SyncChannel J S) where
  pub retry :
      SyncRequest J → Result SyncTransportError Unit × S → Result SyncFailure (SyncResponse J) × S
  retry request (err e, s) = (err (failure_of e), s)
  retry request (ok unit, s) = last_try (channel.send request s)

  pub settle_answer :
      SyncRequest J
      → Result SyncTransportError (SyncResponse J) × S
      → Result SyncFailure (SyncResponse J) × S
  settle_answer request (err unauthorized, s) = retry request (channel.refresh_session s)
  settle_answer request (answer, s) = last_try (answer, s)

  pub deliver : SyncRequest J → S → Result SyncFailure (SyncResponse J) × S
  deliver request s = settle_answer request (channel.send request s)

  pub deliver_all :
      List (SyncRequest J) → SyncOutcome J → S → Result SyncFailure (SyncOutcome J) × S
  deliver_all [] outcome s = (ok outcome, s)
  deliver_all (request ∷ requests) outcome s =
      let (result, t) = deliver request s in
      elim result [
        | err e ↦ (err e, t)
        | ok response ↦ deliver_all requests (absorb outcome response) t
      ]

-- A cycle with nothing to push still asks once.
pub or_pull : {J : Type 0} → ℕ → List (SyncRequest J) → List (SyncRequest J)
or_pull revision requests =
    if is_empty requests
    then record {
      since_revision = if ltb 0 revision then some revision else none;
      favourites = none;
      history = none;
    }
      ∷ []
    else requests

module _ {J F H : Type 0} (favourite : Synced F FavouritePush) (entry : Synced H (HistoryPush J))
    (tombstone : String → String) where
  pub sync_requests : LocalProfile F H → SyncState F H → List (SyncRequest J)
  sync_requests profile state = or_pull state.server_revision (
      chunk_requests (diff favourite tombstone state.favourites profile.favourites)
        (diff entry tombstone state.history profile.playback_history) state.server_revision)

  pub start_outcome : LocalProfile F H → SyncState F H → SyncOutcome J
  start_outcome profile state =
      let favourites = diff favourite tombstone state.favourites profile.favourites in
      let history = diff entry tombstone state.history profile.playback_history in
      record {
        favourite_records = [];
        history_records = [];
        server_revision = 0;
        batches = 0;
        pushed_favourites = length favourites.upserts + length favourites.deletes;
        pushed_history = length history.upserts + length history.deletes;
      }

  pub sync_once :
      {S : Type 0}
      → SyncChannel J S
      → LocalProfile F H
      → SyncState F H
      → S
      → Result SyncFailure (SyncOutcome J) × S
  sync_once channel profile state s =
      deliver_all channel (sync_requests profile state) (start_outcome profile state) s

-- ===== src/PersonalSync/Engine/Tests.antt =====
-- A cycle of src/personal_sync/engine.rs against a scripted server.
use Prim.Native.String.{String}
use rockcast.Prelude.{ℕ, ◌==◌, ==_iff, zero, suc, ◌<◌, ◌≡◌, refl, none, some, [], ◌∷◌, map, length}
use rockcast.PersonalSync.{FavouritePush, HistoryPush, SyncRequest, SyncResponse}
use rockcast.PersonalSync.Chunks.Slices.{concat}
use rockcast.PersonalSync.Chunks.Complete.{upserts_of, deletes_of}
use rockcast.PersonalSync.Diff.{Synced, diff}
use rockcast.PersonalSync.Engine.{
  err, ok, unauthorized, SyncChannel, SyncState, LocalProfile, retry, settle_answer, deliver,
  start_outcome, sync_requests, sync_once,
}
use rockcast.PersonalSync.Engine.Deliver.{logged, deliver-calls, sent, refreshed}
use rockcast.PersonalSync.Engine.Cycle.{Settled, sync_once-Exchange, sync_requests_complete}

-- The state is what the server still refuses: with 1 the session has expired once.
abbrev answer : SyncResponse String
answer = record { server_revision = 8; server_time = "t"; favourites = []; history = [] }

abbrev server : SyncChannel String ℕ
server = record {
  send = λ request expired. elim expired [
    | zero ↦ (ok answer, zero)
    | suc n ↦ (err unauthorized, suc n)
  ];
  refresh_session = λ expired. elim expired [ zero ↦ (ok tt, zero) | suc n ↦ (ok tt, n) ];
}

abbrev pull : SyncRequest String
pull = record { since_revision = some 7; favourites = none; history = none }

expired_once : (deliver server pull 1).0 ≡ ok answer
unfolding deliver settle_answer retry
expired_once = refl

deliver-calls_example :
    ((deliver (logged server) pull (1, [])).1.1 ≡ sent pull ∷ refreshed ∷ sent pull ∷ [])
    × ((deliver (logged server) pull (1, [])).0 ≡ ok answer)
    × ((deliver server pull 1).0 ≡ (deliver (logged server) pull (1, [])).0)
deliver-calls_example = deliver-calls server pull 1 []

-- A record is its id.
abbrev favourite : Synced ℕ FavouritePush
favourite = record {
  record_id = λ n. n;
  updated_at = λ n. "t";
  same = λ a b. a == b;
  same_iff = ==_iff;
  push = λ n. record { record_id = n; station_id = "s"; added_at = "t"; updated_at = "t" };
}

abbrev entry : Synced ℕ (HistoryPush String)
entry = record {
  record_id = λ n. n;
  updated_at = λ n. "t";
  same = λ a b. a == b;
  same_iff = ==_iff;
  push = λ n. record {
    record_id = n;
    station_id = "s";
    started_at = "t";
    last_played_at = "t";
    ended_at = none;
    play_duration_ms = none;
    metadata = none;
    updated_at = "t";
  };
}

stamp : String → String
stamp s = s

abbrev profile : LocalProfile ℕ ℕ
profile = record { favourites = 1 ∷ 2 ∷ []; playback_history = [] }

abbrev state : SyncState ℕ ℕ
state = record { server_revision = 7; favourites = (1, 1) ∷ (3, 3) ∷ []; history = [] }

sync_requests_complete_example :
    (concat (map (λ r. upserts_of r.favourites) (sync_requests favourite entry stamp profile state))
      ≡ (diff favourite stamp state.favourites profile.favourites).upserts)
    × (concat
          (map (λ r. deletes_of r.favourites) (sync_requests favourite entry stamp profile state))
        ≡ (diff favourite stamp state.favourites profile.favourites).deletes)
    × (concat (map (λ r. upserts_of r.history) (sync_requests favourite entry stamp profile state))
        ≡ (diff entry stamp state.history profile.playback_history).upserts)
    × (concat (map (λ r. deletes_of r.history) (sync_requests favourite entry stamp profile state))
        ≡ (diff entry stamp state.history profile.playback_history).deletes)
sync_requests_complete_example = sync_requests_complete favourite entry stamp profile state

sync_once-Exchange_example :
    (0 < length (sync_requests favourite entry stamp profile state))
    × Settled server
        (sync_requests favourite entry stamp profile state)
        (start_outcome favourite entry stamp profile state)
        1
        (sync_once favourite entry stamp server profile state 1)
sync_once-Exchange_example = sync_once-Exchange favourite entry stamp server profile state 1

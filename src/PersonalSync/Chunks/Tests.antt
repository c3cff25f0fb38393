-- ===== src/PersonalSync/Chunks/Tests.antt =====
-- Runs of src/personal_sync/state.rs's chunking.
use Prim.Native.String.{String}
use rockcast.Prelude.{ℕ, ◌≡◌, refl, none, some, [], ◌∷◌, All}
use rockcast.PersonalSync.{Changes, FavouritePush, HistoryPush, SyncRequest, no_changes}
use rockcast.PersonalSync.Chunks.{
  chunks, chunks_loop, map_range, get_or_empty, collection_chunks, keep_changes, chunk_requests,
}
use rockcast.PersonalSync.Chunks.Complete.{CarriesLegal, chunk_requests-IsLegal}

abbrev pushed : Changes FavouritePush
pushed = record {
  upserts = record { record_id = 7; station_id = "a"; added_at = "t"; updated_at = "t" } ∷ [];
  deletes =
      record { record_id = 9; updated_at = "t" } ∷ record { record_id = 8; updated_at = "u" } ∷ [];
}

abbrev played : Changes (HistoryPush String)
played = no_changes

chunks_run : chunks {A = ℕ} 2 (1 ∷ 2 ∷ 3 ∷ []) ≡ (1 ∷ 2 ∷ []) ∷ (3 ∷ []) ∷ []
unfolding chunks chunks_loop
chunks_run = refl

abbrev first_request : SyncRequest String
first_request = record { since_revision = some 5; favourites = some pushed; history = none }

requests_run : chunk_requests pushed played 5 ≡ first_request ∷ []
unfolding chunk_requests collection_chunks chunks chunks_loop map_range get_or_empty keep_changes
requests_run = refl

chunk_requests-IsLegal_example :
    All (λ r. CarriesLegal r.favourites × CarriesLegal r.history) (chunk_requests pushed played 5)
chunk_requests-IsLegal_example = chunk_requests-IsLegal pushed played 5

-- ===== src/PersonalSync.antt =====
-- src/personal_sync/: one device's favourites and history against the RockServer account.
-- This file has the wire types of contract.rs; record ids are numbers (UUIDs), time stamps are the
-- texts that travel, and `J` stands for the JSON object type of serde_json.
pub mod Chunks
pub mod Diff
pub mod Engine
use Prim.Native.String.{String}
use rockcast.Prelude.{ℕ, Bool, Option, List, []}

pub record FavouritePush : Type 0 where
  pub record_id : ℕ
  pub station_id : String
  pub added_at : String
  pub updated_at : String

pub record HistoryPush (J : Type 0) : Type 0 where
  pub record_id : ℕ
  pub station_id : String
  pub started_at : String
  pub last_played_at : String
  pub ended_at : Option String
  pub play_duration_ms : Option ℕ
  pub metadata : Option J
  pub updated_at : String

pub record RecordDelete : Type 0 where
  pub record_id : ℕ
  pub updated_at : String

-- `FavouriteChanges` and `HistoryChanges`.
pub record Changes {ℓ} (U : Type ℓ) : Type ℓ where
  pub upserts : List U
  pub deletes : List RecordDelete

abbrev pub no_changes {ℓ} : {U : Type ℓ} → Changes U
no_changes = record { upserts = []; deletes = [] }

pub record SyncRequest (J : Type 0) : Type 0 where
  pub since_revision : Option ℕ
  pub favourites : Option (Changes FavouritePush)
  pub history : Option (Changes (HistoryPush J))

pub record FavouriteRecord : Type 0 where
  pub record_id : ℕ
  pub station_id : Option String
  pub added_at : String
  pub updated_at : String
  pub deleted_at : Option String

pub record HistoryRecord (J : Type 0) : Type 0 where
  pub record_id : ℕ
  pub station_id : Option String
  pub started_at : String
  pub last_played_at : String
  pub ended_at : Option String
  pub play_duration_ms : Option ℕ
  pub metadata : Option J
  pub updated_at : String
  pub deleted_at : Option String

pub record SyncResponse (J : Type 0) : Type 0 where
  pub server_revision : ℕ
  pub server_time : String
  pub favourites : List FavouriteRecord
  pub history : List (HistoryRecord J)

-- ===== src/PersonalData.antt =====
-- src/personal_data/: the favourites and the playback history that a device keeps. This file has the
-- records of records.rs that synchronisation touches; ids are numbers (UUIDs), time stamps the texts of
-- the file, and `J` is serde_json's object type.
pub mod SyncApply
pub mod Favourites
pub mod Resolver
pub mod Remap
pub mod History
use Prim.Native.String.{String}
use rockcast.Prelude.{ℕ, Option, none}

pub record DisplayMetadata : Type 0 where
  pub last_known_name : Option String
  pub catalog_version : Option String

pub record HistoryMetadata (J : Type 0) : Type 0 where
  pub last_known_name : Option String
  pub catalog_version : Option String
  pub source : Option String
  pub extra : J

pub record Favourite : Type 0 where
  pub record_id : ℕ
  pub station_id : String
  pub added_at : String
  pub updated_at : String
  pub metadata : DisplayMetadata

pub record PlaybackHistoryEntry (J : Type 0) : Type 0 where
  pub record_id : ℕ
  pub station_id : String
  pub started_at : String
  pub last_played_at : String
  pub updated_at : String
  pub ended_at : Option String
  pub play_duration_ms : Option ℕ
  pub metadata : HistoryMetadata J

abbrev pub no_display : DisplayMetadata
no_display = record { last_known_name = none; catalog_version = none }

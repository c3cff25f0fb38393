-- ===== src/PersonalData/SyncApply.antt =====
-- The loops of `apply_incoming_records` in src/personal_data/sync_apply.rs, which take the records that
-- a sync cycle pulled into the profile. The source has the loop twice, for favourites and for history;
-- here it is written once, over what the two differ in. `parse_time` is the time crate's parser: an
-- instant as a number, or none.
pub mod Merge
pub mod Distinct
mod Tests
use Prim.Native.String.{String}
use rockcast.Prelude.{
  ℕ, ◌+◌, Bool, true, false, Option, none, some, List, [], ◌∷◌, ◌++◌, length, ltb, ◌==◌,
  if◌then◌else◌, ◌≡◌, refl,
}
use rockcast.PersonalSync.{FavouriteRecord, HistoryRecord}
use rockcast.PersonalData.{
  Favourite, PlaybackHistoryEntry, DisplayMetadata, HistoryMetadata, no_display,
}

-- A wire record `W` and the profile's record `R` for it: `build` takes the station and the record that
-- is replaced, if one is.
pub record Incoming (W R : Type 0) : Type 0 where
  pub wire_id : W → ℕ
  pub is_deleted : W → Bool
  pub wire_station : W → Option String
  pub wire_updated_at : W → String
  pub record_id : R → ℕ
  pub updated_at : R → String
  pub build : W → String → Option R → R
  pub build_id :
      (w : W) (station : String) (o : Option R) → record_id (build w station o) ≡ wire_id w
  pub build_updated_at :
      (w : W) (station : String) (o : Option R) → updated_at (build w station o) ≡ wire_updated_at w

abbrev pub is_some {ℓ} : {A : Type ℓ} → Option A → Bool
is_some none = false
is_some (some a) = true

-- The display metadata of a favourite survives its replacement.
abbrev pub kept_metadata : Option Favourite → DisplayMetadata
kept_metadata none = no_display
kept_metadata (some local) = local.metadata

abbrev pub favourites_incoming : Incoming FavouriteRecord Favourite
favourites_incoming = record {
  wire_id = λ w. w.record_id;
  is_deleted = λ w. is_some w.deleted_at;
  wire_station = λ w. w.station_id;
  wire_updated_at = λ w. w.updated_at;
  record_id = λ r. r.record_id;
  updated_at = λ r. r.updated_at;
  build = λ w station o. record {
    record_id = w.record_id;
    station_id = station;
    added_at = w.added_at;
    updated_at = w.updated_at;
    metadata = kept_metadata o;
  };
  build_id = λ w station o. refl;
  build_updated_at = λ w station o. refl;
}

-- `parse_metadata` is serde's reading of the metadata object, with its default.
abbrev pub history_incoming :
    {J : Type 0}
    → (Option J → HistoryMetadata J)
    → Incoming (HistoryRecord J) (PlaybackHistoryEntry J)
history_incoming parse_metadata = record {
  wire_id = λ w. w.record_id;
  is_deleted = λ w. is_some w.deleted_at;
  wire_station = λ w. w.station_id;
  wire_updated_at = λ w. w.updated_at;
  record_id = λ r. r.record_id;
  updated_at = λ r. r.updated_at;
  build = λ w station o. record {
    record_id = w.record_id;
    station_id = station;
    started_at = w.started_at;
    last_played_at = w.last_played_at;
    updated_at = w.updated_at;
    ended_at = w.ended_at;
    play_duration_ms = w.play_duration_ms;
    metadata = parse_metadata w.metadata;
  };
  build_id = λ w station o. refl;
  build_updated_at = λ w station o. refl;
}

module _ {W R : Type 0} (incoming : Incoming W R) (parse_time : String → Option ℕ) where
  pub find : ℕ → List R → Option R
  find id [] = none
  find id (r ∷ records) = if incoming.record_id r == id then some r else find id records

  pub retain_other : ℕ → List R → List R
  retain_other id [] = []
  retain_other id (r ∷ records) =
      if incoming.record_id r == id then retain_other id records else r ∷ retain_other id records

  -- `*local = new` through the reference that `find` gave.
  pub replace : ℕ → R → List R → List R
  replace id new [] = []
  replace id new (r ∷ records) =
      if incoming.record_id r == id then new ∷ records else r ∷ replace id new records

  -- `parse_time(&local.updated_at).is_ok_and(|local| incoming > local)`
  pub is_newer : ℕ → R → Bool
  is_newer t local = elim (parse_time (incoming.updated_at local)) [
    | none ↦ false
    | some old ↦ ltb old t
  ]

  pub place : W → String → ℕ → List R × ℕ → List R × ℕ
  place w station t (records, applied) = elim (find (incoming.wire_id w) records) [
    | none ↦ (records ++ (incoming.build w station none ∷ []), applied + 1)
    | some local ↦
        if is_newer t local
        then (
          replace (incoming.wire_id w) (incoming.build w station (some local)) records,
          applied + 1,
        )
        else (records, applied)
  ]

  pub apply_one : List R × ℕ → W → List R × ℕ
  apply_one (records, applied) w =
      if incoming.is_deleted w
      then (let kept = retain_other (incoming.wire_id w) records in
          (kept, applied + (if length kept == length records then 0 else 1)))
      else elim (incoming.wire_station w) [
        | none ↦ (records, applied)
        | some station ↦ elim (parse_time (incoming.wire_updated_at w)) [
          | none ↦ (records, applied)
          | some t ↦ place w station t (records, applied)
        ]
      ]

  pub apply_all : List R × ℕ → List W → List R × ℕ
  apply_all x [] = x
  apply_all x (w ∷ ws) = apply_all (apply_one x w) ws

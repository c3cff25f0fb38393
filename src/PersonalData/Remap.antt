-- ===== src/PersonalData/Remap.antt =====
-- `remap_legacy_station_ids` of src/personal_data/mod.rs: stored ids become those of the catalogue, and favourites
-- of one station become one.
pub mod Single
mod Tests
use Prim.Native.Nat.{Ordering}
use Prim.Native.String.{String, compare}
use text.Mathlib.Text.{◌==◌ as str_eq}
use rockcast.Prelude.{Bool, true, false, Option, none, some, List, [], ◌∷◌, map, if◌then◌else◌}
use rockcast.Prelude.Results.{Result, err, ok}
use rockcast.Prelude.Sorting.{sort_by}
use rockcast.PersonalData.{Favourite, PlaybackHistoryEntry}
use rockcast.PersonalData.Resolver.{CatalogResolver, resolve}

-- `if let Ok(id) = resolve(…)`
pub current_id : CatalogResolver → String → String
current_id r id = elim (resolve r id) [
  | none ↦ id
  | some result ↦ elim result [ err e ↦ id | ok target ↦ target ]
]

pub remap_favourite : CatalogResolver → Favourite → Favourite
remap_favourite r f = record f { station_id = current_id r f.station_id }

pub remap_entry : {J : Type 0} → CatalogResolver → PlaybackHistoryEntry J → PlaybackHistoryEntry J
remap_entry r e = record e { station_id = current_id r e.station_id }

-- `sort_by_key(|f| (f.added_at, f.station_id))`
pub added_first : Favourite → Favourite → Bool
added_first a b = elim (compare a.added_at b.added_at) [
  | Ordering.lt ↦ true
  | Ordering.gt ↦ false
  | Ordering.eq ↦ elim (compare a.station_id b.station_id) [ Ordering.gt ↦ false | _ ↦ true ]
]

pub is_later : String → String → Bool
is_later a b = elim (compare a b) [ Ordering.gt ↦ true | _ ↦ false ]

abbrev pub or_else : Option String → Option String → Option String
or_else (some a) other = some a
or_else none other = other

pub combine : Favourite → Favourite → Favourite
combine existing value =
    if is_later value.updated_at existing.updated_at
    then record existing { updated_at = value.updated_at; metadata = value.metadata }
    else record existing {
      metadata = record {
        last_known_name = or_else existing.metadata.last_known_name value.metadata.last_known_name;
        catalog_version = or_else existing.metadata.catalog_version value.metadata.catalog_version;
      };
    }

pub merge_one : Favourite → List Favourite → List Favourite
merge_one value [] = value ∷ []
merge_one value (item ∷ items) =
    let rest = merge_one value items in
    if str_eq item.station_id value.station_id then combine item value ∷ items else item ∷ rest

pub merge_all : List Favourite → List Favourite → List Favourite
merge_all [] merged = merged
merge_all (value ∷ values) merged = merge_all values (merge_one value merged)

pub remap_favourites : CatalogResolver → List Favourite → List Favourite
remap_favourites r favourites =
    merge_all (sort_by added_first (map (remap_favourite r) favourites)) []

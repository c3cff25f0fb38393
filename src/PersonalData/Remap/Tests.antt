-- ===== src/PersonalData/Remap/Tests.antt =====
-- Favourites remapped by src/personal_data/mod.rs.
use Prim.Native.String.{String}
use rockcast.Prelude.{none, some, [], ◌∷◌, map, ◌≡◌, refl}
use rockcast.PersonalData.{Favourite}
use rockcast.PersonalData.Favourites.{is_favourite}
use rockcast.PersonalData.Favourites.Single.{AreSingle}
use rockcast.PersonalData.Resolver.{CatalogResolver, from_stations}
use rockcast.PersonalData.Remap.{
  is_later, remap_favourite, combine, merge_one, merge_all, remap_favourites,
}
use rockcast.PersonalData.Remap.Single.{remap_favourites_lem}

abbrev resolver : CatalogResolver
resolver = from_stations (record { id = "rock"; legacy_ids = "old-rock" ∷ [] } ∷ []) none

abbrev kept : String → String → Favourite
kept station ts = record {
  record_id = 1;
  station_id = station;
  added_at = ts;
  updated_at = ts;
  metadata = record { last_known_name = some ts; catalog_version = none };
}

-- The later of the two leaves its name.
combined :
    combine (kept "rock" "t1") (kept "rock" "t2") ≡ record (kept "rock" "t2") { added_at = "t1" }
unfolding combine is_later
combined = refl

merges :
    merge_all (kept "rock" "t1" ∷ kept "metal" "t2" ∷ kept "rock" "t3" ∷ []) []
    ≡ record (kept "rock" "t3") { added_at = "t1" } ∷ kept "metal" "t2" ∷ []
unfolding merge_all merge_one combine is_later
merges = refl

remap_favourites_lem_example :
    AreSingle (remap_favourites resolver (kept "rock" "t1" ∷ kept "old-rock" "t2" ∷ []))
    × ((x : String)
        → is_favourite x (remap_favourites resolver (kept "rock" "t1" ∷ kept "old-rock" "t2" ∷ []))
          ≡ is_favourite x
              (map (remap_favourite resolver) (kept "rock" "t1" ∷ kept "old-rock" "t2" ∷ [])))
remap_favourites_lem_example =
    remap_favourites_lem resolver (kept "rock" "t1" ∷ kept "old-rock" "t2" ∷ [])

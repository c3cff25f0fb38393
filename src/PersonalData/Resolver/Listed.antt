-- ===== src/PersonalData/Resolver/Listed.antt =====
-- `CatalogResolver::from_stations` and `resolve` of src/personal_data/records.rs, at the ids of the catalogue.
use Prim.Native.String.{String}
use text.Mathlib.TextEquality.{eq_iff}
use rockcast.Prelude.{true, Option, some, List, [], ◌∷◌, All, All-map, ◌≡◌, refl, arith}
use rockcast.Prelude.TextMaps.{mem_text}
use rockcast.Prelude.Results.{ok}
use rockcast.PersonalData.Resolver.{
  Tombstone, Station, CatalogResolver, insert_legacies, collect_stations, from_stations,
  with_tombstones, valid_station_id, resolve,
}
use rockcast.PersonalData.Resolver.Names.{listed, resolve-Names}

abbrev after : Station → CatalogResolver → CatalogResolver
after s r = record r {
  active = s.id ∷ r.active;
  legacy = insert_legacies s.id s.legacy_ids r.legacy;
}

collect-mem :
    (x : String) (stations : List Station) (r : CatalogResolver)
    → mem_text x r.active ≡ true
    → mem_text x (collect_stations stations r).active ≡ true
unfolding collect_stations mem_text
collect-mem x [] r h = h
collect-mem x (s ∷ stations) r h = collect-mem x stations (after s r) (ground arith)

members_active :
    (stations : List Station) (r : CatalogResolver)
    → All (λ (t : Station). mem_text t.id (collect_stations stations r).active ≡ true) stations
unfolding collect_stations mem_text
members_active [] r = tt
members_active (s ∷ stations) r = (
  collect-mem s.id stations (after s r) (ground (arith, eq_iff s.id s.id)),
  members_active stations (after s r),
)

-- With any catalogue and any tombstones, the id of a station of that catalogue resolves to itself when it
-- has the form of an id.
pub resolve-listed :
    (stations : List Station) (version : Option String) (tombstones : List Tombstone)
    → All
        (λ (s : Station).
          valid_station_id s.id ≡ true
          → resolve (with_tombstones (from_stations stations version) tombstones) s.id
            ≡ some (ok s.id))
        stations
unfolding from_stations with_tombstones
resolve-listed stations version tombstones =
    let r : CatalogResolver = with_tombstones (from_stations stations version) tombstones in
    let blank : CatalogResolver = record {
      active = [];
      legacy = [];
      tombstones = [];
      catalog_version = version;
    } in
    All-map stations (λ s there valid. (resolve-Names r s.id s.id valid).1 (listed there refl))
      (members_active stations blank)

-- ===== src/Stations/Catalog/Snapshot/Listed.antt =====
-- `catalog_snapshot` of src/stations/catalog.rs and `CatalogResolver::resolve` of src/personal_data/records.rs.
use mathlib.Core.Path.{subst}
use rockcast.Prelude.{true, some, List, [], ◌∷◌, map, All, ◌≡◌, sym}
use rockcast.Prelude.Results.{ok}
use rockcast.PersonalData.Resolver.{Tombstone, CatalogResolver, resolve, valid_station_id}
use rockcast.PersonalData.Resolver
use rockcast.PersonalData.Resolver.Listed.{resolve-listed}
use rockcast.Stations.Catalog.{Station, CatalogStation, Document, station_with, is_stable_id}
use rockcast.Stations.Catalog.Fits.{described, DescribesAll, no_more, and_then}
use rockcast.Stations.Catalog.Accepts.{Accepted}
use rockcast.Stations.Catalog.Snapshot.{resolver_station, tombstones_of, resolver_from_document}

stable_ids :
    (ss : List CatalogStation) (ts : List Station)
    → DescribesAll ss ts
    → All (λ (t : Station). is_stable_id t.id ≡ true) ts
unfolding station_with
stable_ids [] _ no_more = tt
stable_ids (s ∷ ss) _ (and_then _ t _ ts (described _ f _ same) rest) =
    (subst (λ (z : Station). is_stable_id z.id ≡ true) (sym same) f.stable, stable_ids ss ts rest)

pub ResolvesAll : CatalogResolver → List Station → Type 0
ResolvesAll r stations = All (λ (t : Station). resolve r t.id ≡ some (ok t.id)) stations

resolves_listed :
    (r : CatalogResolver) (ts : List Station)
    → All
        (λ (s : Resolver.Station). valid_station_id s.id ≡ true → resolve r s.id ≡ some (ok s.id))
        (map resolver_station ts)
    → All (λ (t : Station). is_stable_id t.id ≡ true) ts
    → ResolvesAll r ts
unfolding ResolvesAll resolver_station is_stable_id
resolves_listed r [] h k = tt
resolves_listed r (t ∷ ts) h k = (h.0 k.0, resolves_listed r ts h.1 k.1)

pub resolves_itself :
    (d e : Document) (ts : List Station)
    → Accepted d ts
    → ResolvesAll (resolver_from_document ts e) ts
unfolding resolver_from_document
resolves_itself d e ts a =
    resolves_listed (resolver_from_document ts e) ts
      (resolve-listed (map resolver_station ts) (some e.catalog_version)
        (tombstones_of e.tombstones))
      (stable_ids d.stations ts a.described)

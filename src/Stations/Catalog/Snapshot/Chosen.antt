-- ===== src/Stations/Catalog/Snapshot/Chosen.antt =====
-- Which source `catalog_snapshot` of src/stations/catalog.rs takes, and what it is good for.
use mathlib.Core.Path.{subst}
use Prim.Native.String.{String}
use rockcast.Prelude.{
  Bool, Option, none, some, List, [], ◌∷◌, ◌++◌, All, ◌≡◌, refl, sym, ◌∙◌, inl, inr, Option-cases,
}
use rockcast.Prelude.Results.{Result, err, ok, Result-cases}
use rockcast.PersonalData.Resolver.{CatalogResolver}
use rockcast.Stations.Catalog.{
  Station, Stopped, Document, parse_document, parse_stations_json, stations_from_document,
}
use rockcast.Stations.Catalog.Accepts.{Accepted, stations_from_document-Accepted}
use rockcast.Stations.Catalog.Snapshot.{
  resolver_from_document, Manifest, Search, parse_override_with_resolver, catalog_snapshot,
}
use rockcast.Stations.Catalog.Snapshot.Listed.{ResolvesAll, resolves_itself}

-- The stations and the resolver of an accepted document.
pub record Usable (stations : List Station) (resolver : CatalogResolver) : Type 0 where
  pub document : Document
  pub accepted : Accepted document stations
  pub with_resolver : resolver ≡ resolver_from_document stations document
  pub listed : ResolvesAll resolver stations

pub document-Usable :
    (d : Document) (ts : List Station)
    → stations_from_document d ≡ ok ts
    → Usable ts (resolver_from_document ts d)
document-Usable d ts e =
    let a : Accepted d ts = (stations_from_document-Accepted d ts).0 e in
    record { document = d; accepted = a; with_resolver = refl; listed = resolves_itself d d ts a }

module _ (from_str : String → Result String Document)
    (manifest_from_str : String → Result String Manifest)
    (embedded_catalog embedded_manifest : String) (read_file : String → Option String) where
  abbrev override : String → Result Stopped (List Station × CatalogResolver)
  override =
      parse_override_with_resolver from_str manifest_from_str embedded_catalog embedded_manifest
        read_file

  abbrev snapshot : (String → Bool) → Option String → List String → Search
  snapshot =
      catalog_snapshot from_str manifest_from_str embedded_catalog embedded_manifest read_file

  pub stations_of_document :
      (raw : String) (d : Document)
      → parse_document from_str raw ≡ ok d
      → parse_stations_json from_str raw ≡ stations_from_document d
  unfolding parse_stations_json
  stations_of_document raw d e = rw (parse_stations_json, e) refl

  override_fitting :
      (raw : String) (d : Document) (ts : List Station)
      → parse_document from_str raw ≡ ok d
      → Accepted d ts
      → override raw ≡ ok (ts, resolver_from_document ts d)
  unfolding parse_override_with_resolver
  override_fitting raw d ts read a =
      let made : parse_stations_json from_str raw ≡ ok ts =
        stations_of_document raw d read ∙ (stations_from_document-Accepted d ts).1 a in
      rw (parse_override_with_resolver, read, made) refl

  pub override-Usable :
      (raw : String) (ts : List Station) (r : CatalogResolver)
      → override raw ≡ ok (ts, r)
      → Usable ts r
  unfolding parse_override_with_resolver
  override-Usable raw ts r = elim (Result-cases (parse_document from_str raw)) [
    | inl (x, bad) ↦ rw (parse_override_with_resolver, bad) (λ e. absurd cc)
    | inr (d, read) ↦ elim (Result-cases (parse_stations_json from_str raw)) [
      | inl (x, bad) ↦ rw (parse_override_with_resolver, read, bad) (λ e. absurd cc)
      | inr (made, good) ↦
          rw (parse_override_with_resolver, read, good)
            (λ e.
              let made_here : (made, resolver_from_document made d) ≡ (ts, r) = cc in
              subst (λ (p : List Station × CatalogResolver). Usable p.0 p.1) made_here
                (document-Usable d made (sym (stations_of_document raw d read) ∙ good)))
    ]
  ]

  -- The file is not there, or holds no catalogue that is accepted.
  pub Rejected : String → Type 0
  Rejected path =
      (raw : String) (d : Document) (ts : List Station)
      → read_file path ≡ some raw
      → parse_document from_str raw ≡ ok d
      → Accepted d ts
      → ⊥

  pub override-Rejected :
      (path raw : String)
      → Rejected path
      → read_file path ≡ some raw
      → (p : List Station × CatalogResolver) → override raw ≡ ok p
      → ⊥
  unfolding parse_override_with_resolver Rejected
  override-Rejected path raw wrong there (ts, r) =
      elim (Result-cases (parse_document from_str raw)) [
        | inl (x, bad) ↦ rw (parse_override_with_resolver, bad) (λ e. absurd cc)
        | inr (d, read) ↦ elim (Result-cases (parse_stations_json from_str raw)) [
          | inl (x, bad) ↦ rw (parse_override_with_resolver, read, bad) (λ e. absurd cc)
          | inr (made, good) ↦
              let a : Accepted d made =
                (stations_from_document-Accepted d made).0
                  (sym (stations_of_document raw d read) ∙ good) in
              λ e. wrong raw d made there read a
        ]
      ]

  pub absent-Rejected : (path : String) → read_file path ≡ none → Rejected path
  unfolding Rejected
  absent-Rejected path missing raw d ts there read a = absurd cc

  pub refused-Rejected :
      (path raw : String) (x : Stopped)
      → read_file path ≡ some raw
      → override raw ≡ err x
      → Rejected path
  unfolding Rejected
  refused-Rejected path raw x there bad text d ts again read a =
      let same : raw ≡ text = cc in
      let good = override_fitting text d ts read a in
      let bad_text : override text ≡ err x = subst (λ (t : String). override t ≡ err x) same bad in
      absurd cc

  pub skip-Rejected :
      (writes : String → Bool) (app_data : Option String) (path : String) (paths : List String)
      → Rejected path
      → snapshot writes app_data (path ∷ paths) ≡ snapshot writes app_data paths
  unfolding catalog_snapshot
  skip-Rejected writes app_data path paths wrong = elim (Option-cases (read_file path)) [
    | inl missing ↦ rw (catalog_snapshot, missing) refl
    | inr (raw, there) ↦ elim (Result-cases (override raw)) [
      | inl (x, bad) ↦ rw (catalog_snapshot, there, bad) refl
      | inr (p, good) ↦ absurd (override-Rejected path raw wrong there p good)
    ]
  ]

  pub All-Rejected :
      (writes : String → Bool) (app_data : Option String) (before paths : List String)
      → All Rejected before
      → snapshot writes app_data (before ++ paths) ≡ snapshot writes app_data paths
  All-Rejected writes app_data [] paths wrong = refl
  All-Rejected writes app_data (p ∷ before) paths wrong =
      skip-Rejected writes app_data p (before ++ paths) wrong.0
      ∙ All-Rejected writes app_data before paths wrong.1

  -- The first override that can be read and is accepted is the catalogue, whatever stands in the sources before
  -- and after it, and then no copy of the built-in catalogue is written.
  pub catalog_snapshot_first :
      (writes : String → Bool) (app_data : Option String) (before : List String) (path : String)
      (paths : List String) (raw : String) (d : Document) (ts : List Station)
      → All Rejected before
      → read_file path ≡ some raw
      → parse_document from_str raw ≡ ok d
      → Accepted d ts
      → catalog_snapshot from_str manifest_from_str embedded_catalog embedded_manifest read_file
          writes app_data
          (before ++ (path ∷ paths))
        ≡ record {
          created = none;
          found = ok (record { stations = ts; resolver = resolver_from_document ts d });
        }
  unfolding catalog_snapshot
  catalog_snapshot_first writes app_data before path paths raw d ts wrong there read a =
      All-Rejected writes app_data before (path ∷ paths) wrong
      ∙ rw (catalog_snapshot, there, override_fitting raw d ts read a) refl

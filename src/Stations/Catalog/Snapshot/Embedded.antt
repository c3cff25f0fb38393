-- ===== src/Stations/Catalog/Snapshot/Embedded.antt =====
-- `parse_embedded_catalog` and the end of `catalog_snapshot` of src/stations/catalog.rs: the built-in catalogue.
use Prim.Native.String.{String}
use rockcast.Prelude.{
  Option, none, some, List, [], ◌∷◌, All, ◌≡◌, ◌≢◌, ap, inl, inr, Bool-cases, Option-cases, true,
  not, ◌||◌,
}
use text.Mathlib.Text.{◌==◌ as str_eq}
use text.Mathlib.TextEquality.{eq_iff}
use rockcast.Prelude.Results.{Result, err, ok, Result-cases}
use rockcast.PersonalData.Resolver.{CatalogResolver}
use rockcast.Stations.Sha256.{sha256_hex}
use rockcast.Stations.Catalog.{Station, Stopped, panicked, Document, parse_document}
use rockcast.Stations.Catalog.Accepts.{Accepted, stations_from_document-Accepted}
use rockcast.Stations.Catalog.Snapshot.{
  resolver_from_document, Manifest, LoadedCatalog, Search, copied_to, parse_embedded_catalog,
  parse_override_with_resolver, embedded_snapshot, catalog_snapshot, is_text,
  pinned_catalog_version, pinned_catalog_sha256, canonical_catalog_bytes,
}
use rockcast.Stations.Catalog.Snapshot.Chosen.{
  Usable, document-Usable, Rejected, override-Rejected, absent-Rejected, refused-Rejected,
  override-Usable,
}
use rockcast.Prelude.{Bool, ◌↔◌, arith}

module _ (from_str : String → Result String Document)
    (manifest_from_str : String → Result String Manifest)
    (embedded_catalog embedded_manifest : String) (read_file : String → Option String) where
  abbrev snapshot : (String → Bool) → Option String → List String → Search
  snapshot =
      catalog_snapshot from_str manifest_from_str embedded_catalog embedded_manifest read_file

  abbrev override : String → Result Stopped (List Station × CatalogResolver)
  override =
      parse_override_with_resolver from_str manifest_from_str embedded_catalog embedded_manifest
        read_file

  abbrev embedded : Result Stopped (List Station)
  embedded =
      parse_embedded_catalog from_str manifest_from_str embedded_catalog embedded_manifest read_file

  -- What the manifest and the digest say of the built-in catalogue.
  pub record Verified (ts : List Station) : Type 0 where
    pub manifest : Manifest
    pub manifest_read : manifest_from_str embedded_manifest ≡ ok manifest
    pub algorithm : manifest.algorithm ≡ "sha256"
    pub file : manifest.file ≡ "stations.v1.json"
    pub manifest_version : manifest.catalog_version ≡ pinned_catalog_version
    pub manifest_sha256 : manifest.sha256 ≡ pinned_catalog_sha256
    pub digest : sha256_hex (canonical_catalog_bytes embedded_catalog) ≡ some pinned_catalog_sha256
    pub document : Document
    pub read : parse_document from_str embedded_catalog ≡ ok document
    pub version : document.catalog_version ≡ pinned_catalog_version
    pub accepted : Accepted document ts

  is_text_lem :
      (expected : String) (o : Option String) → (is_text expected o ≡ true) ↔ (o ≡ some expected)
  unfolding is_text
  is_text_lem expected none = (λ e. absurd cc, λ e. absurd cc)
  is_text_lem expected (some s) =
      (λ e. ap some ((eq_iff s expected).0 e), λ e. (eq_iff s expected).1 cc)

  -- The guard of the manifest and the digest.
  abbrev mismatch : Manifest → Bool
  mismatch m =
      not (str_eq m.algorithm "sha256")
      || (not (str_eq m.file "stations.v1.json")
          || (not (str_eq m.catalog_version pinned_catalog_version)
              || (not (str_eq m.sha256 pinned_catalog_sha256)
                  || not (
                      is_text pinned_catalog_sha256
                        (sha256_hex (canonical_catalog_bytes embedded_catalog))))))

  embedded-Verified : (ts : List Station) → embedded ≡ ok ts → Verified ts
  unfolding parse_embedded_catalog
  embedded-Verified ts = elim (Result-cases (manifest_from_str embedded_manifest)) [
    | inl (x, bad) ↦ rw (parse_embedded_catalog, bad) (λ e. absurd cc)
    | inr (m, read) ↦ elim (Bool-cases (mismatch m)) [
      | inl bad ↦ rw (parse_embedded_catalog, read, bad) (λ e. absurd cc)
      | inr same ↦ elim (Result-cases (parse_document from_str embedded_catalog)) [
        | inl (x, bad) ↦ rw (parse_embedded_catalog, read, same, bad) (λ e. absurd cc)
        | inr (d, there) ↦ elim (Bool-cases (str_eq d.catalog_version pinned_catalog_version)) [
          | inr bad ↦ rw (parse_embedded_catalog, read, same, there, bad) (λ e. absurd cc)
          | inl version ↦
              rw (parse_embedded_catalog, read, same, there, version)
                (λ e. record {
                  manifest = m;
                  manifest_read = read;
                  algorithm = (eq_iff m.algorithm "sha256").0 (ground arith);
                  file = (eq_iff m.file "stations.v1.json").0 (ground arith);
                  manifest_version =
                      (eq_iff m.catalog_version pinned_catalog_version).0 (ground arith);
                  manifest_sha256 = (eq_iff m.sha256 pinned_catalog_sha256).0 (ground arith);
                  digest =
                      (is_text_lem pinned_catalog_sha256
                          (sha256_hex (canonical_catalog_bytes embedded_catalog))).0
                        (ground arith);
                  document = d;
                  read = there;
                  version = (eq_iff d.catalog_version pinned_catalog_version).0 version;
                  accepted = (stations_from_document-Accepted d ts).0 e;
                })
        ]
      ]
    ]
  ]

  -- How the search for a catalogue ends.
  pub data Outcome (writes : String → Bool) (app_data : Option String) (paths : List String)
      : Search → Type 0 where
    overridden :
        (f : LoadedCatalog)
        → Usable f.stations f.resolver
        → (All
              (Rejected from_str manifest_from_str embedded_catalog embedded_manifest read_file)
              paths
            → ⊥)
        → Outcome writes app_data paths (record { created = none; found = ok f })
    built_in :
        (f : LoadedCatalog)
        → Usable f.stations f.resolver
        → Verified f.stations
        → All
            (Rejected from_str manifest_from_str embedded_catalog embedded_manifest read_file)
            paths
        → Outcome writes app_data paths
            (record { created = copied_to writes app_data; found = ok f })
    broken :
        ((ts : List Station)
          → parse_embedded_catalog from_str manifest_from_str embedded_catalog embedded_manifest
              read_file
            ≢ ok ts)
        → All
            (Rejected from_str manifest_from_str embedded_catalog embedded_manifest read_file)
            paths
        → Outcome writes app_data paths
            (record { created = copied_to writes app_data; found = err panicked })

  embedded_snapshot-Outcome :
      (writes : String → Bool) (app_data : Option String)
      → Outcome writes app_data [] (record {
        created = copied_to writes app_data;
        found =
            embedded_snapshot from_str manifest_from_str embedded_catalog embedded_manifest
              read_file;
      })
  unfolding embedded_snapshot
  embedded_snapshot-Outcome writes app_data = elim (Result-cases embedded) [
    | inl (x, bad) ↦ rw (embedded_snapshot, bad) (broken (λ ts e. absurd cc) tt)
    | inr (ts, e) ↦
        let v : Verified ts = embedded-Verified ts e in
        let d : Document = v.document in
        let f : LoadedCatalog = record { stations = ts; resolver = resolver_from_document ts d } in
        let usable : Usable ts (resolver_from_document ts d) =
          document-Usable d ts ((stations_from_document-Accepted d ts).1 v.accepted) in
        rw (embedded_snapshot, e, v.read) (built_in f usable v tt)
  ]

  skipped-Outcome :
      (writes : String → Bool) (app_data : Option String) (path : String) (paths : List String)
      (r : Search)
      → Rejected from_str manifest_from_str embedded_catalog embedded_manifest read_file path
      → Outcome writes app_data paths r
      → Outcome writes app_data (path ∷ paths) r
  skipped-Outcome writes app_data path paths _ wrong (overridden f u some_good) =
      overridden f u (λ h. some_good h.1)
  skipped-Outcome writes app_data path paths _ wrong (built_in f u v all_wrong) =
      built_in f u v (wrong, all_wrong)
  skipped-Outcome writes app_data path paths _ wrong (broken b all_wrong) =
      broken b (wrong, all_wrong)

  -- Whatever the overrides and the built-in catalogue hold, the search ends in one of three ways. An override is accepted, then
  -- nothing is written; or every override is rejected and the stations are the built-in ones, whose
  -- digest, manifest and version have been checked, and a copy is written to where the program keeps its data, if it can be; or every
  -- override is rejected and the built-in catalogue is not valid, and only then it panics, after such a copy. In the first two
  -- the stations are those of an accepted document, the resolver is that document's, and each station is
  -- found by its own id.
  pub catalog_snapshot-Outcome :
      (writes : String → Bool) (app_data : Option String) (paths : List String)
      → Outcome writes app_data paths (
          catalog_snapshot from_str manifest_from_str embedded_catalog embedded_manifest read_file
            writes app_data paths)
  unfolding catalog_snapshot
  catalog_snapshot-Outcome writes app_data [] = embedded_snapshot-Outcome writes app_data
  catalog_snapshot-Outcome writes app_data (path ∷ paths) =
      let rest = catalog_snapshot-Outcome writes app_data paths in
      elim (Option-cases (read_file path)) [
        | inl missing ↦
            rw (catalog_snapshot, missing)
              (skipped-Outcome writes app_data path paths (snapshot writes app_data paths)
                (absent-Rejected from_str manifest_from_str embedded_catalog embedded_manifest
                  read_file path missing)
                rest)
        | inr (raw, there) ↦ elim (Result-cases (override raw)) [
          | inl (x, bad) ↦
              rw (catalog_snapshot, there, bad)
                (skipped-Outcome writes app_data path paths (snapshot writes app_data paths)
                  (refused-Rejected from_str manifest_from_str embedded_catalog embedded_manifest
                    read_file path raw x there bad)
                  rest)
          | inr ((us, r), good) ↦
              rw (catalog_snapshot, there, good)
                (overridden (record { stations = us; resolver = r })
                  (override-Usable from_str manifest_from_str embedded_catalog embedded_manifest
                    read_file raw us r good)
                  (λ h.
                    override-Rejected from_str manifest_from_str embedded_catalog embedded_manifest
                      read_file path raw h.0 there (us, r) good))
        ]
      ]

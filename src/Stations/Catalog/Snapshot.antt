-- ===== src/Stations/Catalog/Snapshot.antt =====
-- `catalog_snapshot` of src/stations/catalog.rs: the catalogue in use and the resolver of stored ids that goes
-- with it, from the first override that is accepted, or from the catalogue built into the program.
pub mod Listed
pub mod Chosen
pub mod Embedded
pub mod Canonical
use Prim.Native.Char.{code}
use Prim.Native.String.{String, [] as empty, ◌∷◌ as ◌+c◌, ◌++◌ as text_append}
use text.Mathlib.Text.{◌==◌ as str_eq}
use rockcast.Prelude.{
  true, Option, none, some, List, [], ◌∷◌, ◌++◌, map, ℕ, if◌then◌else◌, Bool, false, not, ◌||◌,
  ◌&&◌, ◌+◌, ◌/◌, ◌%◌, ltb, ◌==◌,
}
use rockcast.Prelude.Results.{Result, err, ok}
use rockcast.PersonalData.Resolver.{
  TombstoneReason, removed, merged, split, Tombstone, CatalogResolver, from_stations,
  with_tombstones,
}
use rockcast.PersonalData.Resolver
use rockcast.Stations.Sha256.{sha256_hex}
use rockcast.Stations.Catalog.{
  Station, Stopped, refused, panicked, checksum, invalid, json, CatalogTombstone, Document,
  stations_from_document, parse_document, parse_stations_json,
}

pub resolver_station : Station → Resolver.Station
resolver_station s = record { id = s.id; legacy_ids = s.legacy_ids }

pub tombstone_reason : String → Option TombstoneReason
tombstone_reason reason =
    if str_eq reason "removed"
    then some removed
    else if str_eq reason "merged"
    then some merged
    else if str_eq reason "split"
    then some split
    else none

pub tombstones_of : List CatalogTombstone → List Tombstone
tombstones_of [] = []
tombstones_of (t ∷ tombstones) =
    let rest = tombstones_of tombstones in
    elim (tombstone_reason t.reason) [
      | none ↦ rest
      | some reason ↦
          record { id = t.id; reason = reason; replacement_ids = t.replacement_ids } ∷ rest
    ]

pub resolver_from_document : List Station → Document → CatalogResolver
resolver_from_document stations d =
    with_tombstones (from_stations (map resolver_station stations) (some d.catalog_version))
      (tombstones_of d.tombstones)

pub or_none : Option String → List String
or_none none = []
or_none (some path) = path ∷ []

-- `directory.join("stations.v1.json")`, of the path library, is the parameter.
pub source_paths : (String → String) → Option String → List String
source_paths join none = []
source_paths join (some directory) = join directory ∷ []

pub override_paths :
    (String → String) → Option String → Option String → Option String → Option String → List String
override_paths join environment executable working_directory app_data =
    or_none environment
    ++ (source_paths join executable
        ++ (source_paths join working_directory ++ source_paths join app_data))

pub record Manifest : Type 0 where
  pub algorithm : String
  pub catalog_version : String
  pub file : String
  pub sha256 : String

-- `str::replace("\r\n", "\n")`
pub replace_crlf : String → String
replace_crlf empty = empty
replace_crlf (c +c empty) = c +c empty
replace_crlf (c +c (d +c s)) =
    let rest = replace_crlf (d +c s) in
    if (code c == 0x0d) && (code d == 0x0a) then rest else c +c rest

-- `trim_end_matches('\n')`
pub trim_newlines : String → String
trim_newlines empty = empty
trim_newlines (c +c s) = elim (trim_newlines s) [
  | empty ↦ if code c == 0x0a then empty else c +c empty
  | d +c rest ↦ c +c (d +c rest)
]

-- `into_bytes` of one character: UTF-8.
pub utf8_bytes : ℕ → List ℕ
utf8_bytes c =
    if ltb c 0x80
    then c ∷ []
    else if ltb c 0x800
    then (0xc0 + c / 64) ∷ (0x80 + c % 64) ∷ []
    else if ltb c 0x10000
    then (0xe0 + c / 4096) ∷ (0x80 + (c / 64) % 64) ∷ (0x80 + c % 64) ∷ []
    else (0xf0 + c / 262144)
      ∷ (0x80 + (c / 4096) % 64)
      ∷ (0x80 + (c / 64) % 64)
      ∷ (0x80 + c % 64)
      ∷ []

pub into_bytes : String → List ℕ
into_bytes empty = []
into_bytes (c +c s) = utf8_bytes (code c) ++ into_bytes s

pub canonical_catalog_bytes : String → List ℕ
canonical_catalog_bytes raw = into_bytes (text_append (trim_newlines (replace_crlf raw)) "\n")

abbrev pub pinned_catalog_version : String
pinned_catalog_version = "2026.08.2"

abbrev pub pinned_catalog_sha256 : String
pinned_catalog_sha256 = "3fa20dca94fc059bd433a47b9fba9bb6d5e5e1aa2957a5ffb58b2a7b20b1d74d"

pub is_text : String → Option String → Bool
is_text expected none = false
is_text expected (some s) = str_eq s expected

pub record LoadedCatalog : Type 0 where
  pub stations : List Station
  pub resolver : CatalogResolver

-- What a search for the catalogue has done and found: `created` is the path that a copy of the built-in
-- catalogue was written to.
pub record Search : Type 0 where
  pub created : Option String
  pub found : Result Stopped LoadedCatalog

-- The copy is at the place where the program keeps its data, if that is known and can be written to.
unfoldable pub copied_to : (String → Bool) → Option String → Option String
copied_to writes none = none
copied_to writes (some path) = if writes path then some path else none

-- serde's readers of a document and of a manifest, the two files built into the program, and what
-- `read_to_string` gives for a path.
module _ (from_str : String → Result String Document)
    (manifest_from_str : String → Result String Manifest)
    (embedded_catalog embedded_manifest : String) (read_file : String → Option String) where
  pub parse_embedded_catalog : Result Stopped (List Station)
  parse_embedded_catalog = elim (manifest_from_str embedded_manifest) [
    | err e ↦ err (refused (json e))
    | ok m ↦
        if not (str_eq m.algorithm "sha256")
          || (not (str_eq m.file "stations.v1.json")
              || (not (str_eq m.catalog_version pinned_catalog_version)
                  || (not (str_eq m.sha256 pinned_catalog_sha256)
                      || not (
                          is_text pinned_catalog_sha256
                            (sha256_hex (canonical_catalog_bytes embedded_catalog))))))
        then err (refused checksum)
        else elim (parse_document from_str embedded_catalog) [
          | err e ↦ err e
          | ok d ↦
              if not (str_eq d.catalog_version pinned_catalog_version)
              then err (refused (invalid "pinned catalogVersion mismatch"))
              else stations_from_document d
        ]
  ]

  pub parse_override_with_resolver : String → Result Stopped (List Station × CatalogResolver)
  parse_override_with_resolver raw = elim (parse_document from_str raw) [
    | err e ↦ err e
    | ok d ↦ elim (parse_stations_json from_str raw) [
      | err e ↦ err e
      | ok stations ↦ ok (stations, resolver_from_document stations d)
    ]
  ]

  -- Both calls of `expect` panic on an error.
  pub embedded_snapshot : Result Stopped LoadedCatalog
  embedded_snapshot = elim parse_embedded_catalog [
    | err e ↦ err panicked
    | ok stations ↦ elim (parse_document from_str embedded_catalog) [
      | err e ↦ err panicked
      | ok d ↦ ok (record { stations = stations; resolver = resolver_from_document stations d })
    ]
  ]

  -- `writes`: whether `create_dir_all` and `write` leave a file at a path. Where they do not, the program goes on.
  pub catalog_snapshot : (String → Bool) → Option String → List String → Search
  catalog_snapshot writes app_data [] = record {
    created = copied_to writes app_data;
    found = embedded_snapshot;
  }
  catalog_snapshot writes app_data (path ∷ paths) =
      let rest = catalog_snapshot writes app_data paths in
      elim (read_file path) [
        | none ↦ rest
        | some raw ↦ elim (parse_override_with_resolver raw) [
          | err e ↦ rest
          | ok (stations, resolver) ↦ record {
            created = none;
            found = ok (record { stations = stations; resolver = resolver });
          }
        ]
      ]

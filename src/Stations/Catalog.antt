-- ===== src/Stations/Catalog.antt =====
-- src/stations/catalog.rs and the types of src/stations/mod.rs: what a catalogue must be to be accepted,
-- and the stations that it gives.
pub mod Fits
pub mod Accepts
pub mod Total
pub mod Snapshot
mod Tests
use Prim.Native.String.{String, [] as empty, ◌∷◌ as ◌+c◌, ◌++◌ as text_append}
use text.Mathlib.Text.{starts_with, ◌==◌ as str_eq}
use rockcast.Prelude.{
  ℕ, suc, Bool, true, false, not, ◌&&◌, ◌||◌, Option, none, some, List, [], ◌∷◌, ◌==◌,
  if◌then◌else◌,
}
use rockcast.Prelude.Texts.{is_whitespace, is_blank}
use rockcast.Prelude.TextMaps.{mem_text}
use rockcast.Prelude.Results.{Result, err, ok}
use rockcast.PersonalData.Resolver.{valid_station_id}

pub record StationStream : Type 0 where
  pub id : String
  pub url : String
  pub codec : String
  pub bitrate : ℕ
  pub primary : Bool

pub record Station : Type 0 where
  pub id : String
  pub name : String
  pub url : String
  pub tags : String
  pub country : String
  pub language : Option String
  pub homepage_url : Option String
  pub favicon_url : Option String
  pub aliases : List String
  pub legacy_ids : List String
  pub bitrate : ℕ
  pub codec : String
  pub streams : List StationStream

pub data CatalogError : Type 0 where
  json : String → CatalogError
  schema_version : ℕ → CatalogError
  checksum : CatalogError
  invalid : String → CatalogError

-- A refusal, or a call that panics.
pub data Stopped : Type 0 where
  refused : CatalogError → Stopped
  panicked : Stopped

pub record CatalogTombstone : Type 0 where
  pub id : String
  pub reason : String
  pub replacement_ids : List String

pub record CatalogStream : Type 0 where
  pub id : String
  pub url : String
  pub codec : Option String
  pub bitrate_kbps : Option ℕ
  pub primary : Bool

pub record CatalogStation : Type 0 where
  pub id : String
  pub name : String
  pub aliases : List String
  pub legacy_ids : List String
  pub tags : List String
  pub country_code : Option String
  pub language : Option String
  pub homepage_url : Option String
  pub favicon_url : Option String
  pub streams : List CatalogStream

pub record Document : Type 0 where
  pub schema : ℕ
  pub catalog_version : String
  pub stations : List CatalogStation
  pub tombstones : List CatalogTombstone

-- `unwrap_or_default` and `unwrap_or`
pub or_default {ℓ} : {A : Type ℓ} → A → Option A → A
or_default d none = d
or_default d (some a) = a

-- `join(", ")`
pub join_tags : List String → String
join_tags [] = empty
join_tags (t ∷ []) = t
join_tags (t ∷ u ∷ tags) = text_append t (text_append ", " (join_tags (u ∷ tags)))

unfoldable pub trim_start : String → String
trim_start empty = empty
trim_start (c +c s) = let rest = trim_start s in if is_whitespace c then rest else c +c s

unfoldable pub trim_end : String → String
trim_end empty = empty
trim_end (c +c s) =
    let rest = trim_end s in if is_whitespace c && is_blank s then empty else c +c rest

unfoldable pub trim : String → String
trim s = trim_end (trim_start s)

-- The same tests as `valid_station_id` of src/personal_data/records.rs, in the same order.
pub is_stable_id : String → Bool
is_stable_id id = valid_station_id id

pub is_http_url : String → Bool
is_http_url url = starts_with url "http://" || starts_with url "https://"

pub count_primary : List CatalogStream → ℕ
count_primary [] = 0
count_primary (s ∷ streams) =
    let rest = count_primary streams in if s.primary then suc rest else rest

pub stream_of : CatalogStream → StationStream
stream_of s = record {
  id = s.id;
  url = s.url;
  codec = or_default empty s.codec;
  bitrate = or_default 0 s.bitrate_kbps;
  primary = s.primary;
}

-- The loop over the streams of one station, with the ids that it has met.
pub collect_streams :
    String → List String → List CatalogStream → Result Stopped (List StationStream)
collect_streams station_id seen [] = ok []
collect_streams station_id seen (s ∷ streams) =
    let rest = collect_streams station_id (s.id ∷ seen) streams in
    elim (not (is_stable_id s.id) || (mem_text s.id seen || not (is_http_url s.url))) [
      | true ↦ err (refused (invalid (text_append "invalid stream in " station_id)))
      | false ↦ elim rest [ err e ↦ err e | ok collected ↦ ok (stream_of s ∷ collected) ]
    ]

pub find_primary : List StationStream → Option StationStream
find_primary [] = none
find_primary (s ∷ streams) = let rest = find_primary streams in if s.primary then some s else rest

pub station_with : CatalogStation → List StationStream → StationStream → Station
station_with s streams primary = record {
  id = s.id;
  name = s.name;
  url = primary.url;
  tags = join_tags s.tags;
  country = or_default empty s.country_code;
  language = s.language;
  homepage_url = s.homepage_url;
  favicon_url = s.favicon_url;
  aliases = s.aliases;
  legacy_ids = s.legacy_ids;
  bitrate = primary.bitrate;
  codec = primary.codec;
  streams = streams;
}

-- `expect` panics where no stream is primary.
pub station_from : CatalogStation → List StationStream → Result Stopped Station
station_from s streams = elim (find_primary streams) [
  | none ↦ err panicked
  | some primary ↦ ok (station_with s streams primary)
]

-- The closure that is mapped over the stations; `seen` is the set of the ids before this one.
pub read_station : List String → CatalogStation → Result Stopped Station
read_station seen s =
    if not (is_stable_id s.id) || mem_text s.id seen
    then err (refused (invalid (text_append "invalid or duplicate station id " s.id)))
    else if is_blank s.name || not (str_eq s.name (trim s.name))
    then err (refused (invalid (text_append "invalid station name for " s.id)))
    else if not (count_primary s.streams == 1)
    then err (refused (invalid (text_append s.id " must have exactly one primary stream")))
    else elim (collect_streams s.id [] s.streams) [
      | err e ↦ err e
      | ok streams ↦ station_from s streams
    ]

-- `collect` into a `Result` stops at the first error.
pub read_stations : List String → List CatalogStation → Result Stopped (List Station)
read_stations seen [] = ok []
read_stations seen (s ∷ stations) =
    let rest = read_stations (s.id ∷ seen) stations in
    elim (read_station seen s) [
      | err e ↦ err e
      | ok station ↦ elim rest [ err e ↦ err e | ok read ↦ ok (station ∷ read) ]
    ]

pub stations_from_document : Document → Result Stopped (List Station)
stations_from_document d = elim d.stations [
  | [] ↦ err (refused (invalid "stations is empty"))
  | s ∷ stations ↦ read_stations [] (s ∷ stations)
]

-- `from_str` is serde's reader of a document.
module _ (from_str : String → Result String Document) where
  pub parse_document : String → Result Stopped Document
  parse_document raw = elim (from_str raw) [
    | err e ↦ err (refused (json e))
    | ok d ↦
        if not (d.schema == 1)
        then err (refused (schema_version d.schema))
        else if is_blank d.catalog_version
        then err (refused (invalid "catalogVersion is empty"))
        else ok d
  ]

  pub parse_stations_json : String → Result Stopped (List Station)
  parse_stations_json raw = elim (parse_document raw) [
    | err e ↦ err e
    | ok d ↦ stations_from_document d
  ]

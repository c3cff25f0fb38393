-- ===== src/Stations/Catalog/Tests.antt =====
-- A catalogue of two stations, read by src/stations/catalog.rs.
use Prim.Native.String.{String}
use text.Mathlib.Text.{◌==◌ as str_eq}
use rockcast.Prelude.{
  Bool, false, true, false, Option, none, some, List, [], ◌∷◌, ◌++◌, if◌then◌else◌, ◌≡◌, ◌≢◌, ◌↔◌,
  refl,
}
use rockcast.Prelude.Texts.{is_whitespace, is_blank, all_chars, is_ascii_lowercase, is_ascii_digit}
use rockcast.Prelude.TextMaps.{mem_text}
use rockcast.Prelude.Results.{Result, err, ok}
use rockcast.PersonalData.Resolver.{
  is_dash, is_station_char, starts_with_dash, ends_with_dash, contains_dashes, valid_station_id,
}
use rockcast.Stations.Catalog.{
  Station, panicked, refused, invalid, schema_version, CatalogStream, CatalogStation, Document,
  or_default, join_tags, trim_start, trim_end, trim, is_stable_id, is_http_url, count_primary,
  stream_of, collect_streams, find_primary, station_with, station_from, read_station, read_stations,
  stations_from_document, parse_document, parse_stations_json,
}
use rockcast.Stations.Catalog.Accepts.{Accepted, stations_from_document-Accepted}
use rockcast.Stations.Catalog.Total.{stations_from_document_total}
use rockcast.Stations.Catalog.Snapshot.{Manifest, resolver_from_document, catalog_snapshot}
use rockcast.Stations.Catalog.Snapshot.Canonical.{not_return}
use rockcast.Stations.Catalog.Snapshot.Chosen.{absent-Rejected, catalog_snapshot_first}
use rockcast.Stations.Catalog.Snapshot.Embedded.{Outcome, catalog_snapshot-Outcome}

abbrev backup : CatalogStream
backup = record {
  id = "backup";
  url = "http://x.test/b";
  codec = some "aac";
  bitrate_kbps = some 64;
  primary = false;
}

abbrev main : CatalogStream
main = record {
  id = "main";
  url = "https://x.test/m";
  codec = some "mp3";
  bitrate_kbps = none;
  primary = true;
}

abbrev station_named : String → String → List CatalogStream → CatalogStation
station_named id name streams = record {
  id = id;
  name = name;
  aliases = [];
  legacy_ids = [];
  tags = "rock" ∷ "metal" ∷ [];
  country_code = none;
  language = none;
  homepage_url = none;
  favicon_url = none;
  streams = streams;
}

abbrev document_of : List CatalogStation → Document
document_of stations = record {
  schema = 1;
  catalog_version = "2026.08.9";
  stations = stations;
  tombstones = [];
}

abbrev two_stations : Document
two_stations = document_of (
    station_named "one" "First" (backup ∷ main ∷ [])
    ∷ station_named "two" "Second" (main ∷ [])
    ∷ [])

abbrev first_station : Station
first_station =
    station_with (station_named "one" "First" (backup ∷ main ∷ []))
      (stream_of backup ∷ stream_of main ∷ []) (stream_of main)

abbrev second_station : Station
second_station =
    station_with (station_named "two" "Second" (main ∷ [])) (stream_of main ∷ []) (stream_of main)

two_read : stations_from_document two_stations ≡ ok (first_station ∷ second_station ∷ [])
unfolding stations_from_document read_stations read_station station_from find_primary
    collect_streams count_primary is_http_url is_stable_id trim trim_start trim_end is_whitespace
    is_blank all_chars is_ascii_lowercase is_ascii_digit mem_text is_dash is_station_char
    starts_with_dash ends_with_dash contains_dashes valid_station_id stream_of or_default
two_read = refl

first_plays :
    (first_station.url ≡ "https://x.test/m")
    × (first_station.tags ≡ "rock, metal")
    × (first_station.bitrate ≡ 0)
unfolding station_with stream_of join_tags or_default
first_plays = (refl, refl, refl)

two_primaries :
    stations_from_document (document_of (station_named "one" "First" (main ∷ main ∷ []) ∷ []))
    ≡ err (refused (invalid "one must have exactly one primary stream"))
unfolding stations_from_document read_stations read_station count_primary is_stable_id trim
    trim_start trim_end is_whitespace is_blank all_chars is_ascii_lowercase is_ascii_digit mem_text
    is_dash is_station_char starts_with_dash ends_with_dash contains_dashes valid_station_id
two_primaries = refl

other_schema :
    (raw : String)
    → parse_stations_json (λ raw. ok (record two_stations { schema = 2 })) raw
      ≡ err (refused (schema_version 2))
unfolding parse_stations_json parse_document
other_schema raw = refl

two-Accepted : Accepted two_stations (first_station ∷ second_station ∷ [])
two-Accepted =
    (stations_from_document-Accepted two_stations (first_station ∷ second_station ∷ [])).0 two_read

stations_from_document-Accepted_example :
    (stations_from_document two_stations ≡ ok (first_station ∷ second_station ∷ []))
    ↔ Accepted two_stations (first_station ∷ second_station ∷ [])
stations_from_document-Accepted_example =
    stations_from_document-Accepted two_stations (first_station ∷ second_station ∷ [])

stations_from_document_total_example : stations_from_document two_stations ≢ err panicked
stations_from_document_total_example = stations_from_document_total two_stations

-- A disk with one override.
abbrev from_str : String → Result String Document
from_str raw = if str_eq raw "good" then ok two_stations else err "no JSON"

abbrev manifest_from_str : String → Result String Manifest
manifest_from_str raw = err "no JSON"

abbrev read_file : String → Option String
read_file path = if str_eq path "b" then some "good" else none

abbrev no_writes : String → Bool
no_writes path = false

good_parsed : parse_document from_str "good" ≡ ok two_stations
unfolding parse_document is_blank is_whitespace
good_parsed = refl

catalog_snapshot_first_example :
    catalog_snapshot from_str manifest_from_str "embedded" "manifest" read_file no_writes
      (some "copy")
      (("a" ∷ []) ++ ("b" ∷ "c" ∷ []))
    ≡ record {
      created = none;
      found = ok (record {
        stations = first_station ∷ second_station ∷ [];
        resolver = resolver_from_document (first_station ∷ second_station ∷ []) two_stations;
      });
    }
catalog_snapshot_first_example =
    catalog_snapshot_first from_str manifest_from_str "embedded" "manifest" read_file no_writes
      (some "copy") ("a" ∷ []) "b" ("c" ∷ []) "good" two_stations
      (first_station ∷ second_station ∷ [])
      (absent-Rejected from_str manifest_from_str "embedded" "manifest" read_file "a" refl, tt) refl
      good_parsed two-Accepted

catalog_snapshot-Outcome_example :
    Outcome from_str manifest_from_str "embedded" "manifest" read_file no_writes
      (some "copy")
      ("a" ∷ "b" ∷ [])
      (catalog_snapshot from_str manifest_from_str "embedded" "manifest" read_file no_writes
        (some "copy")
        ("a" ∷ "b" ∷ []))
catalog_snapshot-Outcome_example =
    catalog_snapshot-Outcome from_str manifest_from_str "embedded" "manifest" read_file no_writes
      (some "copy") ("a" ∷ "b" ∷ [])

no_return_here : all_chars not_return "{\n}\n" ≡ true
unfolding all_chars not_return
no_return_here = refl

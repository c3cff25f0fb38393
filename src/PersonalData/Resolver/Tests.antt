-- ===== src/PersonalData/Resolver/Tests.antt =====
-- Ids resolved by src/personal_data/records.rs.
use Prim.Native.String.{String}
use rockcast.Prelude.{true, false, none, some, List, [], ◌∷◌, ◌≡◌, ◌↔◌, refl}
use rockcast.Prelude.Texts.{all_chars, is_ascii_lowercase, is_ascii_digit}
use rockcast.Prelude.TextMaps.{mem_text, lookup_text, or_insert}
use rockcast.Prelude.Results.{Result, err, ok}
use rockcast.PersonalData.Resolver.{
  merged, Tombstone, Station, CatalogResolver, Unresolved, strip_prefix, insert_legacy,
  insert_legacies, collect_stations, from_stations, keyed, with_tombstones, is_dash,
  is_station_char, starts_with_dash, ends_with_dash, contains_dashes, valid_station_id,
  hop_of_tombstone, hop_of, resolve_loop, resolve,
}
use rockcast.PersonalData.Resolver.Ends.{resolve_total}
use rockcast.PersonalData.Resolver.Names.{Names, resolve-Names}

abbrev stations : List Station
stations =
    record { id = "rock"; legacy_ids = "rockmobile:rockcast-12" ∷ [] }
    ∷ record { id = "metal"; legacy_ids = [] }
    ∷ []

abbrev merger : String → String → Tombstone
merger from to = record { id = from; reason = merged; replacement_ids = to ∷ [] }

abbrev tombstones : List Tombstone
tombstones =
    merger "punk" "thrash" ∷ merger "thrash" "metal" ∷ merger "ska" "dub" ∷ merger "dub" "ska" ∷ []

abbrev resolver : CatalogResolver
resolver = with_tombstones (from_stations stations none) tombstones

chain : resolve resolver "punk" ≡ some (ok "metal")
unfolding resolve valid_station_id all_chars is_station_char is_ascii_lowercase is_ascii_digit
    is_dash starts_with_dash ends_with_dash contains_dashes from_stations collect_stations
    insert_legacies insert_legacy strip_prefix or_insert with_tombstones keyed mem_text lookup_text
    resolve_loop hop_of hop_of_tombstone
chain = refl

hashed : resolve resolver "legacy-12" ≡ some (ok "rock")
unfolding resolve valid_station_id all_chars is_station_char is_ascii_lowercase is_ascii_digit
    is_dash starts_with_dash ends_with_dash contains_dashes from_stations collect_stations
    insert_legacies insert_legacy strip_prefix or_insert with_tombstones keyed mem_text lookup_text
hashed = refl

circle : resolve resolver "ska" ≡ some (err (record { reason = "missing"; candidates = [] }))
unfolding resolve valid_station_id all_chars is_station_char is_ascii_lowercase is_ascii_digit
    is_dash starts_with_dash ends_with_dash contains_dashes from_stations collect_stations
    insert_legacies insert_legacy strip_prefix or_insert with_tombstones keyed mem_text lookup_text
    resolve_loop hop_of hop_of_tombstone
circle = refl

badly_formed : valid_station_id "a--b" ≡ false
unfolding valid_station_id all_chars is_station_char is_ascii_lowercase is_ascii_digit is_dash
    starts_with_dash ends_with_dash contains_dashes
badly_formed = refl

punk_is_valid : valid_station_id "punk" ≡ true
unfolding valid_station_id all_chars is_station_char is_ascii_lowercase is_ascii_digit is_dash
    starts_with_dash ends_with_dash contains_dashes
punk_is_valid = refl

resolve_total_example : (result : Result Unresolved String) × (resolve resolver "ska" ≡ some result)
resolve_total_example = resolve_total resolver "ska"

resolve-Names_example :
    (resolve resolver "punk" ≡ some (ok "metal")) ↔ Names resolver "punk" "metal"
resolve-Names_example = resolve-Names resolver "punk" "metal" punk_is_valid

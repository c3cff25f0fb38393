-- ===== src/PersonalData/Resolver.antt =====
-- `CatalogResolver` of src/personal_data/records.rs: which station of the catalogue a stored id stands for.
pub mod Ends
pub mod Names
pub mod Catalog
pub mod Listed
mod Tests
use Prim.Native.Char.{Char, code}
use Prim.Native.String.{String, len, ◌++◌ as text_append, [] as empty, ◌∷◌ as ◌+c◌}
use text.Mathlib.Text.{starts_with}
use rockcast.Prelude.{
  ℕ, zero, suc, Bool, true, false, not, ◌&&◌, ◌||◌, Option, none, some, List, [], ◌∷◌, ◌++◌, length,
  leb, ◌==◌, if◌then◌else◌,
}
use rockcast.Prelude.Texts.{all_chars, is_ascii_lowercase, is_ascii_digit}
use rockcast.Prelude.TextMaps.{mem_text, lookup_text, or_insert}
use rockcast.Prelude.Results.{Result, err, ok}

pub data TombstoneReason : Type 0 where
  removed : TombstoneReason
  merged : TombstoneReason
  split : TombstoneReason

pub record Tombstone : Type 0 where
  pub id : String
  pub reason : TombstoneReason
  pub replacement_ids : List String

-- What the resolver reads of a station.
pub record Station : Type 0 where
  pub id : String
  pub legacy_ids : List String

pub record CatalogResolver : Type 0 where
  pub active : List String
  pub legacy : List (String × String)
  pub tombstones : List (String × Tombstone)
  pub catalog_version : Option String

-- Why an id is not resolved, with candidates.
pub record Unresolved : Type 0 where
  pub reason : String
  pub candidates : List String

pub strip_prefix : String → String → Option String
strip_prefix empty s = some s
strip_prefix (c +c p) empty = none
strip_prefix (c +c p) (d +c s) =
    let rest = strip_prefix p s in if code c == code d then rest else none

pub insert_legacy : String → String → List (String × String) → List (String × String)
insert_legacy station_id id legacy = elim (strip_prefix "rockmobile:rockcast-" id) [
  | none ↦ or_insert id station_id legacy
  | some hash ↦ or_insert (text_append "legacy-" hash) station_id (or_insert id station_id legacy)
]

pub insert_legacies : String → List String → List (String × String) → List (String × String)
insert_legacies station_id [] legacy = legacy
insert_legacies station_id (id ∷ ids) legacy =
    insert_legacies station_id ids (insert_legacy station_id id legacy)

pub collect_stations : List Station → CatalogResolver → CatalogResolver
collect_stations [] r = r
collect_stations (s ∷ stations) r =
    collect_stations stations
      (record r { active = s.id ∷ r.active; legacy = insert_legacies s.id s.legacy_ids r.legacy })

pub from_stations : List Station → Option String → CatalogResolver
from_stations stations catalog_version =
    collect_stations stations
      (record { active = []; legacy = []; tombstones = []; catalog_version = catalog_version })

-- `collect` into a map: of two tombstones with one id, the later.
pub keyed : List Tombstone → List (String × Tombstone)
keyed [] = []
keyed (t ∷ tombstones) = keyed tombstones ++ ((t.id, t) ∷ [])

pub with_tombstones : CatalogResolver → List Tombstone → CatalogResolver
with_tombstones r tombstones = record r { tombstones = keyed tombstones }

unfoldable pub is_dash : Char → Bool
is_dash c = code c == 0x2d

unfoldable pub is_station_char : Char → Bool
is_station_char c = is_ascii_lowercase c || (is_ascii_digit c || is_dash c)

unfoldable pub starts_with_dash : String → Bool
starts_with_dash empty = false
starts_with_dash (c +c s) = is_dash c

unfoldable pub ends_with_dash : String → Bool
ends_with_dash empty = false
ends_with_dash (c +c empty) = is_dash c
ends_with_dash (c +c (d +c s)) = ends_with_dash (d +c s)

unfoldable pub contains_dashes : String → Bool
contains_dashes empty = false
contains_dashes (c +c s) = (is_dash c && starts_with_dash s) || contains_dashes s

unfoldable pub valid_station_id : String → Bool
valid_station_id id =
    not (len id == 0)
    && (leb (len id) 96
        && (all_chars is_station_char id
            && (not (starts_with_dash id)
                && (not (ends_with_dash id) && not (contains_dashes id)))))

-- What a round of the loop finds: the end, or the id to go on with.
pub data Hop : Type 0 where
  stop : Result Unresolved String → Hop
  onward : String → Hop

abbrev pub failed_for : String → Hop
failed_for reason = stop (err (record { reason = reason; candidates = [] }))

pub hop_of_tombstone : TombstoneReason → List String → Hop
hop_of_tombstone removed ids = failed_for "removed"
hop_of_tombstone split ids = stop (err (record { reason = "split"; candidates = ids }))
hop_of_tombstone merged (target ∷ []) = onward target
hop_of_tombstone merged ids = failed_for "missing"

pub hop_of : String → Option Tombstone → Hop
hop_of id none = failed_for (
    if starts_with id "legacy-" || starts_with id "rockserver-"
    then "legacy-unmapped"
    else "missing")
hop_of id (some t) = hop_of_tombstone t.reason t.replacement_ids

-- `fuel` bounds the rounds: `none` is a loop that was cut off.
pub resolve_loop :
    CatalogResolver → ℕ → String → String → List String → Option (Result Unresolved String)
resolve_loop r zero id current seen = none
resolve_loop r (suc fuel) id current seen = elim (mem_text current seen) [
  | true ↦ some (err (record { reason = "missing"; candidates = [] }))
  | false ↦ elim (hop_of id (lookup_text current r.tombstones)) [
    | stop result ↦ some result
    | onward target ↦ elim (mem_text target r.active) [
      | true ↦ some (ok target)
      | false ↦ resolve_loop r fuel id target (current ∷ seen)
    ]
  ]
]

-- Each round but the last meets a tombstone that was not met before.
pub resolve : CatalogResolver → String → Option (Result Unresolved String)
resolve r id =
    if not (valid_station_id id)
    then some (err (record { reason = "legacy-unmapped"; candidates = [] }))
    else if mem_text id r.active
    then some (ok id)
    else elim (lookup_text id r.legacy) [
      | some target ↦ some (ok target)
      | none ↦ resolve_loop r (suc (length r.tombstones)) id id []
    ]

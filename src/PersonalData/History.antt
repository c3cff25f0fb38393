-- ===== src/PersonalData/History.antt =====
-- The playback history of `PersonalDataStore` in src/personal_data/mod.rs. Instants are nanoseconds; `parse_time` is the
-- time crate's parser.
pub mod Retained
pub mod Recorded
pub mod Coalesce
mod Tests
use Prim.Native.Nat.{Ordering}
use Prim.Native.String.{String, len, compare}
use text.Mathlib.Text.{◌==◌ as str_eq}
use rockcast.Prelude.{
  ℕ, zero, suc, ◌+◌, ◌-◌, ◌*◌, ◌^◌, Bool, true, false, Option, none, some, List, [], ◌∷◌, ◌++◌,
  take, map, ltb, leb, ◌==◌, if◌then◌else◌,
}
use rockcast.Prelude.Results.{Result, err, ok}
use rockcast.Prelude.Sorting.{sort_by}
use rockcast.PersonalData.{PlaybackHistoryEntry}
use rockcast.PersonalData.Favourites.{ProfileError, invalid}

abbrev pub max_history : ℕ
max_history = 500

abbrev pub second : ℕ
second = 10 ^ 9

abbrev pub coalesce : ℕ
coalesce = 5 * 60 * second

abbrev pub history_retention : ℕ
history_retention = 90 * 86400 * second

-- The order of `retain`: the newest first, by the texts of the time stamps, then by the ids.
pub newest_first : {J : Type 0} → PlaybackHistoryEntry J → PlaybackHistoryEntry J → Bool
newest_first a b = elim (compare b.last_played_at a.last_played_at) [
  | Ordering.lt ↦ true
  | Ordering.gt ↦ false
  | Ordering.eq ↦ elim (compare b.started_at a.started_at) [
    | Ordering.lt ↦ true
    | Ordering.gt ↦ false
    | Ordering.eq ↦ leb a.record_id b.record_id
  ]
]

pub backfill_updated_at : {J : Type 0} → PlaybackHistoryEntry J → PlaybackHistoryEntry J
backfill_updated_at e =
    if len e.updated_at == 0 then record e { updated_at = e.last_played_at } else e

-- What `record_play` reads of the station and the catalogue, and what `Uuid::new_v4` returns.
pub record Play : Type 0 where
  pub station_id : String
  pub name : String
  pub catalog_version : Option String
  pub uuid : ℕ

-- Not `Less`, of what `parse_time(…).ok()` gives: `None` is least.
abbrev pub at_least : Option ℕ → Option ℕ → Bool
at_least a none = true
at_least none (some b) = false
at_least (some a) (some b) = leb b a

-- `max_by_key`, as the entry with what stands before and after it: of equal entries, the last.
pub record Latest (J : Type 0) : Type 0 where
  pub before : List (PlaybackHistoryEntry J)
  pub entry : PlaybackHistoryEntry J
  pub after : List (PlaybackHistoryEntry J)

pub extended : {J : Type 0} → Play → String → PlaybackHistoryEntry J → PlaybackHistoryEntry J
extended p ts e = record e {
  last_played_at = ts;
  ended_at = some ts;
  updated_at = ts;
  metadata = record (e.metadata) {
    last_known_name = some p.name;
    catalog_version = p.catalog_version;
  };
}

module _ {J : Type 0} (parse_time : String → Option ℕ) where
  pub is_recent : ℕ → PlaybackHistoryEntry J → Bool
  is_recent cutoff e = elim (parse_time e.last_played_at) [ none ↦ false | some t ↦ leb cutoff t ]

  pub retain_recent : ℕ → List (PlaybackHistoryEntry J) → List (PlaybackHistoryEntry J)
  retain_recent cutoff [] = []
  retain_recent cutoff (e ∷ history) =
      let rest = retain_recent cutoff history in if is_recent cutoff e then e ∷ rest else rest

  -- `now` is the clock's instant, after 1970 by more than the retention.
  pub retain : ℕ → List (PlaybackHistoryEntry J) → List (PlaybackHistoryEntry J)
  retain now history =
      take max_history (sort_by newest_first (retain_recent (now - history_retention) history))

  pub latest : List (PlaybackHistoryEntry J) → Option (Latest J)
  latest [] = none
  latest (e ∷ history) = elim (latest history) [
    | none ↦ some (record { before = []; entry = e; after = [] })
    | some l ↦
        if at_least (parse_time l.entry.last_played_at) (parse_time e.last_played_at)
        then some (record l { before = e ∷ l.before })
        else some (record { before = []; entry = e; after = history })
  ]

  module _ (no_extra : J) where
    pub new_entry : Play → String → PlaybackHistoryEntry J
    new_entry p ts = record {
      record_id = p.uuid;
      station_id = p.station_id;
      started_at = ts;
      last_played_at = ts;
      updated_at = ts;
      ended_at = some ts;
      play_duration_ms = some 0;
      metadata = record {
        last_known_name = some p.name;
        catalog_version = p.catalog_version;
        source = some "bundled";
        extra = no_extra;
      };
    }

    pub add_or_extend :
        Play
        → String
        → ℕ
        → List (PlaybackHistoryEntry J)
        → Option (Latest J)
        → Result ProfileError (List (PlaybackHistoryEntry J))
    add_or_extend p ts started history none = ok (history ++ (new_entry p ts ∷ []))
    add_or_extend p ts started history (some l) =
        if str_eq l.entry.station_id p.station_id
        then (elim (parse_time l.entry.last_played_at) [
          | none ↦ err (invalid "time")
          | some last ↦
              if leb started (last + coalesce)
              then ok (l.before ++ (extended p ts l.entry ∷ l.after))
              else ok (history ++ (new_entry p ts ∷ []))
        ])
        else ok (history ++ (new_entry p ts ∷ []))

    -- `ts` is what the clock gave at first, `now` what it gave to `retain`; `save` follows.
    pub record_play :
        Play
        → String
        → ℕ
        → List (PlaybackHistoryEntry J)
        → Result ProfileError (List (PlaybackHistoryEntry J))
    record_play p ts now history = elim (parse_time ts) [
      | none ↦ err (invalid "time")
      | some started ↦ elim (add_or_extend p ts started history (latest history)) [
        | err e ↦ err e
        | ok written ↦ ok (retain now written)
      ]
    ]

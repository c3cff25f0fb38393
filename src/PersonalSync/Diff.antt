-- ===== src/PersonalSync/Diff.antt =====
-- `SyncState::diff` and `matched_to` of src/personal_sync/state.rs. The source has each loop
-- twice, for favourites and for history; here they are written once, over an interface for a record.
-- A `HashMap<Uuid, R>` is a list of its entries: lookups go by the key, and the order in which the
-- source iterates is that of the list.
pub mod Lookups
pub mod Apply
pub mod Settled
mod Tests
use Prim.Native.String.{String}
use rockcast.Prelude.{
  ℕ, Bool, true, false, not, ◌||◌, Option, none, some, List, [], ◌∷◌, map, ◌==◌, if◌then◌else◌, ◌≡◌,
  ◌↔◌,
}
use rockcast.Prelude.Maps.{lookup, insert}
use rockcast.PersonalSync.{Changes, RecordDelete}

-- A synchronised record `R`, and what is pushed of it. `same` is the derived `PartialEq`.
pub record Synced (R P : Type 0) : Type 0 where
  pub record_id : R → ℕ
  pub updated_at : R → String
  pub same : R → R → Bool
  pub same_iff : (a b : R) → (same a b ≡ true) ↔ (a ≡ b)
  pub push : R → P

module _ {R P : Type 0} (sync : Synced R P) where
  -- `collect` of pairs of a record's id and the record.
  pub collect_into : List (ℕ × R) → List R → List (ℕ × R)
  collect_into m [] = m
  collect_into m (r ∷ records) = collect_into (insert (sync.record_id r) r m) records

  pub matched_to : List R → List (ℕ × R)
  matched_to records = collect_into [] records

  pub unchanged : List (ℕ × R) → R → Bool
  unchanged base r = elim (lookup (sync.record_id r) base) [ none ↦ false | some b ↦ sync.same b r ]

  pub has_id : ℕ → List R → Bool
  has_id id [] = false
  has_id id (r ∷ records) = sync.record_id r == id || has_id id records

  -- The records that are pushed, before their conversion.
  pub changed : List (ℕ × R) → List R → List R
  changed base [] = []
  changed base (r ∷ records) =
      if unchanged base r then changed base records else r ∷ changed base records

  pub missing : List (ℕ × R) → List R → List (ℕ × R)
  missing [] records = []
  missing ((id, b) ∷ base) records =
      if has_id id records then missing base records else (id, b) ∷ missing base records

  -- The stamp of a deletion comes from the clock and the time of the base version.
  pub diff : (String → String) → List (ℕ × R) → List R → Changes P
  diff tombstone base records = record {
    upserts = map sync.push (changed base records);
    deletes =
        map
          (λ entry. record {
            record_id = entry.0;
            updated_at = tombstone (sync.updated_at entry.1);
          })
          (missing base records);
  }

-- ===== src/PersonalData/SyncApply/Tests.antt =====
-- A batch taken in by src/personal_data/sync_apply.rs.
use Prim.Native.String.{String}
use text.Mathlib.Text.{◌==◌ as str_eq}
use rockcast.Prelude.{ℕ, Option, none, some, [], ◌∷◌, ◌≡◌, refl, if◌then◌else◌}
use rockcast.PersonalSync.{FavouriteRecord}
use rockcast.PersonalData.{Favourite}
use rockcast.PersonalData.SyncApply.{
  favourites_incoming, find, retain_other, replace, is_newer, place, apply_one, apply_all,
}
use rockcast.PersonalData.SyncApply.Merge.{seek, merge_all, apply_all_lem}

-- Time stamps are the words for their instants.
abbrev clock : String → Option ℕ
clock s = if str_eq s "one" then some 1 else if str_eq s "two" then some 2 else none

abbrev kept : Favourite
kept = record {
  record_id = 4;
  station_id = "rock";
  added_at = "one";
  updated_at = "one";
  metadata = record { last_known_name = some "Rock"; catalog_version = none };
}

abbrev moved : FavouriteRecord
moved = record {
  record_id = 4;
  station_id = some "metal";
  added_at = "one";
  updated_at = "two";
  deleted_at = none;
}

abbrev removed : FavouriteRecord
removed = record {
  record_id = 5;
  station_id = none;
  added_at = "one";
  updated_at = "two";
  deleted_at = some "two";
}

batch_run :
    apply_all favourites_incoming clock (kept ∷ [], 0) (moved ∷ removed ∷ [])
    ≡ (record kept { station_id = "metal"; updated_at = "two" } ∷ [], 1)
unfolding apply_all apply_one place find retain_other replace is_newer
batch_run = refl

apply_all_lem_example :
    seek favourites_incoming clock 4
      (apply_all favourites_incoming clock (kept ∷ [], 0) (moved ∷ removed ∷ [])).0
    ≡ merge_all favourites_incoming clock 4
        (moved ∷ removed ∷ [])
        (seek favourites_incoming clock 4 (kept ∷ []))
apply_all_lem_example =
    apply_all_lem favourites_incoming clock (moved ∷ removed ∷ []) (kept ∷ []) 0 4

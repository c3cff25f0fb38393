-- ===== src/PersonalData/Favourites/Tests.antt =====
-- Favourites toggled in src/personal_data/mod.rs.
use rockcast.Prelude.{true, false, none, some, [], ◌∷◌, ◌≡◌, refl, arith}
use rockcast.Prelude.Results.{err, ok}
use rockcast.PersonalData.{Favourite}
use rockcast.PersonalData.Favourites.{
  Surroundings, io, toggled, removed, is_favourite, new_favourite, add_favourite, toggle_favourite,
  act_all,
}
use rockcast.PersonalData.Favourites.Single.{IsWellFormed, act_all-IsWellFormed}

abbrev around : Surroundings
around = record { clock = ok "t1"; uuid = 4; save_error = none; catalog_version = some "v2" }

abbrev full_disk : Surroundings
full_disk = record { clock = ok "t2"; uuid = 5; save_error = some io; catalog_version = none }

abbrev rock : Favourite
rock = record {
  record_id = 4;
  station_id = "rock";
  added_at = "t1";
  updated_at = "t1";
  metadata = record { last_known_name = some "Rock"; catalog_version = some "v2" };
}

adds : toggle_favourite around "rock" "Rock" [] ≡ (rock ∷ [], ok true)
unfolding toggle_favourite is_favourite add_favourite new_favourite
adds = refl

-- The favourite stays in memory although it could not be saved.
kept_unsaved : (toggle_favourite full_disk "metal" "Metal" []).1 ≡ err io
unfolding toggle_favourite is_favourite add_favourite
kept_unsaved = refl

nothing : IsWellFormed []
nothing = record { bound = omega arith; single = tt }

act_all-IsWellFormed_example : IsWellFormed (
    act_all
      (toggled around "rock" "Rock"
        ∷ toggled full_disk "metal" "Metal"
        ∷ removed around "rock"
        ∷ [])
      [])
act_all-IsWellFormed_example =
    act_all-IsWellFormed
      (toggled around "rock" "Rock"
        ∷ toggled full_disk "metal" "Metal"
        ∷ removed around "rock"
        ∷ [])
      [] nothing

no_metal : is_favourite "metal" (rock ∷ []) ≡ false
unfolding is_favourite
no_metal = refl

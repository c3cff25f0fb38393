-- ===== src/PersonalData/Favourites.antt =====
-- The operations on favourites of `PersonalDataStore` in src/personal_data/mod.rs. What the clock and the file
-- system do is given.
pub mod Single
mod Tests
use Prim.Native.String.{String}
use text.Mathlib.Text.{◌==◌ as str_eq}
use rockcast.Prelude.{
  ℕ, Bool, true, false, not, ◌||◌, Option, none, some, List, [], ◌∷◌, ◌++◌, length, leb, ltb,
  if◌then◌else◌,
}
use rockcast.Prelude.Results.{Result, err, ok}
use rockcast.PersonalData.{Favourite, DisplayMetadata}

-- The error types of the file system and of serde_json are left out.
pub data ProfileError : Type 0 where
  unsupported_schema : ℕ → ProfileError
  invalid : String → ProfileError
  io : ProfileError
  json : ProfileError

abbrev pub max_favourites : ℕ
max_favourites = 500

-- What `now` returns, what `Uuid::new_v4` returns, the error of `save` if it makes one, and the catalogue's
-- version.
pub record Surroundings : Type 0 where
  pub clock : Result ProfileError String
  pub uuid : ℕ
  pub save_error : Option ProfileError
  pub catalog_version : Option String

unfoldable pub is_favourite : String → List Favourite → Bool
is_favourite station_id [] = false
is_favourite station_id (f ∷ favourites) =
    str_eq f.station_id station_id || is_favourite station_id favourites

-- `retain(|f| f.station_id != station_id)`
pub retain_others : String → List Favourite → List Favourite
retain_others station_id [] = []
retain_others station_id (f ∷ favourites) =
    let rest = retain_others station_id favourites in
    if str_eq f.station_id station_id then rest else f ∷ rest

-- `self.save()?; Ok(value)`
abbrev pub saved : Surroundings → Bool → Result ProfileError Bool
saved s value = elim s.save_error [ none ↦ ok value | some e ↦ err e ]

pub remove_favourite :
    Surroundings → String → List Favourite → List Favourite × Result ProfileError Bool
remove_favourite s station_id favourites = (
  retain_others station_id favourites,
  if is_favourite station_id favourites then saved s true else ok false,
)

pub new_favourite : Surroundings → String → String → String → Favourite
new_favourite s station_id name ts = record {
  record_id = s.uuid;
  station_id = station_id;
  added_at = ts;
  updated_at = ts;
  metadata = record { last_known_name = some name; catalog_version = s.catalog_version };
}

-- The end of both functions, for a station that is no favourite.
pub add_favourite :
    Surroundings → String → String → List Favourite → List Favourite × Result ProfileError Bool
add_favourite s station_id name favourites =
    if leb max_favourites (length favourites)
    then (favourites, err (invalid "favourites limit reached"))
    else elim s.clock [
      | err e ↦ (favourites, err e)
      | ok ts ↦ (favourites ++ (new_favourite s station_id name ts ∷ []), saved s true)
    ]

abbrev pub no_longer : Result ProfileError Bool → Result ProfileError Bool
no_longer (err e) = err e
no_longer (ok existed) = ok false

-- `toggle_favourite_by_id`, and `toggle_favourite` of a station with this id and name: the text is the same.
pub toggle_favourite :
    Surroundings → String → String → List Favourite → List Favourite × Result ProfileError Bool
toggle_favourite s station_id name favourites =
    if is_favourite station_id favourites
    then (let removed = remove_favourite s station_id favourites in
        (removed.0, no_longer removed.1))
    else add_favourite s station_id name favourites

-- What a user does.
pub data Action : Type 0 where
  toggled : Surroundings → String → String → Action
  removed : Surroundings → String → Action

pub act : Action → List Favourite → List Favourite
act (toggled s station_id name) favourites = (toggle_favourite s station_id name favourites).0
act (removed s station_id) favourites = (remove_favourite s station_id favourites).0

pub act_all : List Action → List Favourite → List Favourite
act_all [] favourites = favourites
act_all (a ∷ actions) favourites = act_all actions (act a favourites)

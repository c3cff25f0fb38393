-- ===== src/PersonalData/Favourites/Single.antt =====
-- The favourites of src/personal_data/mod.rs hold each station once, and toggling is undone by toggling.
use Prim.Native.String.{String}
use text.Mathlib.Text.{◌==◌ as str_eq}
use text.Mathlib.TextEquality.{eq_iff}
use rockcast.Prelude.{
  ◌≤◌, ◌<◌, Bool, true, false, ◌||◌, none, List, [], ◌∷◌, ◌++◌, length, length-append, leb, ◌≡◌,
  refl, sym, ap, ◌∙◌, inl, inr, Bool-cases, arith,
}
use rockcast.Prelude.Results.{Result, err, ok}
use rockcast.PersonalData.{Favourite}
use rockcast.PersonalData.Favourites.{
  ProfileError, max_favourites, Surroundings, is_favourite, retain_others, saved, remove_favourite,
  new_favourite, add_favourite, toggle_favourite, Action, toggled, removed, act, act_all,
}

text_same : (a : String) → str_eq a a ≡ true
text_same a = (eq_iff a a).1 refl

-- No station is a favourite twice.
abbrev pub AreSingle : List Favourite → Type 0
AreSingle [] = Unit
AreSingle (f ∷ favourites) = (is_favourite f.station_id favourites ≡ false) × AreSingle favourites

pub record IsWellFormed (favourites : List Favourite) : Type 0 where
  pub bound : length favourites ≤ max_favourites
  pub single : AreSingle favourites

is_favourite-append :
    (id : String) (xs ys : List Favourite)
    → is_favourite id (xs ++ ys) ≡ (is_favourite id xs || is_favourite id ys)
unfolding is_favourite
is_favourite-append id [] ys = refl
is_favourite-append id (x ∷ xs) ys = ground (arith, is_favourite-append id xs ys)

is_favourite-retain_others :
    (id other : String) (xs : List Favourite)
    → is_favourite id xs ≡ false
    → is_favourite id (retain_others other xs) ≡ false
unfolding is_favourite retain_others
is_favourite-retain_others id other [] h = refl
is_favourite-retain_others id other (x ∷ xs) h =
    ground (arith, is_favourite-retain_others id other xs)

retain_others-AreSingle :
    (id : String) (xs : List Favourite) → AreSingle xs → AreSingle (retain_others id xs)
unfolding retain_others
retain_others-AreSingle id [] s = tt
retain_others-AreSingle id (x ∷ xs) s = elim (Bool-cases (str_eq x.station_id id)) [
  | inl here ↦ rw here (retain_others-AreSingle id xs s.1)
  | inr other ↦
      rw other
        (is_favourite-retain_others x.station_id id xs s.0, retain_others-AreSingle id xs s.1)
]

retain_others-le : (id : String) (xs : List Favourite) → length (retain_others id xs) ≤ length xs
unfolding retain_others
retain_others-le id [] = omega arith
retain_others-le id (x ∷ xs) = ground (arith, retain_others-le id xs)

pub is_favourite-retained :
    (id : String) (xs : List Favourite) → is_favourite id (retain_others id xs) ≡ false
unfolding is_favourite retain_others
is_favourite-retained id [] = refl
is_favourite-retained id (x ∷ xs) = ground (arith, is_favourite-retained id xs)

retain_others_absent :
    (id : String) (xs : List Favourite) → is_favourite id xs ≡ false → retain_others id xs ≡ xs
unfolding is_favourite retain_others
retain_others_absent id [] h = refl
retain_others_absent id (x ∷ xs) h = ground (arith, retain_others_absent id xs)

retain_others-append :
    (id : String) (xs : List Favourite) (f : Favourite)
    → f.station_id ≡ id
    → retain_others id (xs ++ (f ∷ [])) ≡ retain_others id xs
unfolding retain_others
retain_others-append id [] f h =
    let same : str_eq f.station_id id ≡ true = (eq_iff f.station_id id).1 h in rw same refl
retain_others-append id (x ∷ xs) f h = ground (arith, retain_others-append id xs f h)

append-AreSingle :
    (xs : List Favourite) (f : Favourite)
    → AreSingle xs
    → is_favourite f.station_id xs ≡ false
    → AreSingle (xs ++ (f ∷ []))
unfolding is_favourite
append-AreSingle [] f s h = (refl, tt)
append-AreSingle (x ∷ xs) f s h = elim (Bool-cases (str_eq f.station_id x.station_id)) [
  | inl same ↦
      let back : str_eq x.station_id f.station_id ≡ true =
        (eq_iff x.station_id f.station_id).1 (sym ((eq_iff f.station_id x.station_id).0 same)) in
      absurd (ground arith)
  | inr other ↦ (
    ground (arith, is_favourite-append x.station_id xs (f ∷ []), s.0),
    append-AreSingle xs f s.1 (ground arith),
  )
]

add-IsWellFormed :
    (s : Surroundings) (id name : String) (xs : List Favourite)
    → IsWellFormed xs
    → is_favourite id xs ≡ false
    → IsWellFormed (add_favourite s id name xs).0
unfolding add_favourite new_favourite
add-IsWellFormed s id name xs w absent = elim (Bool-cases (leb max_favourites (length xs))) [
  | inl full ↦ rw full w
  | inr room ↦ rw room (timed (ground arith) s.clock)
]
  where
    timed :
        length xs < max_favourites
        → (clock : Result ProfileError String)
        → let result : List Favourite × Result ProfileError Bool = elim clock [
          | err e ↦ (xs, err e)
          | ok ts ↦ (xs ++ (new_favourite s id name ts ∷ []), saved s true)
        ] in
          IsWellFormed result.0
    timed room (err e) = w
    timed room (ok ts) = record {
      bound = ground (arith, length-append xs (new_favourite s id name ts ∷ []));
      single = append-AreSingle xs (new_favourite s id name ts) w.single absent;
    }

remove-IsWellFormed :
    (s : Surroundings) (id : String) (xs : List Favourite)
    → IsWellFormed xs
    → IsWellFormed (remove_favourite s id xs).0
unfolding remove_favourite
remove-IsWellFormed s id xs w = record {
  bound = omega (arith, w.bound, retain_others-le id xs);
  single = retain_others-AreSingle id xs w.single;
}

toggle-IsWellFormed :
    (s : Surroundings) (id name : String) (xs : List Favourite)
    → IsWellFormed xs
    → IsWellFormed (toggle_favourite s id name xs).0
unfolding toggle_favourite
toggle-IsWellFormed s id name xs w = elim (Bool-cases (is_favourite id xs)) [
  | inl there ↦ rw there (remove-IsWellFormed s id xs w)
  | inr absent ↦ rw absent (add-IsWellFormed s id name xs w absent)
]

-- Whatever a user toggles and removes, and whatever the clock and the file system do, favourites that were
-- at most 500 with no station twice remain so.
pub act_all-IsWellFormed :
    (actions : List Action) (xs : List Favourite)
    → IsWellFormed xs
    → IsWellFormed (act_all actions xs)
unfolding act_all act
act_all-IsWellFormed [] xs w = w
act_all-IsWellFormed (toggled s id name ∷ actions) xs w =
    act_all-IsWellFormed actions (toggle_favourite s id name xs).0
      (toggle-IsWellFormed s id name xs w)
act_all-IsWellFormed (removed s id ∷ actions) xs w =
    act_all-IsWellFormed actions (remove_favourite s id xs).0 (remove-IsWellFormed s id xs w)

is_favourite_added :
    (id : String) (f : Favourite) (xs : List Favourite)
    → f.station_id ≡ id
    → is_favourite id (xs ++ (f ∷ [])) ≡ true
unfolding is_favourite
is_favourite_added id f [] h =
    let same : str_eq f.station_id id ≡ true = (eq_iff f.station_id id).1 h in rw same refl
is_favourite_added id f (x ∷ xs) h = ground (arith, is_favourite_added id f xs h)

-- With a clock, a file system without errors and room for one more, toggling a station that is no favourite adds it and says so; toggling it
-- again, under whatever name and at whatever time, says that it is none and gives back the favourites as they were.
toggle-toggle :
    (s t : Surroundings) (id name other ts : String) (xs : List Favourite)
    → is_favourite id xs ≡ false
    → length xs < max_favourites
    → s.clock ≡ ok ts
    → s.save_error ≡ none
    → t.save_error ≡ none
    → let on = toggle_favourite s id name xs in
      (on.1 ≡ ok true)
      × (is_favourite id on.0 ≡ true)
      × (toggle_favourite t id other on.0 ≡ (xs, ok false))
unfolding toggle_favourite add_favourite remove_favourite new_favourite
toggle-toggle s t id name other ts xs absent room timed fine fine_again =
    let below : leb max_favourites (length xs) ≡ false = ground arith in
    let f : Favourite = new_favourite s id name ts in
    let on : is_favourite id (xs ++ (f ∷ [])) ≡ true = is_favourite_added id f xs refl in
    rw (absent, below, timed, fine)
      (
        refl,
        on,
        rw (on, fine_again)
            (ap (λ ys. (ys, ok false))
              (retain_others-append id xs f refl ∙ retain_others_absent id xs absent)),
      )

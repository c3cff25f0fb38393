-- ===== src/PersonalData/Remap/Single.antt =====
-- What remapping by src/personal_data/mod.rs leaves of the favourites.
use Prim.Native.String.{String}
use text.Mathlib.Text.{◌==◌ as str_eq}
use text.Mathlib.TextEquality.{eq_iff}
use rockcast.Prelude.{
  true, false, ◌||◌, List, [], ◌∷◌, map, ◌≡◌, refl, sym, ap, ◌∙◌, inl, inr, Bool-cases, arith,
}
use rockcast.Prelude.Sorting.{put, sort_by}
use rockcast.PersonalData.{Favourite}
use rockcast.PersonalData.Favourites.{is_favourite}
use rockcast.PersonalData.Favourites.Single.{AreSingle}
use rockcast.PersonalData.Resolver.{CatalogResolver}
use rockcast.PersonalData.Remap.{
  is_later, combine, remap_favourite, added_first, merge_one, merge_all, remap_favourites,
}

combine_station :
    (existing value : Favourite) → (combine existing value).station_id ≡ existing.station_id
unfolding combine
combine_station existing value = elim (Bool-cases (is_later value.updated_at existing.updated_at)) [
  | inl later ↦ rw later refl
  | inr older ↦ rw older refl
]

is_favourite-put :
    (x : String) (f : Favourite) (fs : List Favourite)
    → is_favourite x (put added_first f fs) ≡ (str_eq f.station_id x || is_favourite x fs)
unfolding is_favourite put
is_favourite-put x f [] = refl
is_favourite-put x f (g ∷ fs) = ground (arith, is_favourite-put x f fs)

is_favourite-sort_by :
    (x : String) (fs : List Favourite) → is_favourite x (sort_by added_first fs) ≡ is_favourite x fs
unfolding is_favourite sort_by
is_favourite-sort_by x [] = refl
is_favourite-sort_by x (f ∷ fs) =
    is_favourite-put x f (sort_by added_first fs) ∙ ground (arith, is_favourite-sort_by x fs)

is_favourite-merge_one :
    (x : String) (v : Favourite) (fs : List Favourite)
    → is_favourite x (merge_one v fs) ≡ (str_eq v.station_id x || is_favourite x fs)
unfolding is_favourite merge_one
is_favourite-merge_one x v [] = refl
is_favourite-merge_one x v (f ∷ fs) = elim (Bool-cases (str_eq f.station_id v.station_id)) [
  | inl same ↦
      let one : str_eq f.station_id x ≡ str_eq v.station_id x =
        ap (λ s. str_eq s x) ((eq_iff f.station_id v.station_id).0 same) in
      rw (same, combine_station f v) (ground arith)
  | inr other ↦ rw other (ground (arith, is_favourite-merge_one x v fs))
]

not_same : (a b : String) → str_eq a b ≡ false → str_eq b a ≡ false
not_same a b h = elim (Bool-cases (str_eq b a)) [
  | inr other ↦ other
  | inl same ↦
      let back : str_eq a b ≡ true = (eq_iff a b).1 (sym ((eq_iff b a).0 same)) in
      absurd (ground arith)
]

merge_one-AreSingle :
    (v : Favourite) (fs : List Favourite) → AreSingle fs → AreSingle (merge_one v fs)
unfolding merge_one is_favourite
merge_one-AreSingle v [] s = (refl, tt)
merge_one-AreSingle v (f ∷ fs) s = elim (Bool-cases (str_eq f.station_id v.station_id)) [
  | inl same ↦ rw (AreSingle, same, combine_station f v) s
  | inr other ↦
      let back : str_eq v.station_id f.station_id ≡ false =
        not_same f.station_id v.station_id other in
      rw (AreSingle, other)
        (
          ground (arith, is_favourite-merge_one f.station_id v fs, s.0),
          merge_one-AreSingle v fs s.1,
        )
]

merge_all_lem :
    (vs fs : List Favourite)
    → AreSingle fs
    → AreSingle (merge_all vs fs)
      × ((x : String) → is_favourite x (merge_all vs fs) ≡ (is_favourite x vs || is_favourite x fs))
unfolding merge_all is_favourite
merge_all_lem [] fs s = (s, λ x. refl)
merge_all_lem (v ∷ vs) fs s =
    let rest = merge_all_lem vs (merge_one v fs) (merge_one-AreSingle v fs s) in
    (rest.0, λ x. ground (arith, rest.1 x, is_favourite-merge_one x v fs))

-- After a remapping, whatever the favourites were, no station is a favourite twice, and a station is a favourite
-- just when it was one under its own id or under one that now resolves to it.
pub remap_favourites_lem :
    (r : CatalogResolver) (fs : List Favourite)
    → AreSingle (remap_favourites r fs)
      × ((x : String)
          → is_favourite x (remap_favourites r fs) ≡ is_favourite x (map (remap_favourite r) fs))
unfolding remap_favourites is_favourite
remap_favourites_lem r fs =
    let sorted : List Favourite = sort_by added_first (map (remap_favourite r) fs) in
    let all = merge_all_lem sorted [] tt in
    (all.0, λ x. all.1 x ∙ ground (arith, is_favourite-sort_by x (map (remap_favourite r) fs)))

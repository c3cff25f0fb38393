-- ===== src/Remote/Placed.antt =====
-- The station of a play_stream command in the list of stations: `place_delivered`, from src/app/actions/playback.rs.
use Prim.Native.String.{String}
use text.Mathlib.Text.{◌==◌ as str_eq}
use text.Mathlib.TextEquality.{eq_iff}
use rockcast.Prelude.{
  ℕ, zero, suc, if◌then◌else◌, Option, none, some, List, [], ◌∷◌, ◌++◌, length, get_elem?, ◌≡◌, ◌≢◌,
  refl, sym, ap, inl, inr, Bool-cases, Option-cases,
}
use rockcast.DeviceControl.Protocol.{StationPresentation}
use rockcast.Stations.Catalog.{Station, StationStream}
use rockcast.Stations.Codec.{from_primary}
use rockcast.Remote.Plan.{position_of}
use rockcast.Remote.Controls.{
  redirect_primary, update_at, name_or, delivered_station, redirected, place_delivered,
}

-- The address of the first stream that is primary.
pub primary_url : List StationStream → Option String
primary_url [] = none
primary_url (s ∷ streams) = let rest = primary_url streams in if s.primary then some s.url else rest

-- A station can be listened to at this address, and at no other as its first choice.
pub record IsAt (uri : String) (s : Station) : Type 0 where
  pub same_url : s.url ≡ uri
  pub same_primary : (url : String) → primary_url s.streams ≡ some url → url ≡ uri

-- The station stands at this place with the id and the address of the command and the name that came with it, if
-- any; the others are as they were.
pub record DeliveredAt (id : String) (shown : Option StationPresentation) (uri : String)
    (before after : List Station) (i : ℕ) : Type 0 where
  pub station : Station
  pub here : get_elem? after i ≡ some station
  pub same_id : station.id ≡ id
  pub same_uri : IsAt uri station
  pub shown_name : (p : StationPresentation) → shown ≡ some p → station.name ≡ p.name
  pub others : (j : ℕ) → j ≢ i → get_elem? after j ≡ get_elem? before j

redirect_primary-url :
    (uri url : String) (streams : List StationStream)
    → primary_url (redirect_primary uri streams) ≡ some url
    → url ≡ uri
unfolding primary_url redirect_primary
redirect_primary-url uri url [] = λ e. absurd cc
redirect_primary-url uri url (s ∷ streams) = elim (Bool-cases s.primary) [
  | inl first ↦ rw (redirect_primary, primary_url, first) (λ e. cc)
  | inr other ↦ rw (redirect_primary, primary_url, other) (redirect_primary-url uri url streams)
]

redirected-IsAt :
    (shown : Option StationPresentation) (uri : String) (s : Station)
    → IsAt uri (redirected shown uri s)
unfolding redirected
redirected-IsAt shown uri s = record {
  same_url = refl;
  same_primary = λ url e. redirect_primary-url uri url s.streams e;
}

delivered_station-IsAt :
    (id : String) (shown : Option StationPresentation) (uri : String)
    → IsAt uri (delivered_station id shown uri)
unfolding delivered_station from_primary primary_url
delivered_station-IsAt id shown uri = record { same_url = refl; same_primary = λ url e. cc }

record Position (id : String) (stations : List Station) (i : ℕ) : Type 0 where
  station : Station
  here : get_elem? stations i ≡ some station
  same_id : station.id ≡ id

position_of-Position :
    (id : String) (stations : List Station) (i : ℕ)
    → position_of id stations ≡ some i
    → Position id stations i
unfolding position_of
position_of-Position id [] i = λ e. absurd cc
position_of-Position id (s ∷ stations) i = elim (Bool-cases (str_eq s.id id)) [
  | inl same ↦
      rw (position_of, same)
        (λ e.
          let z : 0 ≡ i = cc in
          rw (sym z) (record { station = s; here = refl; same_id = (eq_iff s.id id).0 same }))
  | inr other ↦ elim (Option-cases (position_of id stations)) [
    | inl absent ↦ rw (position_of, other, absent) (λ e. absurd cc)
    | inr (k, found) ↦
        rw (position_of, other, found)
          (λ e.
            let z : suc k ≡ i = cc in
            let p : Position id stations k = position_of-Position id stations k found in
            rw (sym z) (record { station = p.station; here = p.here; same_id = p.same_id }))
  ]
]

get_elem?-update_at :
    (i : ℕ) (f : Station → Station) (s : Station) (stations : List Station)
    → get_elem? stations i ≡ some s
    → get_elem? (update_at i f stations) i ≡ some (f s)
unfolding update_at
get_elem?-update_at i f s [] e = absurd cc
get_elem?-update_at zero f s (x ∷ xs) e = let z : x ≡ s = cc in ap (λ y. some (f y)) z
get_elem?-update_at (suc i) f s (x ∷ xs) e = get_elem?-update_at i f s xs e

get_elem?-update_at_other :
    (i j : ℕ) (f : Station → Station) (stations : List Station)
    → j ≢ i
    → get_elem? (update_at i f stations) j ≡ get_elem? stations j
unfolding update_at
get_elem?-update_at_other i j f [] h = refl
get_elem?-update_at_other zero zero f (x ∷ xs) h = absurd (h refl)
get_elem?-update_at_other zero (suc j) f (x ∷ xs) h = refl
get_elem?-update_at_other (suc i) zero f (x ∷ xs) h = refl
get_elem?-update_at_other (suc i) (suc j) f (x ∷ xs) h =
    get_elem?-update_at_other i j f xs (λ e. h (ap suc e))

get_elem?-last :
    (s : Station) (stations : List Station)
    → get_elem? (stations ++ (s ∷ [])) (length stations) ≡ some s
get_elem?-last s [] = refl
get_elem?-last s (x ∷ xs) = get_elem?-last s xs

get_elem?-before :
    (s : Station) (stations : List Station) (j : ℕ)
    → j ≢ length stations
    → get_elem? (stations ++ (s ∷ [])) j ≡ get_elem? stations j
get_elem?-before s [] zero h = absurd (h refl)
get_elem?-before s [] (suc j) h = refl
get_elem?-before s (x ∷ xs) zero h = refl
get_elem?-before s (x ∷ xs) (suc j) h = get_elem?-before s xs j (λ e. h (ap suc e))

name_or_shown :
    (other : String) (shown : Option StationPresentation) (p : StationPresentation)
    → shown ≡ some p
    → name_or other shown ≡ p.name
unfolding name_or
name_or_shown other none p e = absurd cc
name_or_shown other (some q) p e = cc

pub place_delivered-DeliveredAt :
    (id : String) (shown : Option StationPresentation) (uri : String) (stations : List Station)
    → DeliveredAt id shown uri stations
        (place_delivered id shown uri stations).0
        (place_delivered id shown uri stations).1
unfolding place_delivered redirected delivered_station from_primary
place_delivered-DeliveredAt id shown uri stations = elim (Option-cases (position_of id stations)) [
  | inl absent ↦
      rw (place_delivered, absent)
        (record {
          station = delivered_station id shown uri;
          here = get_elem?-last (delivered_station id shown uri) stations;
          same_id = refl;
          same_uri = delivered_station-IsAt id shown uri;
          shown_name = λ p e. name_or_shown id shown p e;
          others = λ j h. get_elem?-before (delivered_station id shown uri) stations j h;
        })
  | inr (i, found) ↦
      let p : Position id stations i = position_of-Position id stations i found in
      rw (place_delivered, found)
        (record {
          station = redirected shown uri p.station;
          here = get_elem?-update_at i (redirected shown uri) p.station stations p.here;
          same_id = p.same_id;
          same_uri = redirected-IsAt shown uri p.station;
          shown_name = λ q e. name_or_shown p.station.name shown q e;
          others = λ j h. get_elem?-update_at_other i j (redirected shown uri) stations h;
        })
]

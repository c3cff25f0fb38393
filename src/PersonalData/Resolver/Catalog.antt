-- ===== src/PersonalData/Resolver/Catalog.antt =====
-- What `CatalogResolver::from_stations` in src/personal_data/records.rs makes of the catalogue.
use mathlib.Core.Path.{subst}
use Prim.Native.String.{String, ◌++◌ as text_append}
use text.Mathlib.Text.{◌==◌ as str_eq}
use text.Mathlib.TextEquality.{eq_iff}
use rockcast.Prelude.{
  ℕ, true, ◌||◌, Option, none, some, List, [], ◌∷◌, All, All-map, ◌≡◌, refl, inl, inr, Bool-cases,
  arith,
}
use rockcast.Prelude.TextMaps.{mem_text, lookup_text, or_insert}
use rockcast.Prelude.Results.{ok}
use rockcast.PersonalData.Resolver.{
  Tombstone, Station, CatalogResolver, strip_prefix, insert_legacy, insert_legacies,
  collect_stations, from_stations, with_tombstones, valid_station_id, resolve,
}
use rockcast.PersonalData.Resolver.Names.{
  Leads, arrives, passes, Names, listed, renamed, buried, resolve-Names,
}

pub ids_of : List Station → List String
ids_of [] = []
ids_of (s ∷ stations) = s.id ∷ ids_of stations

-- The old names all stand for stations that are listed.
AllKnown : List String → List (String × String) → Type 0
AllKnown active legacy = All (λ (p : String × String). mem_text p.1 active ≡ true) legacy

none_known : AllKnown [] []
unfolding AllKnown
none_known = tt

or_insert-AllKnown :
    (active : List String) (id target : String) (legacy : List (String × String))
    → mem_text target active ≡ true
    → AllKnown active legacy
    → AllKnown active (or_insert id target legacy)
unfolding or_insert AllKnown
or_insert-AllKnown active id target [] h a = (h, tt)
or_insert-AllKnown active id target ((k, w) ∷ m) h a = elim (Bool-cases (str_eq k id)) [
  | inl here ↦ rw (All, here) a
  | inr other ↦ rw (All, other) (a.0, or_insert-AllKnown active id target m h a.1)
]

insert_legacy-AllKnown :
    (active : List String) (target id : String) (legacy : List (String × String))
    → mem_text target active ≡ true
    → AllKnown active legacy
    → AllKnown active (insert_legacy target id legacy)
unfolding insert_legacy
insert_legacy-AllKnown active target id legacy h a = go (strip_prefix "rockmobile:rockcast-" id)
  where
    go :
        (o : Option String)
        → let made : List (String × String) = elim o [
          | none ↦ or_insert id target legacy
          | some hash ↦ or_insert (text_append "legacy-" hash) target (or_insert id target legacy)
        ] in
          AllKnown active made
    go none = or_insert-AllKnown active id target legacy h a
    go (some hash) =
        or_insert-AllKnown active (text_append "legacy-" hash) target (or_insert id target legacy) h
          (or_insert-AllKnown active id target legacy h a)

insert_legacies-AllKnown :
    (active : List String) (target : String) (ids : List String) (legacy : List (String × String))
    → mem_text target active ≡ true
    → AllKnown active legacy
    → AllKnown active (insert_legacies target ids legacy)
unfolding insert_legacies
insert_legacies-AllKnown active target [] legacy h a = a
insert_legacies-AllKnown active target (id ∷ ids) legacy h a =
    insert_legacies-AllKnown active target ids (insert_legacy target id legacy) h
      (insert_legacy-AllKnown active target id legacy h a)

more_known :
    (x : String) (active : List String) (legacy : List (String × String))
    → AllKnown active legacy
    → AllKnown (x ∷ active) legacy
unfolding AllKnown mem_text
more_known x active legacy a = All-map legacy (λ p h. ground arith) a

mem_text_head : (x : String) (xs : List String) → mem_text x (x ∷ xs) ≡ true
unfolding mem_text
mem_text_head x xs = let same : str_eq x x ≡ true = (eq_iff x x).1 refl in rw same refl

collect-AllKnown :
    (stations : List Station) (r : CatalogResolver)
    → AllKnown r.active r.legacy
    → AllKnown (collect_stations stations r).active (collect_stations stations r).legacy
unfolding collect_stations
collect-AllKnown [] r a = a
collect-AllKnown (s ∷ stations) r a =
    collect-AllKnown stations
      (record r { active = s.id ∷ r.active; legacy = insert_legacies s.id s.legacy_ids r.legacy })
      (insert_legacies-AllKnown (s.id ∷ r.active) s.id s.legacy_ids r.legacy
        (mem_text_head s.id r.active) (more_known s.id r.active r.legacy a))

collect-active :
    (x : String) (stations : List Station) (r : CatalogResolver)
    → mem_text x (collect_stations stations r).active ≡ true
    → (mem_text x (ids_of stations) || mem_text x r.active) ≡ true
unfolding collect_stations ids_of mem_text
collect-active x [] r h = h
collect-active x (s ∷ stations) r h = ground (
  arith,
  collect-active x stations
      (record r { active = s.id ∷ r.active; legacy = insert_legacies s.id s.legacy_ids r.legacy })
      h,
)

lookup-AllKnown :
    (active : List String) (legacy : List (String × String)) (id target : String)
    → AllKnown active legacy
    → lookup_text id legacy ≡ some target
    → mem_text target active ≡ true
unfolding AllKnown lookup_text
lookup-AllKnown active [] id target a e = absurd cc
lookup-AllKnown active ((k, w) ∷ m) id target a e = elim (Bool-cases (str_eq k id)) [
  | inl here ↦
      let same : some w ≡ some target = ground arith in
      let is : w ≡ target = cc in subst (λ t. mem_text t active ≡ true) is a.0
  | inr other ↦ lookup-AllKnown active m id target a.1 (ground arith)
]

Leads-active :
    (r : CatalogResolver) (n : ℕ) (id target : String)
    → Leads r n id target
    → mem_text target r.active ≡ true
Leads-active r n id target (arrives _ _ m there) = there
Leads-active r n id target (passes k _ next _ m absent rest) = Leads-active r k next target rest

Names-active :
    (r : CatalogResolver) (id target : String)
    → AllKnown r.active r.legacy
    → Names r id target
    → mem_text target r.active ≡ true
Names-active r id target a (listed there same) = subst (λ t. mem_text t r.active ≡ true) same there
Names-active r id target a (renamed absent old) = lookup-AllKnown r.active r.legacy id target a old
Names-active r id target a (buried n absent none_old l) = Leads-active r n id target l

valid_if_resolved :
    (r : CatalogResolver) (id target : String)
    → resolve r id ≡ some (ok target)
    → valid_station_id id ≡ true
unfolding resolve
valid_if_resolved r id target = elim (Bool-cases (valid_station_id id)) [
  | inl valid ↦ λ e. valid
  | inr bad ↦ rw bad (λ e. absurd cc)
]

-- With any catalogue and any tombstones, an id that resolves at all resolves to the id of a station of that
-- catalogue.
resolve-ids_of :
    (stations : List Station) (version : Option String) (tombstones : List Tombstone)
    (id target : String)
    → resolve (with_tombstones (from_stations stations version) tombstones) id ≡ some (ok target)
    → mem_text target (ids_of stations) ≡ true
unfolding from_stations with_tombstones mem_text
resolve-ids_of stations version tombstones id target e =
    let r : CatalogResolver = with_tombstones (from_stations stations version) tombstones in
    let empty : CatalogResolver = record {
      active = [];
      legacy = [];
      tombstones = [];
      catalog_version = version;
    } in
    let named : Names r id target =
      (resolve-Names r id target (valid_if_resolved r id target e)).0 e in
    let there : mem_text target (collect_stations stations empty).active ≡ true =
      Names-active r id target (collect-AllKnown stations empty none_known) named in
    let found = collect-active target stations empty there in ground arith

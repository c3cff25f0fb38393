-- ===== src/PersonalData/Resolver/Ends.antt =====
-- The loop of `CatalogResolver::resolve` in src/personal_data/records.rs ends.
use Prim.Native.String.{String}
use text.Mathlib.Text.{◌==◌ as str_eq}
use text.Mathlib.TextEquality.{eq_iff}
use rockcast.Prelude.{
  ℕ, zero, suc, ◌+◌, ◌≤◌, ◌<◌, true, false, Option, none, some, List, [], ◌∷◌, length,
  if◌then◌else◌, ◌≡◌, ◌⊎◌, refl, sym, ap, ◌∙◌, inl, inr, Bool-cases, Option-cases, arith,
}
use rockcast.Prelude.TextMaps.{mem_text, lookup_text}
use rockcast.Prelude.Results.{Result, err, ok}
use rockcast.PersonalData.Resolver.{
  removed, merged, split, TombstoneReason, Tombstone, CatalogResolver, Unresolved, valid_station_id,
  Hop, stop, onward, hop_of_tombstone, hop_of, resolve_loop, resolve,
}

-- The tombstones that the loop has not met.
pub unseen : List String → List (String × Tombstone) → ℕ
unseen seen [] = 0
unseen seen ((k, t) ∷ m) = (if mem_text k seen then 0 else 1) + unseen seen m

unseen-le :
    (x : String) (seen : List String) (m : List (String × Tombstone))
    → unseen (x ∷ seen) m ≤ unseen seen m
unfolding unseen mem_text
unseen-le x seen [] = omega arith
unseen-le x seen ((k, t) ∷ m) = ground (arith, unseen-le x seen m)

pub unseen_falls :
    (x : String) (t : Tombstone) (seen : List String) (m : List (String × Tombstone))
    → mem_text x seen ≡ false
    → lookup_text x m ≡ some t
    → unseen (x ∷ seen) m < unseen seen m
unfolding unseen mem_text lookup_text
unseen_falls x t seen [] h e = absurd cc
unseen_falls x t seen ((k, u) ∷ m) h e = elim (Bool-cases (str_eq k x)) [
  | inl here ↦
      let new : mem_text k seen ≡ false = ap (λ y. mem_text y seen) ((eq_iff k x).0 here) ∙ h in
      let back : str_eq x k ≡ true = (eq_iff x k).1 (sym ((eq_iff k x).0 here)) in
      ground (arith, unseen-le x seen m)
  | inr other ↦ ground (arith, unseen_falls x t seen m h)
]

pub unseen_start : (m : List (String × Tombstone)) → unseen [] m ≡ length m
unfolding unseen mem_text
unseen_start [] = refl
unseen_start ((k, t) ∷ m) = omega (arith, unseen_start m)

pub Hop-cases :
    (h : Hop)
    → ((result : Result Unresolved String) × (h ≡ stop result))
      ⊎ ((target : String) × (h ≡ onward target))
Hop-cases (stop result) = inl (result, refl)
Hop-cases (onward target) = inr (target, refl)

hop_of_tombstone-onward :
    (reason : TombstoneReason) (ids : List String) (target : String)
    → hop_of_tombstone reason ids ≡ onward target
    → (reason ≡ merged) × (ids ≡ target ∷ [])
unfolding hop_of_tombstone
hop_of_tombstone-onward removed ids target e = absurd cc
hop_of_tombstone-onward split ids target e = absurd cc
hop_of_tombstone-onward merged [] target e = absurd cc
hop_of_tombstone-onward merged (x ∷ []) target e = (refl, cc)
hop_of_tombstone-onward merged (x ∷ y ∷ ids) target e = absurd cc

-- What the loop goes on with is the one replacement of a merged station.
pub hop_of-onward :
    (id : String) (o : Option Tombstone) (target : String)
    → hop_of id o ≡ onward target
    → (t : Tombstone) × (o ≡ some t) × (t.reason ≡ merged) × (t.replacement_ids ≡ target ∷ [])
unfolding hop_of
hop_of-onward id none target e = absurd cc
hop_of-onward id (some t) target e =
    let found = hop_of_tombstone-onward t.reason t.replacement_ids target e in
    (t, refl, found.0, found.1)

-- The loop's rounds, by their outcome.
module _ (r : CatalogResolver) (fuel : ℕ) (id current : String) (seen : List String) where
  pub loop_met :
      mem_text current seen ≡ true
      → resolve_loop r (suc fuel) id current seen
        ≡ some (err (record { reason = "missing"; candidates = [] }))
  unfolding resolve_loop
  loop_met met = rw (resolve_loop, met) refl

  pub loop_stop :
      (result : Result Unresolved String)
      → mem_text current seen ≡ false
      → hop_of id (lookup_text current r.tombstones) ≡ stop result
      → resolve_loop r (suc fuel) id current seen ≡ some result
  unfolding resolve_loop
  loop_stop result new e = rw (resolve_loop, new, e) refl

  pub loop_found :
      (target : String)
      → mem_text current seen ≡ false
      → hop_of id (lookup_text current r.tombstones) ≡ onward target
      → mem_text target r.active ≡ true
      → resolve_loop r (suc fuel) id current seen ≡ some (ok target)
  unfolding resolve_loop
  loop_found target new e there = rw (resolve_loop, new, e, there) refl

  pub loop_on :
      (target : String)
      → mem_text current seen ≡ false
      → hop_of id (lookup_text current r.tombstones) ≡ onward target
      → mem_text target r.active ≡ false
      → resolve_loop r (suc fuel) id current seen ≡ resolve_loop r fuel id target (current ∷ seen)
  unfolding resolve_loop
  loop_on target new e absent = rw (resolve_loop, new, e, absent) refl

resolve_loop_total :
    (r : CatalogResolver) (fuel : ℕ) (id current : String) (seen : List String)
    → unseen seen r.tombstones < fuel
    → (result : Result Unresolved String) × (resolve_loop r fuel id current seen ≡ some result)
resolve_loop_total r zero id current seen h = absurd (omega arith)
resolve_loop_total r (suc fuel) id current seen h = elim (Bool-cases (mem_text current seen)) [
  | inl met ↦
      (err (record { reason = "missing"; candidates = [] }), loop_met r fuel id current seen met)
  | inr new ↦ elim (Hop-cases (hop_of id (lookup_text current r.tombstones))) [
    | inl (result, e) ↦ (result, loop_stop r fuel id current seen result new e)
    | inr (target, e) ↦ elim (Bool-cases (mem_text target r.active)) [
      | inl there ↦ (ok target, loop_found r fuel id current seen target new e there)
      | inr absent ↦
          let t = hop_of-onward id (lookup_text current r.tombstones) target e in
          let rest =
            resolve_loop_total r fuel id target (current ∷ seen)
              (omega (arith, unseen_falls current t.0 seen r.tombstones new t.1)) in
          (rest.0, loop_on r fuel id current seen target new e absent ∙ rest.1)
    ]
  ]
]

-- For any catalogue and any tombstones, merged in circles or not, and any id, the resolver comes to a result.
pub resolve_total :
    (r : CatalogResolver) (id : String)
    → (result : Result Unresolved String) × (resolve r id ≡ some result)
unfolding resolve
resolve_total r id = elim (Bool-cases (valid_station_id id)) [
  | inr bad ↦ (err (record { reason = "legacy-unmapped"; candidates = [] }), rw bad refl)
  | inl valid ↦ elim (Bool-cases (mem_text id r.active)) [
    | inl listed ↦ (ok id, rw (valid, listed) refl)
    | inr other ↦ elim (Option-cases (lookup_text id r.legacy)) [
      | inr (target, e) ↦ (ok target, rw (valid, other, e) refl)
      | inl e ↦
          let rest =
            resolve_loop_total r (suc (length r.tombstones)) id id []
              (omega (arith, unseen_start r.tombstones)) in
          (rest.0, rw (valid, other, e) rest.1)
    ]
  ]
]

-- ===== src/PersonalData/Resolver/Names.antt =====
-- What an id means to `CatalogResolver::resolve` in src/personal_data/records.rs, stated without the loop.
use mathlib.Core.Path.{subst}
use Prim.Native.String.{String}
use text.Mathlib.Text.{◌==◌ as str_eq}
use text.Mathlib.TextEquality.{eq_iff}
use rockcast.Prelude.{
  ℕ, zero, suc, ◌<◌, true, false, Option, none, some, List, [], ◌∷◌, length, ◌≡◌, ◌↔◌, refl, sym,
  ap, ◌∙◌, inl, inr, Bool-cases, Option-cases, arith,
}
use rockcast.Prelude.TextMaps.{mem_text, lookup_text}
use rockcast.Prelude.Results.{ok}
use rockcast.PersonalData.Resolver.{
  removed, merged, split, TombstoneReason, Tombstone, CatalogResolver, valid_station_id, stop,
  onward, hop_of_tombstone, hop_of, resolve_loop, resolve,
}
use rockcast.PersonalData.Resolver.Ends.{
  unseen, unseen_falls, unseen_start, hop_of-onward, Hop-cases, loop_met, loop_stop, loop_found,
  loop_on,
}

module _ (r : CatalogResolver) where
  -- A station that was merged into just one other.
  pub record MergedInto (id target : String) : Type 0 where
    pub tombstone : Tombstone
    pub found : lookup_text id r.tombstones ≡ some tombstone
    pub reason : tombstone.reason ≡ merged
    pub one : tombstone.replacement_ids ≡ target ∷ []

  -- A chain of such mergers to the first station of the catalogue, with its length.
  pub data Leads : ℕ → String → String → Type 0 where
    arrives :
        (id target : String)
        → MergedInto id target
        → mem_text target r.active ≡ true
        → Leads 1 id target
    passes :
        (n : ℕ) (id next target : String)
        → MergedInto id next
        → mem_text next r.active ≡ false
        → Leads n next target
        → Leads (suc n) id target

  -- The station that an id stands for.
  pub data Names (id target : String) : Type 0 where
    listed : mem_text id r.active ≡ true → id ≡ target → Names id target
    renamed : mem_text id r.active ≡ false → lookup_text id r.legacy ≡ some target → Names id target
    buried :
        (n : ℕ)
        → mem_text id r.active ≡ false
        → lookup_text id r.legacy ≡ none
        → Leads n id target
        → Names id target

  same_target : (id a b : String) → MergedInto id a → MergedInto id b → a ≡ b
  same_target id a b p q = let same : p.tombstone ≡ q.tombstone = cc in cc

  not_active : (a b : String) → a ≡ b → mem_text a r.active ≡ true → mem_text b r.active ≡ false → ⊥
  not_active a b e h k = cc

  hop_merged :
      (id current target : String)
      → MergedInto current target
      → hop_of id (lookup_text current r.tombstones) ≡ onward target
  unfolding hop_of hop_of_tombstone
  hop_merged id current target m = rw (m.found, m.reason, m.one) refl

  same_length : (n k : ℕ) (id s t : String) → Leads n id s → Leads k id t → n ≡ k
  same_length n k id s t (arrives _ _ m here) (arrives _ _ p there) = refl
  same_length n k id s t (arrives _ _ m here) (passes j _ next _ p away l) =
      absurd (not_active s next (same_target id s next m p) here away)
  same_length n k id s t (passes j _ next _ m away l) (arrives _ _ p there) =
      absurd (not_active t next (same_target id t next p m) there away)
  same_length n k id s t (passes i _ x _ m away l) (passes j _ y _ p off q) =
      let same : x ≡ y = same_target id x y m p in
      ap suc (same_length i j y s t (subst (λ z. Leads i z s) same l) q)

  stop_sound : (id target : String) (o : Option Tombstone) → hop_of id o ≡ stop (ok target) → ⊥
  unfolding hop_of hop_of_tombstone
  stop_sound id target none e = cc
  stop_sound id target (some t) e = inside t.reason t.replacement_ids e
    where
      inside :
          (reason : TombstoneReason) (ids : List String)
          → hop_of_tombstone reason ids ≡ stop (ok target)
          → ⊥
      inside removed ids e = cc
      inside split ids e = cc
      inside merged [] e = cc
      inside merged (x ∷ []) e = cc
      inside merged (x ∷ y ∷ ids) e = cc

  loop_sound :
      (fuel : ℕ) (id current target : String) (seen : List String)
      → resolve_loop r fuel id current seen ≡ some (ok target)
      → (n : ℕ) × Leads n current target
  unfolding resolve_loop
  loop_sound zero id current target seen e = absurd cc
  loop_sound (suc fuel) id current target seen e = elim (Bool-cases (mem_text current seen)) [
    | inl met ↦ let p = loop_met r fuel id current seen met in absurd cc
    | inr new ↦ elim (Hop-cases (hop_of id (lookup_text current r.tombstones))) [
      | inl (result, h) ↦
          let p : some result ≡ some (ok target) =
            sym (loop_stop r fuel id current seen result new h) ∙ e in
          let q : result ≡ ok target = cc in
          absurd (stop_sound id target (lookup_text current r.tombstones) (h ∙ ap stop q))
      | inr (next, h) ↦
          let t = hop_of-onward id (lookup_text current r.tombstones) next h in
          let m : MergedInto current next = record {
            tombstone = t.0;
            found = t.1;
            reason = t.2;
            one = t.3;
          } in
          elim (Bool-cases (mem_text next r.active)) [
            | inl there ↦
                let p : some (ok next) ≡ some (ok target) =
                  sym (loop_found r fuel id current seen next new h there) ∙ e in
                let is : next ≡ target = cc in
                (1, subst (Leads 1 current) is (arrives current next m there))
            | inr absent ↦
                let rest =
                  loop_sound fuel id next target (current ∷ seen)
                    (sym (loop_on r fuel id current seen next new h absent) ∙ e) in
                (suc rest.0, passes rest.0 current next target m absent rest.1)
          ]
    ]
  ]

  -- What the loop has met leads further than where it is.
  Farther : ℕ → List String → Type 0
  Farther n seen =
      (x : String) → mem_text x seen ≡ true → (k : ℕ) × (t : String) × (n < k) × Leads k x t

  unmet :
      (n : ℕ) (current target : String) (seen : List String)
      → Leads n current target
      → Farther n seen
      → mem_text current seen ≡ false
  unfolding Farther
  unmet n current target seen l far = elim (Bool-cases (mem_text current seen)) [
    | inr new ↦ new
    | inl met ↦
        let other = far current met in
        absurd (omega (arith, same_length n other.0 current target other.1 l other.3, other.2))
  ]

  Farther-on :
      (n : ℕ) (current target : String) (seen : List String)
      → Leads (suc n) current target
      → Farther (suc n) seen
      → Farther n (current ∷ seen)
  unfolding Farther mem_text
  Farther-on n current target seen l far x h = elim (Bool-cases (str_eq current x)) [
    | inl same ↦ (
      suc n,
      target,
      omega arith,
      subst (λ z. Leads (suc n) z target) ((eq_iff current x).0 same) l,
    )
    | inr other ↦ let old = far x (ground arith) in (old.0, old.1, omega (arith, old.2), old.3)
  ]

  loop_complete :
      (fuel n : ℕ) (id current target : String) (seen : List String)
      → Leads n current target
      → Farther n seen
      → unseen seen r.tombstones < fuel
      → resolve_loop r fuel id current seen ≡ some (ok target)
  loop_complete zero n id current target seen l far h = absurd (omega arith)
  loop_complete (suc fuel) n id current target seen (arrives _ _ m there) far h =
      loop_found r fuel id current seen target
        (unmet 1 current target seen (arrives current target m there) far)
        (hop_merged id current target m) there
  loop_complete (suc fuel) n id current target seen (passes k _ next _ m absent rest) far h =
      let l : Leads (suc k) current target = passes k current next target m absent rest in
      let new : mem_text current seen ≡ false = unmet (suc k) current target seen l far in
      loop_on r fuel id current seen next new (hop_merged id current next m) absent
      ∙ loop_complete fuel k id next target (current ∷ seen) rest
          (Farther-on k current target seen l far)
          (omega (arith, unseen_falls current m.tombstone seen r.tombstones new m.found))

  sound :
      (id target : String)
      → valid_station_id id ≡ true
      → resolve r id ≡ some (ok target)
      → Names id target
  unfolding resolve
  sound id target valid = elim (Bool-cases (mem_text id r.active)) [
    | inl there ↦ rw (valid, there) (λ e. listed there (cc))
    | inr absent ↦ elim (Option-cases (lookup_text id r.legacy)) [
      | inr (t, old) ↦ rw (valid, absent, old) (λ e. renamed absent (old ∙ cc))
      | inl none_old ↦
          rw (valid, absent, none_old)
            (λ e.
              let l = loop_sound (suc (length r.tombstones)) id id target [] e in
              buried l.0 absent none_old l.1)
    ]
  ]

  complete :
      (id target : String)
      → valid_station_id id ≡ true
      → Names id target
      → resolve r id ≡ some (ok target)
  unfolding resolve Farther mem_text
  complete id target valid (listed there same) = rw (valid, there) (ap (λ t. some (ok t)) same)
  complete id target valid (renamed absent old) = rw (valid, absent, old) refl
  complete id target valid (buried n absent none_old l) =
      rw (valid, absent, none_old)
        (loop_complete (suc (length r.tombstones)) n id id target [] l (λ x e. absurd cc)
          (omega (arith, unseen_start r.tombstones)))

  -- An id of a valid form resolves to a station just when it is that station's id in the catalogue, or is no id of the catalogue and
  -- was the station's id before, or is neither and the tombstones lead from it, by mergers into one
  -- station each, to the first one of them that is in the catalogue, and that is the station.
  pub resolve-Names :
      (id target : String)
      → valid_station_id id ≡ true
      → (resolve r id ≡ some (ok target)) ↔ Names id target
  resolve-Names id target valid = (sound id target valid, complete id target valid)

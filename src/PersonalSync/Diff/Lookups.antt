-- ===== src/PersonalSync/Diff/Lookups.antt =====
-- Lookups in the base and in the profile of src/personal_sync/state.rs, through each step of a diff.
use rockcast.Prelude.{
  ℕ, Bool, true, false, not, ◌&&◌, Option, none, some, List, [], ◌∷◌, map, ◌==◌, ==_iff,
  if◌then◌else◌, ◌≡◌, refl, sym, ap, ◌∙◌, inl, inr, Bool-cases, arith,
}
use std.Option.{some-injective}
use rockcast.Prelude.Maps.{mem, lookup, remove, lookup-remove}
use rockcast.PersonalSync.Diff.{Synced, unchanged, has_id, changed, missing}

abbrev pub is_some {ℓ} : {A : Type ℓ} → Option A → Bool
is_some none = false
is_some (some a) = true

abbrev pub map_option {ℓ κ} : {A : Type ℓ} → {B : Type κ} → (A → B) → Option A → Option B
map_option f none = none
map_option f (some a) = some (f a)

abbrev pub or_else {ℓ} : {A : Type ℓ} → Option A → Option A → Option A
or_else none o = o
or_else (some a) o = some a

module _ {R : Type 0} where
  -- A server that takes a push: the deletions by id, then the upserts.
  pub remove_all : List ℕ → List (ℕ × R) → List (ℕ × R)
  remove_all [] m = m
  remove_all (id ∷ ids) m = remove_all ids (remove id m)

  pub lookup-remove_all :
      (j : ℕ) (ids : List ℕ) (m : List (ℕ × R))
      → lookup j (remove_all ids m) ≡ (if mem j ids then none else lookup j m)
  unfolding remove_all mem
  lookup-remove_all j [] m = refl
  lookup-remove_all j (k ∷ ids) m =
      ground (arith, lookup-remove_all j ids (remove k m), lookup-remove k j m)

module _ {R P : Type 0} (sync : Synced R P) where
  open sync use {record_id, same, same_iff}

  -- The record of a profile with a given id, and a profile without two records of one id.
  unfoldable pub find_id : ℕ → List R → Option R
  find_id id [] = none
  find_id id (r ∷ records) = if record_id r == id then some r else find_id id records

  abbrev pub DistinctIds : List R → Type 0
  DistinctIds [] = Unit
  DistinctIds (r ∷ records) = (has_id sync (record_id r) records ≡ false) × DistinctIds records

  pub has_id-find_id :
      (id : ℕ) (records : List R) → has_id sync id records ≡ false → find_id id records ≡ none
  unfolding has_id find_id
  has_id-find_id id [] h = refl
  has_id-find_id id (r ∷ records) h = ground (arith, has_id-find_id id records)

  pub has_id-is_some :
      (id : ℕ) (records : List R) → has_id sync id records ≡ is_some (find_id id records)
  unfolding has_id find_id
  has_id-is_some id [] = refl
  has_id-is_some id (r ∷ records) = ground (arith, has_id-is_some id records)

  pub found_id :
      (id : ℕ) (records : List R) (r : R) → find_id id records ≡ some r → record_id r ≡ id
  unfolding find_id
  found_id id [] r h = ground arith
  found_id id (q ∷ records) r h = elim (Bool-cases (record_id q == id)) [
    | inl e ↦ ap record_id (sym (some-injective (ground arith))) ∙ (==_iff (record_id q) id).0 e
    | inr e ↦ found_id id records r (ground arith)
  ]

  -- What is pushed of the record that a profile has for an id.
  abbrev pub pending : List (ℕ × R) → Option R → Option R
  pending base none = none
  pending base (some r) = if unchanged sync base r then none else some r

  pub find_id-changed :
      (base : List (ℕ × R)) (id : ℕ) (records : List R)
      → DistinctIds records
      → find_id id (changed sync base records) ≡ pending base (find_id id records)
  unfolding find_id changed
  find_id-changed base id [] d = refl
  find_id-changed base id (r ∷ records) d =
      let ih = find_id-changed base id records d.1 in
      elim (Bool-cases (record_id r == id)) [
        | inl h ↦
            let e : record_id r ≡ id = (==_iff (record_id r) id).0 h in
            let gone = has_id-find_id id records (ap (λ k. has_id sync k records) (sym e) ∙ d.0) in
            elim (Bool-cases (unchanged sync base r)) [
              | inl u ↦ rw (h, u, ih, gone) refl
              | inr u ↦ rw (h, u, h) refl
            ]
        | inr h ↦ elim (Bool-cases (unchanged sync base r)) [
          | inl u ↦ rw (h, u, ih) refl
          | inr u ↦ rw (h, u, h, ih) refl
        ]
      ]

  pub lookup-unchanged :
      (base : List (ℕ × R)) (r : R)
      → unchanged sync base r ≡ true
      → lookup (record_id r) base ≡ some r
  unfolding unchanged
  lookup-unchanged base r = go (lookup (record_id r) base)
    where
      go : (o : Option R) → (elim o [ none ↦ false | some b ↦ same b r ]) ≡ true → o ≡ some r
      go none h = ground arith
      go (some b) h = ap some ((same_iff b r).0 h)

  and_false : (b : Bool) → (b && false) ≡ false
  and_false false = refl
  and_false true = refl

  pub mem-missing :
      (id : ℕ) (base : List (ℕ × R)) (records : List R)
      → mem id (map (λ e. e.0) (missing sync base records))
        ≡ (is_some (lookup id base) && not (has_id sync id records))
  unfolding mem missing lookup
  mem-missing id [] records = refl
  mem-missing id ((key, b) ∷ base) records =
      let ih = mem-missing id base records in
      elim (Bool-cases (key == id)) [
        | inl h ↦
            let e : key ≡ id = (==_iff key id).0 h in
            elim (Bool-cases (has_id sync key records)) [
              | inl u ↦
                  let there : has_id sync id records ≡ true =
                    ap (λ k. has_id sync k records) (sym e) ∙ u in
                  rw (h, u, ih, there) (and_false (is_some (lookup id base)))
              | inr u ↦
                  let gone : has_id sync id records ≡ false =
                    ap (λ k. has_id sync k records) (sym e) ∙ u in
                  rw (h, u, h, gone) refl
            ]
        | inr h ↦ elim (Bool-cases (has_id sync key records)) [
          | inl u ↦ rw (h, u, ih) refl
          | inr u ↦ rw (h, u, h, ih) refl
        ]
      ]

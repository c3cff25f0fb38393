-- ===== src/PersonalSync/Diff/Settled.antt =====
-- `diff` of src/personal_sync/state.rs against the base of `matched_to`.
use Prim.Native.String.{String}
use rockcast.Prelude.{
  ℕ, true, some, List, [], ◌∷◌, ◌==◌, ==_iff, ◌≡◌, refl, sym, ap, ◌∙◌, inl, inr, Bool-cases, All,
  arith,
}
use rockcast.Prelude.Maps.{lookup, insert, lookup-insert}
use rockcast.PersonalSync.{no_changes}
use rockcast.PersonalSync.Diff.{
  Synced, collect_into, matched_to, unchanged, has_id, changed, missing, diff,
}
use rockcast.PersonalSync.Diff.Lookups.{find_id, DistinctIds, has_id-find_id, or_else}

module _ {R P : Type 0} (sync : Synced R P) where
  open sync use {record_id, same, same_iff}

  lookup-collect_into :
      (id : ℕ) (m : List (ℕ × R)) (records : List R)
      → DistinctIds sync records
      → lookup id (collect_into sync m records) ≡ or_else (find_id sync id records) (lookup id m)
  unfolding collect_into find_id
  lookup-collect_into id m [] d = refl
  lookup-collect_into id m (r ∷ records) d =
      let ih = lookup-collect_into id (insert (record_id r) r m) records d.1 in
      elim (Bool-cases (record_id r == id)) [
        | inl h ↦
            let e : record_id r ≡ id = (==_iff (record_id r) id).0 h in
            let gone =
              has_id-find_id sync id records (ap (λ k. has_id sync k records) (sym e) ∙ d.0) in
            rw (h, ih, gone, lookup-insert (record_id r) id r m, h) refl
        | inr h ↦ rw (h, ih, lookup-insert (record_id r) id r m, h) refl
      ]

  collected :
      (m : List (ℕ × R)) (records : List R)
      → DistinctIds sync records
      → All (λ r. lookup (record_id r) (collect_into sync m records) ≡ some r) records
  unfolding collect_into
  collected m [] d = tt
  collected m (r ∷ records) d = (
    rw
        (
          lookup-collect_into (record_id r) (insert (record_id r) r m) records d.1,
          has_id-find_id sync (record_id r) records d.0,
          lookup-insert (record_id r) (record_id r) r m,
          (==_iff (record_id r) (record_id r)).1 refl,
        )
        refl,
    collected (insert (record_id r) r m) records d.1,
  )

  unchanged_of :
      (base : List (ℕ × R)) (r : R)
      → lookup (record_id r) base ≡ some r
      → unchanged sync base r ≡ true
  unfolding unchanged
  unchanged_of base r h = rw (unchanged, h) ((same_iff r r).1 refl)

  changed-none :
      (base : List (ℕ × R)) (records : List R)
      → All (λ r. lookup (record_id r) base ≡ some r) records
      → changed sync base records ≡ []
  unfolding changed
  changed-none base [] h = refl
  changed-none base (r ∷ records) h = rw (unchanged_of base r h.0) (changed-none base records h.1)

  missing-cons :
      (key : ℕ) (b : R) (m : List (ℕ × R)) (all : List R)
      → missing sync ((key, b) ∷ m) all ≡ []
      → (has_id sync key all ≡ true) × (missing sync m all ≡ [])
  unfolding missing
  missing-cons key b m all e = ground arith

  missing-insert :
      (id : ℕ) (r : R) (m : List (ℕ × R)) (all : List R)
      → has_id sync id all ≡ true
      → missing sync m all ≡ []
      → missing sync (insert id r m) all ≡ []
  unfolding missing insert
  missing-insert id r [] all h e = rw h refl
  missing-insert id r ((key, b) ∷ m) all h e =
      let rest = missing-cons key b m all e in
      elim (Bool-cases (key == id)) [
        | inl t ↦ rw (t, h) rest.1
        | inr t ↦ rw (t, rest.0) (missing-insert id r m all h rest.1)
      ]

  missing-collect_into :
      (m : List (ℕ × R)) (records all : List R)
      → ((k : ℕ) → has_id sync k records ≡ true → has_id sync k all ≡ true)
      → missing sync m all ≡ []
      → missing sync (collect_into sync m records) all ≡ []
  unfolding collect_into has_id
  missing-collect_into m [] all h e = e
  missing-collect_into m (r ∷ records) all h e =
      missing-collect_into (insert (record_id r) r m) records all (λ k t. h k (ground arith))
        (missing-insert (record_id r) r m all (h (record_id r) (ground arith)) e)

  -- With the profile as the base there is nothing to push, if no two of its records have one id.
  diff-matched_to :
      (stamp : String → String) (records : List R)
      → DistinctIds sync records
      → diff sync stamp (matched_to sync records) records ≡ no_changes
  unfolding diff matched_to
  diff-matched_to stamp records d =
      rw
        (
          changed-none (collect_into sync [] records) records (collected [] records d),
          missing-collect_into [] records records (λ k t. t) (unfold missing in refl),
        )
        refl

-- ===== src/PersonalSync/Diff/Apply.antt =====
-- What the changes of src/personal_sync/state.rs do to a server that holds the base.
use rockcast.Prelude.{
  ℕ, false, not, ◌&&◌, Option, none, some, List, [], ◌∷◌, map, ◌==◌, ==_iff, if◌then◌else◌, ◌≡◌,
  refl, sym, ap, ◌∙◌, inl, inr, Bool-cases, Option-cases, arith,
}
use Prim.Native.String.{String}
use rockcast.Prelude.Maps.{lookup, insert, lookup-insert}
use rockcast.PersonalSync.{Changes, RecordDelete}
use rockcast.PersonalSync.Diff.{Synced, unchanged, has_id, changed, missing, diff}
use rockcast.PersonalSync.Diff.Lookups.{
  is_some, map_option, or_else, remove_all, lookup-remove_all, find_id, DistinctIds, has_id-find_id,
  has_id-is_some, found_id, pending, find_id-changed, lookup-unchanged, mem-missing,
}

-- The server keeps what was pushed, `P`, under its id.
module _ {R P : Type 0} (sync : Synced R P) (push_id : P → ℕ)
    (push_id-push : (r : R) → push_id (sync.push r) ≡ sync.record_id r) where
  put_all : List (ℕ × P) → List P → List (ℕ × P)
  put_all m [] = m
  put_all m (p ∷ ps) = put_all (insert (push_id p) p m) ps

  pub take_changes : List (ℕ × P) → Changes P → List (ℕ × P)
  take_changes m c = put_all (remove_all (map (λ d. d.record_id) c.deletes) m) c.upserts

  abbrev pub pushed : List (ℕ × R) → List (ℕ × P)
  pushed [] = []
  pushed ((id, r) ∷ m) = (id, sync.push r) ∷ pushed m

  lookup-pushed :
      (id : ℕ) (m : List (ℕ × R)) → lookup id (pushed m) ≡ map_option sync.push (lookup id m)
  unfolding lookup
  lookup-pushed id [] = refl
  lookup-pushed id ((key, r) ∷ m) = ground (arith, lookup-pushed id m)

  lookup-put_all :
      (id : ℕ) (m : List (ℕ × P)) (records : List R)
      → DistinctIds sync records
      → lookup id (put_all m (map sync.push records))
        ≡ or_else (map_option sync.push (find_id sync id records)) (lookup id m)
  unfolding put_all find_id
  lookup-put_all id m [] d = refl
  lookup-put_all id m (r ∷ records) d =
      let ih = lookup-put_all id (insert (push_id (sync.push r)) (sync.push r) m) records d.1 in
      elim (Bool-cases (sync.record_id r == id)) [
        | inl h ↦
            let e : sync.record_id r ≡ id = (==_iff (sync.record_id r) id).0 h in
            let gone =
              has_id-find_id sync id records (ap (λ k. has_id sync k records) (sym e) ∙ d.0) in
            rw
              (
                h,
                ih,
                gone,
                lookup-insert (push_id (sync.push r)) id (sync.push r) m,
                push_id-push r,
                h,
              )
              refl
        | inr h ↦
            rw (h, ih, lookup-insert (push_id (sync.push r)) id (sync.push r) m, push_id-push r, h)
              refl
      ]

  deleted_ids :
      (stamp : String → String) (es : List (ℕ × R))
      → map
          (λ (d : RecordDelete). d.record_id)
          (map (λ e. record { record_id = e.0; updated_at = stamp (sync.updated_at e.1) }) es)
        ≡ map (λ e. e.0) es
  deleted_ids stamp [] = refl
  deleted_ids stamp ((id, r) ∷ es) = ap (λ ids. id ∷ ids) (deleted_ids stamp es)

  has_id-changed :
      (base : List (ℕ × R)) (id : ℕ) (records : List R)
      → has_id sync id records ≡ false
      → has_id sync id (changed sync base records) ≡ false
  unfolding has_id changed
  has_id-changed base id [] h = refl
  has_id-changed base id (r ∷ records) h = ground (arith, has_id-changed base id records)

  changed-DistinctIds :
      (base : List (ℕ × R)) (records : List R)
      → DistinctIds sync records
      → DistinctIds sync (changed sync base records)
  unfolding changed
  changed-DistinctIds base [] d = tt
  changed-DistinctIds base (r ∷ records) d = elim (Bool-cases (unchanged sync base r)) [
    | inl u ↦ rw u (changed-DistinctIds base records d.1)
    | inr u ↦
        rw u
          (has_id-changed base (sync.record_id r) records d.0, changed-DistinctIds base records d.1)
  ]

  settle :
      (base : List (ℕ × R)) (id : ℕ) (o : Option R)
      → ((r : R) → o ≡ some r → sync.record_id r ≡ id)
      → or_else (map_option sync.push (pending sync base o)) (
          if is_some (lookup id base) && not (is_some o)
          then none
          else map_option sync.push (lookup id base))
        ≡ map_option sync.push o
  settle base id none h = elim (Option-cases (lookup id base)) [
    | inl e ↦ rw e refl
    | inr (b, e) ↦ rw e refl
  ]
  settle base id (some r) h = elim (Bool-cases (unchanged sync base r)) [
    | inl u ↦
        let same_base : lookup id base ≡ some r =
          ap (λ k. lookup k base) (sym (h r refl)) ∙ lookup-unchanged sync base r u in
        rw (u, same_base) refl
    | inr u ↦ rw u refl
  ]

  -- A server that holds the base and takes the pushed changes, deletions first, holds exactly the
  -- profile, if no two of the profile's records have one id: for every id it has what is pushed of
  -- the profile's record, and nothing where the profile has none.
  pub diff-applied :
      (stamp : String → String) (base : List (ℕ × R)) (records : List R)
      → DistinctIds sync records
      → (id : ℕ)
      → lookup id (take_changes (pushed base) (diff sync stamp base records))
        ≡ map_option sync.push (find_id sync id records)
  unfolding diff take_changes
  diff-applied stamp base records d id =
      rw
        (
          deleted_ids stamp (missing sync base records),
          lookup-put_all id (remove_all (map (λ e. e.0) (missing sync base records)) (pushed base))
              (changed sync base records) (changed-DistinctIds base records d),
          lookup-remove_all id (map (λ e. e.0) (missing sync base records)) (pushed base),
          mem-missing sync id base records,
          lookup-pushed id base,
          find_id-changed sync base id records d,
          has_id-is_some sync id records,
        )
        (settle base id (find_id sync id records) (found_id sync id records))

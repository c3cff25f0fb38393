-- ===== src/PersonalData/SyncApply/Distinct.antt =====
-- The record ids of a profile, through each step of src/personal_data/sync_apply.rs.
use Prim.Native.String.{String}
use rockcast.Prelude.{
  ℕ, ◌+◌, Option, none, some, List, [], ◌∷◌, ◌++◌, ◌==◌, ==_iff, if◌then◌else◌, ◌≡◌, refl, sym, ap,
  ◌∙◌, inl, inr, Bool-cases, arith,
}
use rockcast.PersonalData.SyncApply.{
  Incoming, find, retain_other, replace, is_newer, place, apply_one, apply_all,
}
use rockcast.PersonalData.SyncApply.Merge.{seek, find-retain_other, find-replace, find-append}

module _ {W R : Type 0} (incoming : Incoming W R) (parse_time : String → Option ℕ) where
  open incoming use {wire_id, is_deleted, wire_station, wire_updated_at, record_id, build, build_id}

  abbrev pub AreDistinct : List R → Type 0
  AreDistinct [] = Unit
  AreDistinct (r ∷ records) =
      (seek incoming parse_time (record_id r) records ≡ none) × AreDistinct records

  retain_other-AreDistinct :
      (k : ℕ) (records : List R)
      → AreDistinct records
      → AreDistinct (retain_other incoming parse_time k records)
  unfolding retain_other
  retain_other-AreDistinct k [] d = tt
  retain_other-AreDistinct k (r ∷ records) d = elim (Bool-cases (record_id r == k)) [
    | inl e ↦ rw e (retain_other-AreDistinct k records d.1)
    | inr e ↦ rw e (
      ground (arith, find-retain_other incoming parse_time k (record_id r) records, d.0),
      retain_other-AreDistinct k records d.1,
    )
  ]

  replace-AreDistinct :
      (k : ℕ) (new old : R) (records : List R)
      → record_id new ≡ k
      → seek incoming parse_time k records ≡ some old
      → AreDistinct records
      → AreDistinct (replace incoming parse_time k new records)
  unfolding replace find
  replace-AreDistinct k new old [] h e d = tt
  replace-AreDistinct k new old (r ∷ records) h e d = elim (Bool-cases (record_id r == k)) [
    | inl s ↦
        let same : record_id r ≡ record_id new = (==_iff (record_id r) k).0 s ∙ sym h in
        rw s (ap (λ i. seek incoming parse_time i records) (sym same) ∙ d.0, d.1)
    | inr s ↦
        let below : seek incoming parse_time k records ≡ some old = ground arith in
        rw s (
          ground (
            arith,
            find-replace incoming parse_time k (record_id r) new old records h below,
            d.0,
          ),
          replace-AreDistinct k new old records h below d.1,
        )
  ]

  append-AreDistinct :
      (new : R) (records : List R)
      → seek incoming parse_time (record_id new) records ≡ none
      → AreDistinct records
      → AreDistinct (records ++ (new ∷ []))
  unfolding find
  append-AreDistinct new [] e d = (refl, tt)
  append-AreDistinct new (r ∷ records) e d =
      let below : seek incoming parse_time (record_id new) records ≡ none = ground arith in
      (
        ground (arith, find-append incoming parse_time (record_id r) new records below, d.0),
        append-AreDistinct new records below d.1,
      )

  place-AreDistinct :
      (w : W) (station : String) (t n : ℕ) (records : List R)
      → AreDistinct records
      → AreDistinct (place incoming parse_time w station t (records, n)).0
  unfolding place
  place-AreDistinct w station t n records d = go (find incoming parse_time (wire_id w) records) refl
    where
      go :
          (o : Option R)
          → seek incoming parse_time (wire_id w) records ≡ o
          → let after : List R × ℕ = elim o [
            | none ↦ (records ++ (build w station none ∷ []), n + 1)
            | some local ↦
                if is_newer incoming parse_time t local
                then (
                  replace incoming parse_time (wire_id w) (build w station (some local)) records,
                  n + 1,
                )
                else (records, n)
          ] in
            AreDistinct after.0
      go none e =
          append-AreDistinct (build w station none) records
            (ap (λ k. seek incoming parse_time k records) (build_id w station none) ∙ e) d
      go (some local) e = elim (Bool-cases (is_newer incoming parse_time t local)) [
        | inl newer ↦ rw newer (
            replace-AreDistinct (wire_id w) (build w station (some local)) local records
              (build_id w station (some local)) e d)
        | inr old ↦ rw old d
      ]

  apply_one-AreDistinct :
      (w : W) (records : List R) (n : ℕ)
      → AreDistinct records
      → AreDistinct (apply_one incoming parse_time (records, n) w).0
  unfolding apply_one
  apply_one-AreDistinct w records n d = elim (Bool-cases (is_deleted w)) [
    | inl gone ↦ rw gone (retain_other-AreDistinct (wire_id w) records d)
    | inr live ↦ rw live (station_lem (wire_station w))
  ]
    where
      time_lem :
          (station : String) (o : Option ℕ)
          → let after : List R × ℕ = elim o [
            | none ↦ (records, n)
            | some t ↦ place incoming parse_time w station t (records, n)
          ] in
            AreDistinct after.0
      time_lem station none = d
      time_lem station (some t) = place-AreDistinct w station t n records d

      station_lem :
          (s : Option String)
          → let after : List R × ℕ = elim s [
            | none ↦ (records, n)
            | some station ↦ elim (parse_time (wire_updated_at w)) [
              | none ↦ (records, n)
              | some t ↦ place incoming parse_time w station t (records, n)
            ]
          ] in
            AreDistinct after.0
      station_lem none = d
      station_lem (some station) = time_lem station (parse_time (wire_updated_at w))

  -- A profile without two records of one id has none after a batch either, whatever the batch holds.
  apply_all-AreDistinct :
      (ws : List W) (records : List R) (n : ℕ)
      → AreDistinct records
      → AreDistinct (apply_all incoming parse_time (records, n) ws).0
  unfolding apply_all
  apply_all-AreDistinct [] records n d = d
  apply_all-AreDistinct (w ∷ ws) records n d =
      let x = apply_one incoming parse_time (records, n) w in
      apply_all-AreDistinct ws x.0 x.1 (apply_one-AreDistinct w records n d)

-- ===== src/PersonalData/SyncApply/Merge.antt =====
-- What src/personal_data/sync_apply.rs does to the record of one id.
use Prim.Native.String.{String}
use rockcast.Prelude.{
  ℕ, ◌+◌, true, false, Option, none, some, List, [], ◌∷◌, ◌++◌, ◌==◌, ==_iff, ltb, if◌then◌else◌,
  ◌≡◌, refl, sym, ap, ◌∙◌, inl, inr, Bool-cases, Option-cases, arith,
}
use rockcast.PersonalData.SyncApply.{
  Incoming, find, retain_other, replace, is_newer, place, apply_one, apply_all,
}

module _ {W R : Type 0} (incoming : Incoming W R) (parse_time : String → Option ℕ) where
  open incoming use {
    wire_id, is_deleted, wire_station, wire_updated_at, record_id, updated_at, build, build_id,
  }

  abbrev pub seek : ℕ → List R → Option R
  seek id records = find incoming parse_time id records

  -- Last writer wins: the record of an id after a wire record of that id, from the one before.
  abbrev pub newer_of : W → String → ℕ → Option R → Option R
  newer_of w station t none = some (build w station none)
  newer_of w station t (some local) = elim (parse_time (updated_at local)) [
    | none ↦ some local
    | some old ↦ if ltb old t then some (build w station (some local)) else some local
  ]

  is_newer_lem :
      (w : W) (station : String) (t : ℕ) (local : R)
      → newer_of w station t (some local) ≡ (
          if is_newer incoming parse_time t local
          then some (build w station (some local))
          else some local)
  unfolding is_newer
  is_newer_lem w station t local = elim (Option-cases (parse_time (updated_at local))) [
    | inl unreadable ↦ rw (newer_of, is_newer, unreadable) refl
    | inr (old, read) ↦ rw (newer_of, is_newer, read) refl
  ]

  abbrev pub dated : W → String → Option ℕ → Option R → Option R
  dated w station none o = o
  dated w station (some t) o = newer_of w station t o

  abbrev pub stationed : W → Option String → Option R → Option R
  stationed w none o = o
  stationed w (some station) o = dated w station (parse_time (wire_updated_at w)) o

  pub merge : W → Option R → Option R
  merge w o = if is_deleted w then none else stationed w (wire_station w) o

  pub find-retain_other :
      (k id : ℕ) (records : List R)
      → seek id (retain_other incoming parse_time k records)
        ≡ (if k == id then none else seek id records)
  unfolding find retain_other
  find-retain_other k id [] = ground arith
  find-retain_other k id (r ∷ records) = ground (arith, find-retain_other k id records)

  pub find-replace :
      (k id : ℕ) (new old : R) (records : List R)
      → record_id new ≡ k
      → seek k records ≡ some old
      → seek id (replace incoming parse_time k new records)
        ≡ (if k == id then some new else seek id records)
  unfolding find replace
  find-replace k id new old [] h e = ground arith
  find-replace k id new old (r ∷ records) h e = ground (arith, find-replace k id new old records h)

  pub find-append :
      (id : ℕ) (new : R) (records : List R)
      → seek (record_id new) records ≡ none
      → seek id (records ++ (new ∷ []))
        ≡ (if record_id new == id then some new else seek id records)
  unfolding find
  find-append id new [] h = refl
  find-append id new (r ∷ records) h = ground (arith, find-append id new records)

  Merged : W → List R → List R → Type 0
  Merged w records after =
      (id : ℕ)
      → seek id after ≡ (if wire_id w == id then merge w (seek id records) else seek id records)

  untouched :
      (w : W) (records : List R) → ((o : Option R) → merge w o ≡ o) → Merged w records records
  unfolding Merged
  untouched w records h id = elim (Bool-cases (wire_id w == id)) [
    | inl e ↦ rw e (sym (h (seek id records)))
    | inr e ↦ rw e refl
  ]

  place-Merged :
      (w : W) (station : String) (t n : ℕ) (records : List R)
      → ((o : Option R) → merge w o ≡ newer_of w station t o)
      → Merged w records (place incoming parse_time w station t (records, n)).0
  unfolding Merged place
  place-Merged w station t n records h id = go (find incoming parse_time (wire_id w) records) refl
    where
      same_id : wire_id w == id ≡ true → seek (wire_id w) records ≡ seek id records
      same_id e = ap (λ k. seek k records) ((==_iff (wire_id w) id).0 e)

      go :
          (o : Option R)
          → seek (wire_id w) records ≡ o
          → let after : List R × ℕ = elim o [
            | none ↦ (records ++ (build w station none ∷ []), n + 1)
            | some local ↦
                if is_newer incoming parse_time t local
                then (
                  replace incoming parse_time (wire_id w) (build w station (some local)) records,
                  n + 1,
                )
                else (records, n)
          ] in
            seek id after.0
            ≡ (if wire_id w == id then merge w (seek id records) else seek id records)
      go none e =
          let added =
            find-append id (build w station none) records
              (ap (λ k. seek k records) (build_id w station none) ∙ e) in
          elim (Bool-cases (wire_id w == id)) [
            | inl s ↦ rw (s, added, build_id w station none, s, sym (same_id s), e, h none) refl
            | inr s ↦ rw (s, added, build_id w station none, s) refl
          ]
      go (some local) e =
          let put =
            find-replace (wire_id w) id (build w station (some local)) local records
              (build_id w station (some local)) e in
          elim (Bool-cases (is_newer incoming parse_time t local)) [
            | inl newer ↦ elim (Bool-cases (wire_id w == id)) [
              | inl s ↦
                  rw
                    (
                      newer,
                      s,
                      put,
                      s,
                      sym (same_id s),
                      e,
                      h (some local),
                      is_newer_lem w station t local,
                      newer,
                    )
                    refl
              | inr s ↦ rw (newer, s, put, s) refl
            ]
            | inr old ↦ elim (Bool-cases (wire_id w == id)) [
              | inl s ↦
                  rw
                    (
                      old,
                      s,
                      sym (same_id s),
                      e,
                      h (some local),
                      is_newer_lem w station t local,
                      old,
                    )
                    refl
              | inr s ↦ rw (old, s) refl
            ]
          ]

  deleted_lem :
      (w : W) (records : List R)
      → is_deleted w ≡ true
      → Merged w records (retain_other incoming parse_time (wire_id w) records)
  unfolding Merged merge
  deleted_lem w records gone id = rw (gone, find-retain_other (wire_id w) id records) refl

  live_lem :
      (w : W) → is_deleted w ≡ false → (o : Option R) → merge w o ≡ stationed w (wire_station w) o
  unfolding merge
  live_lem w live o = rw live refl

  apply_one-Merged :
      (w : W) (records : List R) (n : ℕ)
      → Merged w records (apply_one incoming parse_time (records, n) w).0
  unfolding apply_one
  apply_one-Merged w records n = elim (Bool-cases (is_deleted w)) [
    | inl gone ↦ rw gone (deleted_lem w records gone)
    | inr live ↦ rw live (station_lem live (wire_station w) refl)
  ]
    where
      time_lem :
          (station : String) (o : Option ℕ)
          → ((x : Option R) → merge w x ≡ dated w station o x)
          → let after : List R × ℕ = elim o [
            | none ↦ (records, n)
            | some t ↦ place incoming parse_time w station t (records, n)
          ] in
            Merged w records after.0
      time_lem station none h = untouched w records h
      time_lem station (some t) h = place-Merged w station t n records h

      station_lem :
          is_deleted w ≡ false
          → (s : Option String) → wire_station w ≡ s
          → let after : List R × ℕ = elim s [
            | none ↦ (records, n)
            | some station ↦ elim (parse_time (wire_updated_at w)) [
              | none ↦ (records, n)
              | some t ↦ place incoming parse_time w station t (records, n)
            ]
          ] in
            Merged w records after.0
      station_lem live none e =
          untouched w records (λ o. live_lem w live o ∙ ap (λ s. stationed w s o) e)
      station_lem live (some station) e =
          time_lem station (parse_time (wire_updated_at w))
            (λ o. live_lem w live o ∙ ap (λ s. stationed w s o) e)

  -- The wire records of one id, merged in turn.
  pub merge_all : ℕ → List W → Option R → Option R
  merge_all id [] o = o
  merge_all id (w ∷ ws) o = merge_all id ws (if wire_id w == id then merge w o else o)

  -- After the loop over a batch, and before the profile is cut to its limits, the profile has for each id what
  -- its wire records make of what it had, each in turn by last writer wins: a deletion removes it; a record with a
  -- station and a readable time is added, or replaces a record with a readable time that is strictly before; any
  -- other leaves it.
  pub apply_all_lem :
      (ws : List W) (records : List R) (n id : ℕ)
      → seek id (apply_all incoming parse_time (records, n) ws).0
        ≡ merge_all id ws (seek id records)
  unfolding apply_all merge_all
  apply_all_lem [] records n id = refl
  apply_all_lem (w ∷ ws) records n id =
      let x = apply_one incoming parse_time (records, n) w in
      let one : seek id x.0
          ≡ (if wire_id w == id then merge w (seek id records) else seek id records) =
        unfold Merged in apply_one-Merged w records n id in
      apply_all_lem ws x.0 x.1 id ∙ ap (merge_all id ws) one

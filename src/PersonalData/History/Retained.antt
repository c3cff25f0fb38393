-- ===== src/PersonalData/History/Retained.antt =====
-- What `retain` of src/personal_data/mod.rs keeps of the history.
use mathlib.Core.Path.{subst}
use mathlib.Core.List.{Perm, perm_middle}
use mathlib.Core.List.Perm
use Prim.Native.String.{String}
use rockcast.Prelude.{
  ℕ, ◌-◌, ◌≤◌, true, false, Option, some, List, [], ◌∷◌, ◌++◌, append_assoc, length, length-take,
  length-drop, take, drop, take-append-drop, All, All-take, All-map, leb, leb→le, ◌≡◌, ◌⊎◌, refl,
  sym, ◌∙◌, inl, inr, Bool-cases, Option-cases, arith,
}
use rockcast.Prelude.Sorting.{sort_by, sort_by-All, sort_by-Perm}
use rockcast.PersonalData.{PlaybackHistoryEntry}
use rockcast.PersonalData.History.{
  max_history, history_retention, newest_first, is_recent, retain_recent, retain,
}

no_more : (n k : ℕ) → leb n k ≡ false → k - n ≡ 0
no_more n k h = ground arith

-- Past the first entries of this number there is nothing, or there are as many.
cut_short : {A : Type 0} (n : ℕ) (xs : List A) → (drop n xs ≡ []) ⊎ (length (take n xs) ≡ n)
cut_short {A} n xs = elim (Bool-cases (leb n (length xs))) [
  | inl many ↦ inr (omega (arith, length-take n xs, leb→le n (length xs) many))
  | inr few ↦ inl (none_left (drop n xs) (length-drop n xs ∙ no_more n (length xs) few))
]
  where
    none_left : (ys : List A) → length ys ≡ 0 → ys ≡ []
    none_left [] h = refl
    none_left (y ∷ ys) h = absurd (omega arith)

module _ {J : Type 0} (parse_time : String → Option ℕ) where
  -- Played at a time that can be read, and no more than 90 days before this instant.
  pub Recent : ℕ → PlaybackHistoryEntry J → Type 0
  Recent now e = (t : ℕ) × (parse_time e.last_played_at ≡ some t) × (now - history_retention ≤ t)

  -- At most 500 entries, each of them recent. The other entries that were there are not recent, or there are 500 without
  -- them.
  pub record IsRetained (now : ℕ) (written history : List (PlaybackHistoryEntry J)) : Type 0 where
    pub bound : length history ≤ max_history
    pub recent : All (Recent now) history
    pub surplus : List (PlaybackHistoryEntry J)
    pub old : List (PlaybackHistoryEntry J)
    pub same : Perm (history ++ (surplus ++ old)) written
    pub only_old : All (λ e. Recent now e → ⊥) old
    pub full : (surplus ≡ []) ⊎ (length history ≡ max_history)

  is_recent-Recent :
      (now : ℕ) (e : PlaybackHistoryEntry J)
      → is_recent parse_time (now - history_retention) e ≡ true
      → Recent now e
  unfolding is_recent Recent
  is_recent-Recent now e = elim (Option-cases (parse_time e.last_played_at)) [
    | inl unreadable ↦ rw (is_recent, unreadable) (λ h. absurd cc)
    | inr (t, read) ↦ rw (is_recent, read) (λ h. (t, refl, ground arith))
  ]

  old-Recent :
      (now : ℕ) (e : PlaybackHistoryEntry J)
      → is_recent parse_time (now - history_retention) e ≡ false
      → Recent now e
      → ⊥
  unfolding is_recent Recent
  old-Recent now e h (t, read, late) = absurd (ground arith)

  -- Those that are not recent are left out, and nothing else.
  retain_recent-Perm :
      (now : ℕ) (history : List (PlaybackHistoryEntry J))
      → (old : List (PlaybackHistoryEntry J)) × Perm
          (retain_recent parse_time (now - history_retention) history ++ old)
          history
        × All (λ e. Recent now e → ⊥) old
  unfolding retain_recent
  retain_recent-Perm now [] = ([], Perm.rfl, tt)
  retain_recent-Perm now (e ∷ history) =
      let (old, same, all_old) = retain_recent-Perm now history in
      elim (Bool-cases (is_recent parse_time (now - history_retention) e)) [
        | inl kept ↦ (old, rw (retain_recent, kept) (Perm.cons e same), all_old)
        | inr lost ↦ (
          e ∷ old,
          rw (retain_recent, lost)
              (Perm.trans
                (perm_middle (retain_recent parse_time (now - history_retention) history) old)
                (Perm.cons e same)),
          (old-Recent now e lost, all_old),
        )
      ]

  retain_recent-All :
      (cutoff : ℕ) (history : List (PlaybackHistoryEntry J))
      → All (λ e. is_recent parse_time cutoff e ≡ true) (retain_recent parse_time cutoff history)
  unfolding retain_recent
  retain_recent-All cutoff [] = tt
  retain_recent-All cutoff (e ∷ history) = elim (Bool-cases (is_recent parse_time cutoff e)) [
    | inl kept ↦ rw (All, kept) (kept, retain_recent-All cutoff history)
    | inr lost ↦ rw (All, lost) (retain_recent-All cutoff history)
  ]

  pub retain-IsRetained :
      (now : ℕ) (written : List (PlaybackHistoryEntry J))
      → IsRetained now written (retain parse_time now written)
  unfolding retain
  retain-IsRetained now written =
      let cutoff : ℕ = now - history_retention in
      let kept = retain_recent parse_time cutoff written in
      let sorted = sort_by newest_first kept in
      let (old, same, all_old) = retain_recent-Perm now written in
      record {
        bound = omega (arith, length-take max_history sorted);
        recent = All-map (take max_history sorted) (is_recent-Recent now) (
            All-take (λ e. is_recent parse_time cutoff e ≡ true) max_history sorted
              (sort_by-All newest_first (λ e. is_recent parse_time cutoff e ≡ true) kept
                (retain_recent-All cutoff written)));
        surplus = drop max_history sorted;
        old = old;
        same =
            subst (λ l. Perm l written)
              (append_assoc (take max_history sorted) (drop max_history sorted) old)
              (subst (λ l. Perm (l ++ old) written) (sym (take-append-drop max_history sorted))
                (Perm.trans (Perm.append_right old (sort_by-Perm newest_first kept)) same));
        only_old = all_old;
        full = cut_short max_history sorted;
      }

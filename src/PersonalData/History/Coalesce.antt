-- ===== src/PersonalData/History/Coalesce.antt =====
-- Plays that follow each other closely, as `record_play` of src/personal_data/mod.rs writes them.
use mathlib.Core.Path.{subst}
use Prim.Native.String.{String}
use text.Mathlib.Text.{◌==◌ as str_eq}
use text.Mathlib.TextEquality.{eq_iff}
use rockcast.Prelude.{
  ℕ, ◌+◌, ◌≤◌, true, Option, some, List, [], ◌∷◌, ◌++◌, All, leb, ◌≡◌, refl, sym, ap, ◌∙◌, arith,
}
use rockcast.Prelude.Results.{ok}
use rockcast.PersonalData.{PlaybackHistoryEntry}
use rockcast.PersonalData.History.{
  coalesce, Play, at_least, latest, extended, new_entry, add_or_extend,
}

module _ {J : Type 0} (parse_time : String → Option ℕ) where
  latest-last :
      (history : List (PlaybackHistoryEntry J)) (e : PlaybackHistoryEntry J)
      → All
          (λ (x : PlaybackHistoryEntry J).
            at_least (parse_time e.last_played_at) (parse_time x.last_played_at) ≡ true)
          history
      → latest parse_time (history ++ (e ∷ []))
        ≡ some (record { before = history; entry = e; after = [] })
  unfolding latest
  latest-last [] e a = refl
  latest-last (x ∷ history) e a = rw (latest-last history e a.1, a.0) refl

  -- A station is played, at a time when nothing in the history is later, and within five minutes, or before that, it is
  -- played again: what was written is one entry after the history, with the first play's id and start
  -- and the second play's end.
  pub plays_coalesce :
      (no_extra : J) (p q : Play) (ts us : String) (t u : ℕ)
      (history : List (PlaybackHistoryEntry J))
      → parse_time ts ≡ some t
      → u ≤ t + coalesce
      → q.station_id ≡ p.station_id
      → All
          (λ (x : PlaybackHistoryEntry J). at_least (some t) (parse_time x.last_played_at) ≡ true)
          history
      → let once : List (PlaybackHistoryEntry J) =
          history ++ (new_entry parse_time no_extra p ts ∷ []) in
        add_or_extend parse_time no_extra q us u once (latest parse_time once)
        ≡ ok (history ++ (extended q us (new_entry parse_time no_extra p ts) ∷ []))
  unfolding add_or_extend new_entry
  plays_coalesce no_extra p q ts us t u history timed soon same a =
      let e : PlaybackHistoryEntry J = new_entry parse_time no_extra p ts in
      let at : parse_time e.last_played_at ≡ some t = timed in
      let found : latest parse_time (history ++ (e ∷ []))
          ≡ some (record { before = history; entry = e; after = [] }) =
        latest-last history e (
          subst
            (λ o.
              All (λ (x : PlaybackHistoryEntry J). at_least o (parse_time x.last_played_at) ≡ true)
                history)
            (sym at) a) in
      let station : str_eq e.station_id q.station_id ≡ true =
        (eq_iff e.station_id q.station_id).1 (sym same) in
      let close : leb u (t + coalesce) ≡ true = ground arith in
      ap (add_or_extend parse_time no_extra q us u (history ++ (e ∷ []))) found
      ∙ rw (station, timed, close) refl

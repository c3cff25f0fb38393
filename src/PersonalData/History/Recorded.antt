-- ===== src/PersonalData/History/Recorded.antt =====
-- What `record_play` of src/personal_data/mod.rs writes.
use Prim.Native.String.{String}
use text.Mathlib.Text.{◌==◌ as str_eq}
use text.Mathlib.TextEquality.{eq_iff}
use rockcast.Prelude.{
  ℕ, ◌+◌, ◌≤◌, true, false, Option, none, some, List, [], ◌∷◌, ◌++◌, All, All-map, leb,
  if◌then◌else◌, ◌≡◌, ◌⊎◌, refl, sym, ap, ◌∙◌, inl, inr, Bool-cases, arith,
}
use rockcast.Prelude.Results.{ok}
use rockcast.PersonalData.{PlaybackHistoryEntry}
use rockcast.PersonalData.History.{
  coalesce, Play, retain, at_least, Latest, latest, extended, new_entry, add_or_extend, record_play,
}
use rockcast.PersonalData.History.Retained.{IsRetained, retain-IsRetained}

at_least_through :
    (a b c : Option ℕ) → at_least a b ≡ true → at_least b c ≡ true → at_least a c ≡ true
at_least_through a b none h k = refl
at_least_through a none (some z) h k = absurd cc
at_least_through none (some y) (some z) h k = absurd cc
at_least_through (some x) (some y) (some z) h k = ground arith

at_least_either : (a b : Option ℕ) → at_least a b ≡ false → at_least b a ≡ true
at_least_either a none h = absurd cc
at_least_either none (some y) h = refl
at_least_either (some x) (some y) h = ground arith

at_least_self : (a : Option ℕ) → at_least a a ≡ true
at_least_self none = refl
at_least_self (some x) = ground arith

module _ {J : Type 0} (parse_time : String → Option ℕ) where
  abbrev HasTime : PlaybackHistoryEntry J → Type 0
  HasTime e = (t : ℕ) × (parse_time e.last_played_at ≡ some t)

  abbrev played_at : PlaybackHistoryEntry J → Option ℕ
  played_at e = parse_time e.last_played_at

  -- It stands in the history, and no other was played later.
  pub record IsLatest (history : List (PlaybackHistoryEntry J)) (l : Latest J) : Type 0 where
    pub all : history ≡ l.before ++ (l.entry ∷ l.after)
    pub newest :
        All
          (λ (e : PlaybackHistoryEntry J).
            at_least (parse_time l.entry.last_played_at) (parse_time e.last_played_at) ≡ true)
          history
    pub played : (t : ℕ) × (parse_time l.entry.last_played_at ≡ some t)

  abbrev OnLatest : List (PlaybackHistoryEntry J) → Option (Latest J) → Type 0
  OnLatest history none = history ≡ []
  OnLatest history (some l) = IsLatest history l

  latest-OnLatest :
      (history : List (PlaybackHistoryEntry J))
      → All HasTime history
      → OnLatest history (latest parse_time history)
  unfolding latest
  latest-OnLatest [] a = refl
  latest-OnLatest (e ∷ history) a = go (latest parse_time history) (latest-OnLatest history a.1)
    where
      go :
          (o : Option (Latest J))
          → OnLatest history o
          → let chosen : Option (Latest J) = elim o [
            | none ↦ some (record { before = []; entry = e; after = [] })
            | some l ↦
                if at_least (parse_time l.entry.last_played_at) (parse_time e.last_played_at)
                then some (record l { before = e ∷ l.before })
                else some (record { before = []; entry = e; after = history })
          ] in
            OnLatest (e ∷ history) chosen
      go none h =
          rw h (record { all = refl; newest = (at_least_self (played_at e), tt); played = a.0 })
      go (some l) h = elim (Bool-cases (at_least (played_at l.entry) (played_at e))) [
        | inl later ↦ rw later (record {
          all = ap (λ (t : List (PlaybackHistoryEntry J)). e ∷ t) h.all;
          newest = (later, h.newest);
          played = h.played;
        })
        | inr sooner ↦ rw sooner (record {
          all = refl;
          newest = (
            at_least_self (played_at e),
            All-map history
                (λ x.
                  at_least_through (played_at e) (played_at l.entry) (played_at x)
                    (at_least_either (played_at l.entry) (played_at e) sooner))
                h.newest,
          );
          played = a.0;
        })
      ]

  -- An entry for the play of a station until this time.
  pub record Shows (p : Play) (ts : String) (e : PlaybackHistoryEntry J) : Type 0 where
    pub station : e.station_id ≡ p.station_id
    pub last_played : e.last_played_at ≡ ts
    pub ended : e.ended_at ≡ some ts
    pub updated : e.updated_at ≡ ts
    pub name : e.metadata.last_known_name ≡ some p.name
    pub catalog : e.metadata.catalog_version ≡ p.catalog_version

  -- The entry is of the same station, and at most five minutes old.
  pub record GoesOn (p : Play) (started : ℕ) (e : PlaybackHistoryEntry J) : Type 0 where
    pub station : e.station_id ≡ p.station_id
    pub last : ℕ
    pub read : parse_time e.last_played_at ≡ some last
    pub close : started ≤ last + coalesce

  -- How a play is written: it goes on with the latest entry, if it can, and that keeps its id and its start; otherwise
  -- it is a new entry behind the others.
  pub data Recorded (p : Play) (ts : String) (started : ℕ) (history : List (PlaybackHistoryEntry J))
      : List (PlaybackHistoryEntry J) → Type 0 where
    continued :
        (l : Latest J) (x : PlaybackHistoryEntry J)
        → IsLatest history l
        → GoesOn p started l.entry
        → Shows p ts x
        → x.record_id ≡ l.entry.record_id
        → x.started_at ≡ l.entry.started_at
        → Recorded p ts started history (l.before ++ (x ∷ l.after))
    added :
        (x : PlaybackHistoryEntry J)
        → ((history ≡ []) ⊎ ((l : Latest J) × IsLatest history l × (GoesOn p started l.entry → ⊥)))
        → Shows p ts x
        → x.record_id ≡ p.uuid
        → x.started_at ≡ ts
        → Recorded p ts started history (history ++ (x ∷ []))

  extended-Shows :
      (p : Play) (ts : String) (e : PlaybackHistoryEntry J)
      → e.station_id ≡ p.station_id
      → Shows p ts (extended p ts e)
  unfolding extended
  extended-Shows p ts e same = record {
    station = same;
    last_played = refl;
    ended = refl;
    updated = refl;
    name = refl;
    catalog = refl;
  }

  -- Nothing to go on with.
  new-Recorded :
      (no_extra : J) (p : Play) (ts : String) (started : ℕ)
      (history : List (PlaybackHistoryEntry J))
      → ((history ≡ []) ⊎ ((l : Latest J) × IsLatest history l × (GoesOn p started l.entry → ⊥)))
      → Recorded p ts started history (history ++ (new_entry parse_time no_extra p ts ∷ []))
  unfolding new_entry
  new-Recorded no_extra p ts started history h =
      added (new_entry parse_time no_extra p ts) h
        (record {
          station = refl;
          last_played = refl;
          ended = refl;
          updated = refl;
          name = refl;
          catalog = refl;
        })
        refl refl

  add_or_extend-Recorded :
      (no_extra : J) (p : Play) (ts : String) (started : ℕ)
      (history : List (PlaybackHistoryEntry J)) (o : Option (Latest J))
      → OnLatest history o
      → (written : List (PlaybackHistoryEntry J)) × (add_or_extend parse_time no_extra p ts started
            history o
          ≡ ok written)
        × Recorded p ts started history written
  unfolding add_or_extend extended
  add_or_extend-Recorded no_extra p ts started history none h =
      (_, refl, new-Recorded no_extra p ts started history (inl h))
  add_or_extend-Recorded no_extra p ts started history (some l) h =
      let (last, read) = h.played in
      elim (Bool-cases (str_eq l.entry.station_id p.station_id)) [
        | inr other ↦ (
          history ++ (new_entry parse_time no_extra p ts ∷ []),
          rw other refl,
          new-Recorded no_extra p ts started history (
              inr (
                l,
                h,
                λ g.
                    absurd
                      (ground (arith, g.station, other, eq_iff l.entry.station_id p.station_id)),
              )),
        )
        | inl same ↦
            let station = (eq_iff l.entry.station_id p.station_id).0 same in
            elim (Bool-cases (leb started (last + coalesce))) [
              | inl soon ↦ (
                l.before ++ (extended p ts l.entry ∷ l.after),
                rw (same, read, soon) refl,
                continued l (extended p ts l.entry) h
                    (record { station = station; last = last; read = read; close = ground arith })
                    (extended-Shows p ts l.entry station) refl refl,
              )
              | inr late ↦ (
                history ++ (new_entry parse_time no_extra p ts ∷ []),
                rw (same, read, late) refl,
                new-Recorded no_extra p ts started history
                    (inr (l, h, λ g. too_late g.last last (sym g.read ∙ read) g.close late)),
              )
            ]
      ]
    where
      too_late :
          (t last : ℕ)
          → some t ≡ some last
          → started ≤ t + coalesce
          → leb started (last + coalesce) ≡ false
          → ⊥
      too_late t last e close late = let same : t ≡ last = cc in absurd (ground (arith, same))

  -- With a clock's time and a history that can be read, a play goes on with the latest entry of the history, if that is
  -- of the same station and its play ended at most five minutes before, or is written as a new entry
  -- with the clock's time. Of what is then written exactly the entries that were played no more than 90 days before the
  -- clock's time are kept, or 500 of them if there are more.
  pub record_play-IsRecorded :
      (no_extra : J) (p : Play) (ts : String) (started now : ℕ)
      (history : List (PlaybackHistoryEntry J))
      → parse_time ts ≡ some started
      → All
          (λ (e : PlaybackHistoryEntry J). (t : ℕ) × (parse_time e.last_played_at ≡ some t))
          history
      → (after : List (PlaybackHistoryEntry J)) × (written : List (PlaybackHistoryEntry J))
        × (record_play parse_time no_extra p ts now history ≡ ok after)
        × Recorded p ts started history written
        × IsRetained parse_time now written after
  unfolding record_play
  record_play-IsRecorded no_extra p ts started now history timed a =
      let (written, e, r) =
        add_or_extend-Recorded no_extra p ts started history (latest parse_time history)
          (latest-OnLatest history a) in
      (
        retain parse_time now written,
        written,
        rw (record_play, timed, e) refl,
        r,
        retain-IsRetained parse_time now written,
      )

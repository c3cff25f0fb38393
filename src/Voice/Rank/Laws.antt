-- ===== src/Voice/Rank/Laws.antt =====
-- What `rerank_voice_candidates` of src/voice/rank.rs promises.
use mathlib.Core.Path.{subst}
use Prim.Native.Char.{Char}
use Prim.Native.String.{String}
use mathlib.Core.List.{Perm}
use mathlib.Core.List.Perm
use rockcast.Prelude.{
  ℕ, suc, ◌≤◌, ◌<◌, Bool, true, false, ◌&&◌, List, [], ◌∷◌, map, ltb, ◌≡◌, ◌⊎◌, refl, ap, inl, inr,
  Bool-cases, arith,
}
use rockcast.Prelude.Sorting.{sort_by, sort_by-Perm, sort_by-Ordered, Ordered, Ordered-map}
use rockcast.Stations.Catalog.{Station}
use rockcast.Voice.Rank.{
  same_texts, station_of, ranks_before, terms_of, station_phrase, scored_from,
  rerank_voice_candidates,
}

no_terms : (terms : List String) → same_texts terms [] ≡ true → terms ≡ []
unfolding same_texts
no_terms [] h = refl
no_terms (t ∷ terms) h = absurd cc

ranks_either : (x y : ℕ × (ℕ × Station)) → ranks_before x y ≡ false → ranks_before y x ≡ true
unfolding ranks_before
ranks_either (i, (a, s)) (j, (b, t)) h = ground arith

ranks_through :
    (x y z : ℕ × (ℕ × Station))
    → ranks_before x y ≡ true
    → ranks_before y z ≡ true
    → ranks_before x z ≡ true
unfolding ranks_before
ranks_through (i, (a, s)) (j, (b, t)) (k, (c, u)) h l = ground arith

-- The first of the two has the higher score, or they have one score and it was before the other.
pub data Outranks : ℕ × (ℕ × Station) → ℕ × (ℕ × Station) → Type 0 where
  higher : (i j a b : ℕ) (s t : Station) → b < a → Outranks (i, (a, s)) (j, (b, t))
  before : (i j a b : ℕ) (s t : Station) → a ≡ b → i ≤ j → Outranks (i, (a, s)) (j, (b, t))

ranks-Outranks : (x y : ℕ × (ℕ × Station)) → ranks_before x y ≡ true → Outranks x y
unfolding ranks_before
ranks-Outranks (i, (a, s)) (j, (b, t)) h = elim (Bool-cases (ltb b a)) [
  | inl more ↦ higher i j a b s t (ground arith)
  | inr same ↦ before i j a b s t (ground arith) (ground arith)
]

module _ (is_alphanumeric : Char → Bool) (to_lowercase : String → String) where
  stations_scored :
      (lower : String) (i : ℕ) (stations : List Station)
      → map station_of (scored_from is_alphanumeric to_lowercase lower i stations) ≡ stations
  unfolding scored_from station_of
  stations_scored lower i [] = refl
  stations_scored lower i (s ∷ stations) =
      ap (λ (l : List Station). s ∷ l) (stations_scored lower (suc i) stations)

  -- The stations ranked by score, with the place that each had.
  pub record Ranked (lower : String) (stations out : List Station) : Type 0 where
    pub ranked : List (ℕ × (ℕ × Station))
    pub listed : map station_of ranked ≡ out
    pub same : Perm ranked (scored_from is_alphanumeric to_lowercase lower 0 stations)
    pub ordered : Ordered Outranks ranked

  Ranked-of :
      (lower : String) (stations : List Station)
      → Ranked lower stations (
          map station_of
            (sort_by ranks_before (scored_from is_alphanumeric to_lowercase lower 0 stations)))
  Ranked-of lower stations =
      let scored : List (ℕ × (ℕ × Station)) =
        scored_from is_alphanumeric to_lowercase lower 0 stations in
      record {
        ranked = sort_by ranks_before scored;
        listed = refl;
        same = sort_by-Perm ranks_before scored;
        ordered =
            Ordered-map (sort_by ranks_before scored) ranks-Outranks
              (sort_by-Ordered ranks_before ranks_either ranks_through scored);
      }

  ranked-Perm :
      (lower : String) (stations : List Station)
      → Perm
          (map station_of
            (sort_by ranks_before (scored_from is_alphanumeric to_lowercase lower 0 stations)))
          stations
  ranked-Perm lower stations =
      let scored : List (ℕ × (ℕ × Station)) =
        scored_from is_alphanumeric to_lowercase lower 0 stations in
      subst (Perm (map station_of (sort_by ranks_before scored))) (stations_scored lower 0 stations)
        (Perm.map station_of (sort_by-Perm ranks_before scored))

  -- Of the stations that the server proposes none is lost and none is added. Either what was said has neither a
  -- term to look for nor a word of a station's name and they stay as they are, or they are ranked: of any two the first has the higher score, or they
  -- have one score and the server proposed the first before the second.
  pub rerank_voice_candidates-Ranked :
      (transcript : String) (stations : List Station)
      → Perm (rerank_voice_candidates is_alphanumeric to_lowercase transcript stations) stations
        × (((terms_of is_alphanumeric to_lowercase (to_lowercase transcript) ≡ [])
              × (station_phrase is_alphanumeric to_lowercase (to_lowercase transcript) ≡ [])
              × (rerank_voice_candidates is_alphanumeric to_lowercase transcript stations
                  ≡ stations))
            ⊎ Ranked
                (to_lowercase transcript)
                stations
                (rerank_voice_candidates is_alphanumeric to_lowercase transcript stations))
  unfolding rerank_voice_candidates
  rerank_voice_candidates-Ranked transcript stations =
      let lower : String = to_lowercase transcript in
      elim (Bool-cases (
        same_texts (terms_of is_alphanumeric to_lowercase lower) []
        && same_texts (station_phrase is_alphanumeric to_lowercase lower) [])) [
          | inl nothing ↦
              rw (rerank_voice_candidates, nothing)
                (
                  Perm.rfl,
                  inl (
                    no_terms (terms_of is_alphanumeric to_lowercase lower) (ground arith),
                    no_terms (station_phrase is_alphanumeric to_lowercase lower) (ground arith),
                    refl,
                  ),
                )
          | inr some_word ↦
              rw (rerank_voice_candidates, some_word)
                (ranked-Perm lower stations, inr (Ranked-of lower stations))
        ]

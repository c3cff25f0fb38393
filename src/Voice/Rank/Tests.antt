-- ===== src/Voice/Rank/Tests.antt =====
-- The tests of src/voice/rank.rs on Cyrillic transcripts.
use Prim.Native.Char.{Char, code}
use Prim.Native.String.{String}
use mathlib.Core.List.{Perm}
use rockcast.Prelude.{◌⊎◌, Bool, ◌||◌, ◌&&◌, leb, List, [], ◌∷◌, map, ◌≡◌, refl}
use rockcast.Prelude.Texts.{contains}
use rockcast.Prelude.TextMaps.{mem_text}
use rockcast.Prelude.Maps.{lookup}
use rockcast.Prelude.Sorting.{put, sort_by}
use rockcast.Stations.Catalog.{Station}
use rockcast.Stations.Codec.{from_primary}
use rockcast.Voice.Rank.{
  phonetic_character, phonetic_token, is_empty_text, keep, onto_first, same_texts, text_at,
  split_at_marks, split_words, terms_of, phonetic_words, station_phrase, station_prefix_score,
  term_score, contains_or_empty, score_of, station_of, ranks_before, scored_from,
  rerank_voice_candidates,
}
use rockcast.Voice.Rank.Laws.{Ranked, rerank_voice_candidates-Ranked}

abbrev station : String → Station
station name = from_primary "test" name "https://example.com/stream" "rock" "" 0 "mp3"

-- Small letters of the two alphabets.
abbrev is_letter : Char → Bool
is_letter c = (leb 0x61 (code c) && leb (code c) 0x7a) || (leb 0x430 (code c) && leb (code c) 0x44f)

abbrev same_case : String → String
same_case s = s

abbrev proposed : List Station
proposed =
    station "наше радио классик рок" ∷ station "radio roks classic rock" ∷ station "радио roks" ∷ []

roks_first :
    map
      (λ (s : Station). s.name)
      (rerank_voice_candidates is_letter same_case "включи радио рок" proposed)
    ≡ "radio roks classic rock" ∷ "радио roks" ∷ "наше радио классик рок" ∷ []
unfolding phonetic_character phonetic_token is_empty_text keep onto_first same_texts text_at
    split_at_marks split_words terms_of phonetic_words station_phrase station_prefix_score
    term_score contains_or_empty score_of station_of ranks_before scored_from
    rerank_voice_candidates contains mem_text lookup put sort_by from_primary
roks_first = refl

rerank_voice_candidates-Ranked_example :
    Perm (rerank_voice_candidates is_letter same_case "включи радио рок" proposed) proposed
    × (((terms_of is_letter same_case (same_case "включи радио рок") ≡ [])
          × (station_phrase is_letter same_case (same_case "включи радио рок") ≡ [])
          × (rerank_voice_candidates is_letter same_case "включи радио рок" proposed ≡ proposed))
        ⊎ Ranked is_letter same_case
            (same_case "включи радио рок")
            proposed
            (rerank_voice_candidates is_letter same_case "включи радио рок" proposed))
rerank_voice_candidates-Ranked_example =
    rerank_voice_candidates-Ranked is_letter same_case "включи радио рок" proposed

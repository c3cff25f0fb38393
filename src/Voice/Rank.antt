-- ===== src/Voice/Rank.antt =====
-- `rerank_voice_candidates` of src/voice/rank.rs: the stations that the server proposes, put in the order in which they
-- fit what was said. The score is far from the end of `i32`.
pub mod Laws
mod Tests
use Prim.Native.Char.{Char, code}
use Prim.Native.String.{String, len, [] as empty, ◌∷◌ as ◌+c◌, ◌++◌ as text_append}
use text.Mathlib.Text.{starts_with, ◌==◌ as str_eq}
use rockcast.Prelude.{
  ℕ, zero, suc, ◌+◌, ◌-◌, Bool, true, false, not, ◌&&◌, ◌||◌, Option, none, some, List, [], ◌∷◌,
  map, length, take, get_elem?, leb, ltb, ◌==◌, if◌then◌else◌,
}
use rockcast.Prelude.Texts.{contains}
use rockcast.Prelude.TextMaps.{mem_text}
use rockcast.Prelude.Maps.{lookup}
use rockcast.Prelude.Sorting.{sort_by}
use rockcast.Stations.Catalog.{Station}

abbrev pub stop_words : List String
stop_words =
    "радио" ∷ "станцию" ∷ "станции" ∷ "включи" ∷ "включить" ∷ "поставь" ∷ "поставить" ∷ "запусти"
    ∷ "найди" ∷ "ищи" ∷ "крути" ∷ "пожалуйста" ∷ "команду" ∷ []

abbrev pub command_words : List String
command_words =
    "включи" ∷ "включить" ∷ "поставь" ∷ "поставить" ∷ "запусти" ∷ "найди" ∷ "ищи" ∷ "крути"
    ∷ "пожалуйста" ∷ []

abbrev pub phonetic_table : List (ℕ × String)
phonetic_table =
    (0x0430, "a")
    ∷ (0x0431, "b")
    ∷ (0x0432, "v")
    ∷ (0x0433, "g")
    ∷ (0x0434, "d")
    ∷ (0x0435, "e")
    ∷ (0x0451, "e")
    ∷ (0x044d, "e")
    ∷ (0x0436, "zh")
    ∷ (0x0437, "z")
    ∷ (0x0438, "i")
    ∷ (0x0439, "i")
    ∷ (0x043a, "k")
    ∷ (0x043b, "l")
    ∷ (0x043c, "m")
    ∷ (0x043d, "n")
    ∷ (0x043e, "o")
    ∷ (0x043f, "p")
    ∷ (0x0440, "r")
    ∷ (0x0441, "s")
    ∷ (0x0442, "t")
    ∷ (0x0443, "u")
    ∷ (0x0444, "f")
    ∷ (0x0445, "h")
    ∷ (0x0446, "ts")
    ∷ (0x0447, "ch")
    ∷ (0x0448, "sh")
    ∷ (0x0449, "sh")
    ∷ (0x044a, "")
    ∷ (0x044c, "")
    ∷ (0x044b, "y")
    ∷ (0x044e, "yu")
    ∷ (0x044f, "ya")
    ∷ []

pub phonetic_character : Char → String
phonetic_character c = elim (lookup (code c) phonetic_table) [
  | some latin ↦ latin
  | none ↦ c +c empty
]

pub phonetic_token : String → String
phonetic_token empty = empty
phonetic_token (c +c s) = text_append (phonetic_character c) (phonetic_token s)

unfoldable pub is_empty_text : String → Bool
is_empty_text empty = true
is_empty_text (c +c s) = false

unfoldable pub keep {ℓ} : {A : Type ℓ} → (A → Bool) → List A → List A
keep test [] = []
keep test (x ∷ xs) = let rest = keep test xs in if test x then x ∷ rest else rest

unfoldable pub onto_first : Char → List String → List String
onto_first c [] = (c +c empty) ∷ []
onto_first c (w ∷ ws) = (c +c w) ∷ ws

pub same_texts : List String → List String → Bool
same_texts [] [] = true
same_texts [] (b ∷ bs) = false
same_texts (a ∷ rest) [] = false
same_texts (a ∷ rest) (b ∷ bs) = str_eq a b && same_texts rest bs

pub text_at : List String → ℕ → String
text_at ws i = elim (get_elem? ws i) [ none ↦ empty | some w ↦ w ]

-- `contains`, which holds of the empty text.
pub contains_or_empty : String → String → Bool
contains_or_empty s empty = true
contains_or_empty s (c +c t) = contains s (c +c t)

pub station_of : ℕ × (ℕ × Station) → Station
station_of (i, (score, s)) = s

-- The higher score first, then the lower index.
pub ranks_before : ℕ × (ℕ × Station) → ℕ × (ℕ × Station) → Bool
ranks_before (i, (a, s)) (j, (b, t)) = ltb b a || ((a == b) && leb i j)

-- `is_alphanumeric` and `to_lowercase` are Rust's, by the tables of Unicode.
module _ (is_alphanumeric : Char → Bool) (to_lowercase : String → String) where
  pub split_at_marks : String → List String
  split_at_marks empty = empty ∷ []
  split_at_marks (c +c s) =
      let rest = split_at_marks s in if is_alphanumeric c then onto_first c rest else empty ∷ rest

  pub split_words : String → List String
  split_words text = keep (λ (w : String). not (is_empty_text w)) (split_at_marks text)

  pub terms_of : String → List String
  terms_of lower =
      keep (λ (w : String). not (mem_text w stop_words))
        (keep (λ (w : String). leb 3 (len w)) (split_words lower))

  pub phonetic_words : List String → List String
  phonetic_words words = keep (λ (w : String). not (is_empty_text w)) (map phonetic_token words)

  pub station_phrase : String → List String
  station_phrase lower =
      phonetic_words (keep (λ (w : String). not (mem_text w command_words)) (split_words lower))

  pub station_prefix_score : List String → String → ℕ
  station_prefix_score spoken name =
      let words = phonetic_words (split_words (to_lowercase name)) in
      let last = length spoken - 1 in
      if ltb (length spoken) 2
      then 0
      else if ltb (length words) (length spoken)
      then 0
      else if same_texts (take last spoken) (take last words)
          && (str_eq (text_at words last) (text_at spoken last)
              || starts_with (text_at words last) (text_at spoken last))
      then 500
      else 0

  pub term_score : String → String → List String → ℕ
  term_score name tags [] = 0
  term_score name tags (term ∷ terms) =
      (if str_eq name term then 120 else if contains name term then 60 else 0)
      + (if contains tags term then 15 else 0)
      + term_score name tags terms

  pub score_of : String → Station → ℕ
  score_of lower s =
      let name = to_lowercase s.name in
      station_prefix_score (station_phrase lower) s.name
      + term_score name (to_lowercase s.tags) (terms_of lower)
      + (if contains_or_empty lower name then 30 else 0)

  -- With the index and the score.
  pub scored_from : String → ℕ → List Station → List (ℕ × (ℕ × Station))
  scored_from lower i [] = []
  scored_from lower i (s ∷ stations) =
      (i, (score_of lower s, s)) ∷ scored_from lower (suc i) stations

  pub rerank_voice_candidates : String → List Station → List Station
  rerank_voice_candidates transcript stations =
      let lower = to_lowercase transcript in
      if same_texts (terms_of lower) [] && same_texts (station_phrase lower) []
      then stations
      else map station_of (sort_by ranks_before (scored_from lower 0 stations))

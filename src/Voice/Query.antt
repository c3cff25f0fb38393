-- ===== src/Voice/Query.antt =====
-- `clean_voice_query` of src/voice/rank.rs: what was said without the words of command.
use Prim.Native.Char.{Char, code}
use Prim.Native.String.{String, [] as empty, ◌∷◌ as ◌+c◌, ◌++◌ as text_append}
use rockcast.Prelude.{
  Bool, false, not, ◌||◌, ◌&&◌, leb, List, [], ◌∷◌, map, if◌then◌else◌, ◌≡◌, refl,
}
use rockcast.Prelude.Texts.{is_whitespace, is_blank}
use rockcast.Prelude.TextMaps.{mem_text}
use rockcast.Stations.Catalog.{trim, trim_start, trim_end}
use rockcast.Voice.Rank.{keep, onto_first, is_empty_text}

abbrev pub filler_words : List String
filler_words =
    "включи" ∷ "включить" ∷ "поставь" ∷ "поставить" ∷ "запусти" ∷ "найди" ∷ "ищи" ∷ "крути"
    ∷ "сыграй" ∷ "играй" ∷ "пожалуйста" ∷ "play" ∷ "find" ∷ "please" ∷ []

-- `split_whitespace`, with empty pieces.
pub split_at_spaces : String → List String
split_at_spaces empty = empty ∷ []
split_at_spaces (c +c s) =
    let rest = split_at_spaces s in if is_whitespace c then empty ∷ rest else onto_first c rest

pub join_words : List String → String
join_words [] = empty
join_words (w ∷ []) = w
join_words (w ∷ v ∷ ws) = text_append w (text_append " " (join_words (v ∷ ws)))

-- `is_alphanumeric` and `to_lowercase` are Rust's.
module _ (is_alphanumeric : Char → Bool) (to_lowercase : String → String) where
  pub has_letter : String → Bool
  has_letter empty = false
  has_letter (c +c s) = is_alphanumeric c || has_letter s

  -- `trim_matches` of what is not alphanumeric
  pub trim_marks_start : String → String
  trim_marks_start empty = empty
  trim_marks_start (c +c s) =
      let rest = trim_marks_start s in if is_alphanumeric c then c +c s else rest

  pub trim_marks_end : String → String
  trim_marks_end empty = empty
  trim_marks_end (c +c s) =
      let rest = trim_marks_end s in if has_letter (c +c s) then c +c rest else empty

  pub trim_marks : String → String
  trim_marks w = trim_marks_end (trim_marks_start w)

  pub query_words : String → List String
  query_words lower =
      keep (λ (w : String). not (mem_text w filler_words))
        (keep (λ (w : String). not (is_empty_text w))
          (map trim_marks (keep (λ (w : String). not (is_empty_text w)) (split_at_spaces lower))))

  pub words_or : String → List String → String
  words_or transcript [] = trim transcript
  words_or transcript (w ∷ ws) = join_words (w ∷ ws)

  pub clean_voice_query : String → String
  clean_voice_query transcript = words_or transcript (query_words (to_lowercase transcript))

-- Small letters of the two alphabets.
abbrev is_letter : Char → Bool
is_letter c = (leb 0x61 (code c) && leb (code c) 0x7a) || (leb 0x430 (code c) && leb (code c) 0x44f)

jazz : clean_voice_query is_letter (λ s. s) "play, jazz fm!" ≡ "jazz fm"
unfolding clean_voice_query words_or query_words trim_marks trim_marks_end trim_marks_start
    has_letter join_words split_at_spaces keep onto_first is_empty_text mem_text is_whitespace
jazz = refl

only_command : clean_voice_query is_letter (λ s. s) " включи " ≡ "включи"
unfolding clean_voice_query words_or query_words trim_marks trim_marks_end trim_marks_start
    has_letter join_words split_at_spaces keep onto_first is_empty_text mem_text is_whitespace trim
    trim_start trim_end is_blank
only_command = refl

-- ===== src/Stations/Codec.antt =====
-- The content type that a station is played as: `infer_codec` of src/stations/catalog.rs, and `from_primary` and
-- `content_type` of src/stations/mod.rs.
use Prim.Native.String.{String, [] as empty, ◌∷◌ as ◌+c◌}
use text.Mathlib.Text.{◌==◌ as str_eq}
use rockcast.Prelude.{ℕ, Bool, true, false, ◌||◌, none, [], ◌∷◌, if◌then◌else◌, ◌≡◌, refl}
use rockcast.Prelude.Texts.{contains, ends_with}
use rockcast.Stations.Catalog.{Station, trim}

unfoldable pub from_primary : String → String → String → String → String → ℕ → String → Station
from_primary id name url tags country bitrate codec = record {
  id = id;
  name = name;
  url = url;
  tags = tags;
  country = country;
  language = none;
  homepage_url = none;
  favicon_url = none;
  aliases = [];
  legacy_ids = [];
  bitrate = bitrate;
  codec = codec;
  streams =
      record { id = "main"; url = url; codec = codec; bitrate = bitrate; primary = true } ∷ [];
}

pub is_empty : String → Bool
is_empty empty = true
is_empty (c +c s) = false

-- `to_lowercase` of Rust's texts is the parameter. The last two branches of the source give the same.
module _ (to_lowercase : String → String) where
  pub infer_codec : String → String → String
  infer_codec codec address =
      let normalized = to_lowercase (trim codec) in
      let url = to_lowercase address in
      if ends_with url ".opus" || contains url ".opus?"
      then "opus"
      else if ends_with url ".ogg" || contains url ".ogg?"
      then if is_empty normalized then "ogg" else normalized
      else if contains url "aacp"
          || (ends_with url ".aac" || (contains url ".aac?" || contains url "/aac"))
      then "aac+"
      else normalized

  pub content_type : Station → String
  content_type s =
      let c = infer_codec s.codec s.url in
      if str_eq c "aac" || (str_eq c "aac+" || (str_eq c "he-aac" || str_eq c "aacp"))
      then "audio/aac"
      else if str_eq c "opus"
      then "audio/ogg; codecs=opus"
      else if str_eq c "vorbis"
      then "audio/ogg; codecs=vorbis"
      else if str_eq c "ogg"
      then "audio/ogg"
      else if str_eq c "flac"
      then "audio/flac"
      else "audio/mpeg"

  -- A station whose address names an Opus file is played as Opus in Ogg, whatever codec the catalogue gives.
  pub content_type_opus :
      (s : Station)
      → ends_with (to_lowercase s.url) ".opus" ≡ true
      → content_type s ≡ "audio/ogg; codecs=opus"
  unfolding content_type infer_codec
  content_type_opus s h = rw (content_type, infer_codec, h) refl

  -- A station of the codec "he-aac-v2" is played as MP3 when its address names no file type.
  pub content_type_he_aac_v2 :
      (s : Station) → infer_codec s.codec s.url ≡ "he-aac-v2" → content_type s ≡ "audio/mpeg"
  unfolding content_type
  content_type_he_aac_v2 s h = rw (content_type, h) refl

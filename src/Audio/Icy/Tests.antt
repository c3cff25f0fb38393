-- ===== src/Audio/Icy/Tests.antt =====
-- A stream with a title in it, read through src/audio/decode/icy.rs.
use rockcast.Prelude.{ℕ, ◌<◌, List, [], ◌∷◌, ◌++◌, length, ◌≡◌, ◌⊎◌, refl, arith}
use rockcast.Prelude.Results.{err, ok}
use rockcast.Audio.Icy.{
  Met, bytes, read_inner, read_exact, IcyStreamReader, skip_meta, read_audio, read_plain, read,
  read_all, unexpected_eof,
}
use rockcast.Audio.Icy.Reads.{remaining, read_all-remaining}
use rockcast.Audio.Icy.Progress.{IsFlowing, read_gives}

-- Two bytes of audio, a title of 16 bytes that is cut in two, two bytes of audio, no title, one byte of audio.
abbrev stream : List Met
stream =
    bytes (1 ∷ 2 ∷ 1 ∷ 0 ∷ 0 ∷ 0 ∷ 0 ∷ [])
    ∷ bytes (0 ∷ 0 ∷ 0 ∷ 0 ∷ 0 ∷ 0 ∷ 0 ∷ 0 ∷ 0 ∷ 0 ∷ 0 ∷ 0 ∷ 3 ∷ [])
    ∷ bytes (4 ∷ 0 ∷ 5 ∷ [])
    ∷ []

abbrev reader : IcyStreamReader
reader = record { inner = stream; meta_int = 2; until_meta = 2 }

plays : read_all (10 ∷ 1 ∷ 10 ∷ 10 ∷ []) reader ≡ 1 ∷ 2 ∷ 3 ∷ 4 ∷ 5 ∷ []
unfolding read_all read skip_meta read_audio read_plain read_inner read_exact
plays = refl

cut_title :
    read 4 (record { inner = bytes (1 ∷ 7 ∷ []) ∷ []; meta_int = 2; until_meta = 0 })
    ≡ err unexpected_eof
unfolding read skip_meta read_exact
cut_title = refl

read_all-remaining_example :
    (rest : List ℕ) × (remaining reader ≡ read_all (10 ∷ 1 ∷ 10 ∷ 10 ∷ []) reader ++ rest)
read_all-remaining_example = read_all-remaining (10 ∷ 1 ∷ 10 ∷ 10 ∷ []) reader

flowing : IsFlowing stream
unfolding IsFlowing
flowing = tt

read_gives_example :
    ((x : List ℕ × IcyStreamReader) × (read 10 reader ≡ ok x) × (0 < length x.0))
    ⊎ (remaining reader ≡ [])
read_gives_example = read_gives 10 reader (omega arith) flowing

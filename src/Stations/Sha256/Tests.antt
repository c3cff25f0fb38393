-- ===== src/Stations/Sha256/Tests.antt =====
-- Runs of the digest of src/stations/catalog.rs.
use rockcast.Stations.Sha256.Padding.{Padded, padded-Padded}
use rockcast.Prelude.{ℕ, some, List, [], ◌∷◌, ◌≡◌, refl}
use rockcast.Stations.Sha256.{
  wrapping_add, rotate_right, complement, be_bytes, from_be_bytes_onto, from_be_bytes, pad_zeros,
  padded, word_at, schedule_word, extend_schedule, words_of, schedule, sha_round, sha_rounds,
  compress, compress_all, hex_digit, hex_digits, hex_words, state_words, sha256_hex,
}

-- The digest of "abc".
abc_digest :
    sha256_hex (0x61 ∷ 0x62 ∷ 0x63 ∷ [])
    ≡ some "ba7816bf8f01cfea414140de5dae2223b00361a396177a9cb410ff61f20015ad"
unfolding wrapping_add rotate_right complement be_bytes from_be_bytes_onto from_be_bytes pad_zeros
    padded word_at schedule_word extend_schedule words_of schedule sha_round sha_rounds compress
    compress_all hex_digit hex_digits hex_words state_words sha256_hex
abc_digest = refl

padded-Padded_example :
    (input : List ℕ) × (padded (0x61 ∷ 0x62 ∷ 0x63 ∷ []) ≡ some input)
    × Padded (0x61 ∷ 0x62 ∷ 0x63 ∷ []) input
padded-Padded_example = padded-Padded (0x61 ∷ 0x62 ∷ 0x63 ∷ [])

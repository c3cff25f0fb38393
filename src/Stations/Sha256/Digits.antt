-- ===== src/Stations/Sha256/Digits.antt =====
-- The text that `sha256_hex` in src/stations/catalog.rs returns.
use Prim.Native.Char.{Char, code}
use Prim.Native.String.{String, [] as empty, ◌∷◌ as ◌+c◌}
use rockcast.Prelude.{
  ℕ, zero, suc, ◌+◌, ◌<◌, ◌/◌, ◌%◌, ◌^◌, ◌*◌, List, [], ◌∷◌, length, Bool, true, ◌||◌, ◌&&◌, leb,
  some, ◌≡◌, refl, arith,
}
use rockcast.Prelude.Texts.{all_chars, is_ascii_digit}
use rockcast.Stations.Sha256.{
  initial_state, compress_all, hex_digit, hex_digits, hex_words, state_words, sha256_hex,
}
use rockcast.Stations.Sha256.Padding.{padded-Padded}

unfoldable pub is_hex : Char → Bool
is_hex c = is_ascii_digit c || (leb 0x61 (code c) && leb (code c) 0x66)

hex_digit_lem : (n : ℕ) → n < 16 → is_hex (hex_digit n) ≡ true
unfolding hex_digit is_hex is_ascii_digit
hex_digit_lem zero h = refl
hex_digit_lem (suc zero) h = refl
hex_digit_lem (suc (suc zero)) h = refl
hex_digit_lem (suc (suc (suc zero))) h = refl
hex_digit_lem (suc (suc (suc (suc zero)))) h = refl
hex_digit_lem (suc (suc (suc (suc (suc zero))))) h = refl
hex_digit_lem (suc (suc (suc (suc (suc (suc zero)))))) h = refl
hex_digit_lem (suc (suc (suc (suc (suc (suc (suc zero))))))) h = refl
hex_digit_lem (suc (suc (suc (suc (suc (suc (suc (suc zero)))))))) h = refl
hex_digit_lem (suc (suc (suc (suc (suc (suc (suc (suc (suc zero))))))))) h = refl
hex_digit_lem (suc (suc (suc (suc (suc (suc (suc (suc (suc (suc zero)))))))))) h = refl
hex_digit_lem (suc (suc (suc (suc (suc (suc (suc (suc (suc (suc (suc zero))))))))))) h = refl
hex_digit_lem (suc (suc (suc (suc (suc (suc (suc (suc (suc (suc (suc (suc zero)))))))))))) h = refl
hex_digit_lem (suc (suc (suc (suc (suc (suc (suc (suc (suc (suc (suc (suc (suc zero))))))))))))) h =
    refl
hex_digit_lem
      (suc (suc (suc (suc (suc (suc (suc (suc (suc (suc (suc (suc (suc (suc zero)))))))))))))) h =
    refl
hex_digit_lem
      (suc (suc (suc (suc (suc (suc (suc (suc (suc (suc (suc (suc (suc (suc (suc zero)))))))))))))))
      h =
    refl
hex_digit_lem
      (suc
        (suc (suc (suc (suc (suc (suc (suc (suc (suc (suc (suc (suc (suc (suc (suc n))))))))))))))))
      h =
    absurd (omega arith)

-- `chars().count()`
unfoldable pub char_count : String → ℕ
char_count empty = 0
char_count (c +c s) = suc (char_count s)

hex_digits-is_hex :
    (n v : ℕ) (more : String)
    → all_chars is_hex more ≡ true
    → all_chars is_hex (hex_digits n v more) ≡ true
unfolding hex_digits all_chars
hex_digits-is_hex zero v more h = h
hex_digits-is_hex (suc n) v more h =
    rw (hex_digit_lem ((v / (16 ^ n)) % 16) (omega arith)) (hex_digits-is_hex n v more h)

char_count-hex_digits :
    (n v : ℕ) (more : String) → char_count (hex_digits n v more) ≡ n + char_count more
unfolding hex_digits char_count
char_count-hex_digits zero v more = omega arith
char_count-hex_digits (suc n) v more = omega (arith, char_count-hex_digits n v more)

hex_words-is_hex : (ws : List ℕ) → all_chars is_hex (hex_words ws) ≡ true
unfolding hex_words all_chars
hex_words-is_hex [] = refl
hex_words-is_hex (w ∷ ws) = hex_digits-is_hex 8 w (hex_words ws) (hex_words-is_hex ws)

char_count-hex_words : (ws : List ℕ) → char_count (hex_words ws) ≡ length ws * 8
unfolding hex_words char_count
char_count-hex_words [] = refl
char_count-hex_words (w ∷ ws) =
    omega (arith, char_count-hex_digits 8 w (hex_words ws), char_count-hex_words ws)

-- The digest of every message is a text of 64 lower-case hexadecimal digits.
sha256_hex_total :
    (bytes : List ℕ)
    → (digest : String) × (sha256_hex bytes ≡ some digest)
      × (char_count digest ≡ 64)
      × (all_chars is_hex digest ≡ true)
unfolding sha256_hex state_words
sha256_hex_total bytes =
    let (input, made, p) = padded-Padded bytes in
    let ws : List ℕ = state_words (compress_all (length input / 64) input initial_state) in
    (hex_words ws, rw (sha256_hex, made) refl, char_count-hex_words ws, hex_words-is_hex ws)

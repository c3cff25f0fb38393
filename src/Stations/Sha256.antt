-- ===== src/Stations/Sha256.antt =====
-- `sha256_hex` of src/stations/catalog.rs: the digest that a built-in catalogue is checked against.
pub mod Padding
pub mod Digits
mod Tests
use Prim.Native.Char.{Char}
use Prim.Native.String.{String, [] as empty, ◌∷◌ as ◌+c◌, char_at}
use Prim.Native.Nat.{bit_xor}
use rockcast.Prelude.{
  ℕ, zero, suc, ◌+◌, ◌-◌, ◌*◌, ◌/◌, ◌%◌, ◌^◌, bit_and, bit_or, List, [], ◌∷◌, ◌++◌, length, take,
  drop, ◌==◌, if◌then◌else◌, get_elem?, Option, none, some,
}

-- Words of 32 bits.
abbrev pub word : ℕ
word = 4294967296

pub wrapping_add : ℕ → ℕ → ℕ
wrapping_add a b = (a + b) % word

-- The shift to the right and the part that comes round are apart, so `+` joins them.
pub rotate_right : ℕ → ℕ → ℕ
rotate_right a k = a / (2 ^ k) + (a % (2 ^ k)) * (2 ^ (32 - k))

pub complement : ℕ → ℕ
complement a = 4294967295 - a

abbrev pub round_constants : List ℕ
round_constants =
    0x428a2f98 ∷ 0x71374491 ∷ 0xb5c0fbcf ∷ 0xe9b5dba5 ∷ 0x3956c25b ∷ 0x59f111f1 ∷ 0x923f82a4
    ∷ 0xab1c5ed5 ∷ 0xd807aa98 ∷ 0x12835b01 ∷ 0x243185be ∷ 0x550c7dc3 ∷ 0x72be5d74 ∷ 0x80deb1fe
    ∷ 0x9bdc06a7 ∷ 0xc19bf174 ∷ 0xe49b69c1 ∷ 0xefbe4786 ∷ 0x0fc19dc6 ∷ 0x240ca1cc ∷ 0x2de92c6f
    ∷ 0x4a7484aa ∷ 0x5cb0a9dc ∷ 0x76f988da ∷ 0x983e5152 ∷ 0xa831c66d ∷ 0xb00327c8 ∷ 0xbf597fc7
    ∷ 0xc6e00bf3 ∷ 0xd5a79147 ∷ 0x06ca6351 ∷ 0x14292967 ∷ 0x27b70a85 ∷ 0x2e1b2138 ∷ 0x4d2c6dfc
    ∷ 0x53380d13 ∷ 0x650a7354 ∷ 0x766a0abb ∷ 0x81c2c92e ∷ 0x92722c85 ∷ 0xa2bfe8a1 ∷ 0xa81a664b
    ∷ 0xc24b8b70 ∷ 0xc76c51a3 ∷ 0xd192e819 ∷ 0xd6990624 ∷ 0xf40e3585 ∷ 0x106aa070 ∷ 0x19a4c116
    ∷ 0x1e376c08 ∷ 0x2748774c ∷ 0x34b0bcb5 ∷ 0x391c0cb3 ∷ 0x4ed8aa4a ∷ 0x5b9cca4f ∷ 0x682e6ff3
    ∷ 0x748f82ee ∷ 0x78a5636f ∷ 0x84c87814 ∷ 0x8cc70208 ∷ 0x90befffa ∷ 0xa4506ceb ∷ 0xbef9a3f7
    ∷ 0xc67178f2 ∷ []

-- `to_be_bytes`: the `n` lowest bytes, the highest first.
pub be_bytes : ℕ → ℕ → List ℕ
be_bytes zero v = []
be_bytes (suc n) v = (v / (256 ^ n)) % 256 ∷ be_bytes n v

pub from_be_bytes_onto : ℕ → List ℕ → ℕ
from_be_bytes_onto v [] = v
from_be_bytes_onto v (b ∷ bytes) = from_be_bytes_onto (v * 256 + b) bytes

pub from_be_bytes : List ℕ → ℕ
from_be_bytes bytes = from_be_bytes_onto 0 bytes

-- `while !(input.len() + 8).is_multiple_of(64)`, with fuel for the rounds.
pub pad_zeros : ℕ → List ℕ → Option (List ℕ)
pad_zeros zero input = none
pad_zeros (suc fuel) input =
    let rest = pad_zeros fuel (input ++ (0 ∷ [])) in
    if (length input + 8) % 64 == 0 then some input else rest

-- The message with its padding and its length in bits.
pub padded : List ℕ → Option (List ℕ)
padded bytes = elim (pad_zeros 64 (bytes ++ (0x80 ∷ []))) [
  | none ↦ none
  | some input ↦ some (input ++ be_bytes 8 ((length bytes * 8) % (2 ^ 64)))
]

-- An index is always in the array.
pub word_at : List ℕ → ℕ → ℕ
word_at xs i = elim (get_elem? xs i) [ none ↦ 0 | some x ↦ x ]

pub schedule_word : List ℕ → ℕ → ℕ
schedule_word w i =
    let a =
      bit_xor (bit_xor (rotate_right (word_at w (i - 15)) 7) (rotate_right (word_at w (i - 15)) 18))
        (word_at w (i - 15) / (2 ^ 3)) in
    let b =
      bit_xor (bit_xor (rotate_right (word_at w (i - 2)) 17) (rotate_right (word_at w (i - 2)) 19))
        (word_at w (i - 2) / (2 ^ 10)) in
    wrapping_add (wrapping_add (wrapping_add (word_at w (i - 16)) a) (word_at w (i - 7))) b

-- `for i in i .. i + n`
pub extend_schedule : ℕ → ℕ → List ℕ → List ℕ
extend_schedule zero i w = w
extend_schedule (suc n) i w = extend_schedule n (suc i) (w ++ (schedule_word w i ∷ []))

-- The words of four bytes.
pub words_of : ℕ → List ℕ → List ℕ
words_of zero bytes = []
words_of (suc n) bytes = from_be_bytes (take 4 bytes) ∷ words_of n (drop 4 bytes)

pub schedule : List ℕ → List ℕ
schedule chunk = extend_schedule 48 16 (words_of 16 chunk)

pub record Working : Type 0 where
  pub a : ℕ
  pub b : ℕ
  pub c : ℕ
  pub d : ℕ
  pub e : ℕ
  pub f : ℕ
  pub g : ℕ
  pub h : ℕ

pub sha_round : ℕ → ℕ → Working → Working
sha_round k w s =
    let t1 =
      wrapping_add
        (wrapping_add
          (wrapping_add
            (wrapping_add s.h
              (bit_xor (bit_xor (rotate_right s.e 6) (rotate_right s.e 11)) (rotate_right s.e 25)))
            (bit_xor (bit_and s.e s.f) (bit_and (complement s.e) s.g)))
          k)
        w in
    let t2 =
      wrapping_add
        (bit_xor (bit_xor (rotate_right s.a 2) (rotate_right s.a 13)) (rotate_right s.a 22))
        (bit_xor (bit_xor (bit_and s.a s.b) (bit_and s.a s.c)) (bit_and s.b s.c)) in
    record {
      a = wrapping_add t1 t2;
      b = s.a;
      c = s.b;
      d = s.c;
      e = wrapping_add s.d t1;
      f = s.e;
      g = s.f;
      h = s.g;
    }

pub sha_rounds : List ℕ → List ℕ → Working → Working
sha_rounds [] ws s = s
sha_rounds (k ∷ ks) [] s = s
sha_rounds (k ∷ ks) (w ∷ ws) s = sha_rounds ks ws (sha_round k w s)

pub compress : Working → List ℕ → Working
compress s chunk =
    let t = sha_rounds round_constants (schedule chunk) s in
    record {
      a = wrapping_add s.a t.a;
      b = wrapping_add s.b t.b;
      c = wrapping_add s.c t.c;
      d = wrapping_add s.d t.d;
      e = wrapping_add s.e t.e;
      f = wrapping_add s.f t.f;
      g = wrapping_add s.g t.g;
      h = wrapping_add s.h t.h;
    }

-- `chunks_exact(64)`: `n` chunks.
pub compress_all : ℕ → List ℕ → Working → Working
compress_all zero input s = s
compress_all (suc n) input s = compress_all n (drop 64 input) (compress s (take 64 input))

abbrev pub initial_state : Working
initial_state = record {
  a = 0x6a09e667;
  b = 0xbb67ae85;
  c = 0x3c6ef372;
  d = 0xa54ff53a;
  e = 0x510e527f;
  f = 0x9b05688c;
  g = 0x1f83d9ab;
  h = 0x5be0cd19;
}

pub hex_digit : ℕ → Char
hex_digit n = char_at "0123456789abcdef" n

-- `{word:08x}`, followed by more: the digits of `16 ^ n` and below.
pub hex_digits : ℕ → ℕ → String → String
hex_digits zero v more = more
hex_digits (suc n) v more = hex_digit ((v / (16 ^ n)) % 16) +c hex_digits n v more

pub hex_words : List ℕ → String
hex_words [] = empty
hex_words (w ∷ ws) = hex_digits 8 w (hex_words ws)

pub state_words : Working → List ℕ
state_words s = s.a ∷ s.b ∷ s.c ∷ s.d ∷ s.e ∷ s.f ∷ s.g ∷ s.h ∷ []

pub sha256_hex : List ℕ → Option String
sha256_hex bytes = elim (padded bytes) [
  | none ↦ none
  | some input ↦
      some (hex_words (state_words (compress_all (length input / 64) input initial_state)))
]

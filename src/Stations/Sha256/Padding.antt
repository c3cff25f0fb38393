-- ===== src/Stations/Sha256/Padding.antt =====
-- The padding of `sha256_hex` in src/stations/catalog.rs: its loop ends, and leaves whole chunks.
use mathlib.Core.Path.{subst}
use rockcast.Prelude.{
  ℕ, zero, suc, ◌+◌, ◌-◌, ◌*◌, ◌%◌, ◌^◌, ◌<◌, ◌≤◌, List, [], ◌∷◌, ◌++◌, length, length-append,
  append-nil, append_assoc, ◌==◌, some, ◌≡◌, ◌≢◌, refl, ap, ◌∙◌, inl, inr, Bool-cases, arith,
  ==_iff,
}
use rockcast.Stations.Sha256.{be_bytes, pad_zeros, padded}

-- The zeros that are missing.
abbrev gap : ℕ → ℕ
gap n = (64 - (n + 8) % 64) % 64

record Filled (fuel : ℕ) (input : List ℕ) : Type 0 where
  zeros : List ℕ
  made : pad_zeros fuel input ≡ some (input ++ zeros)
  whole : (length (input ++ zeros) + 8) % 64 ≡ 0
  few : length zeros ≤ gap (length input)

pad_zeros-Filled : (fuel : ℕ) (input : List ℕ) → gap (length input) < fuel → Filled fuel input
unfolding pad_zeros
pad_zeros-Filled zero input h = absurd (omega arith)
pad_zeros-Filled (suc fuel) input h = elim (Bool-cases ((length input + 8) % 64 == 0)) [
  | inl full ↦
      let e : (length input + 8) % 64 ≡ 0 = (==_iff ((length input + 8) % 64) 0).0 full in
      record {
        zeros = [];
        made = rw (pad_zeros, full, append-nil input) refl;
        whole = rw (append-nil input) e;
        few = omega arith;
      }
  | inr short ↦
      let n : length (input ++ (0 ∷ [])) ≡ suc (length input) =
        length-append input (0 ∷ []) ∙ omega arith in
      let e : (length input + 8) % 64 ≢ 0 = λ z. absurd (ground (arith, short, z)) in
      let rest : Filled fuel (input ++ (0 ∷ [])) =
        pad_zeros-Filled fuel (input ++ (0 ∷ [])) (rw n (omega arith)) in
      let same : ((input ++ (0 ∷ [])) ++ rest.zeros) ≡ (input ++ (0 ∷ rest.zeros)) =
        append_assoc input (0 ∷ []) rest.zeros in
      record {
        zeros = 0 ∷ rest.zeros;
        made = rw (pad_zeros, short, rest.made, same) refl;
        whole = subst (λ l. (length l + 8) % 64 ≡ 0) same rest.whole;
        few =
            let f : length rest.zeros ≤ gap (suc (length input)) =
              subst (λ m. length rest.zeros ≤ gap m) n rest.few in
            omega arith;
      }
]

length-be_bytes : (n v : ℕ) → length (be_bytes n v) ≡ n
unfolding be_bytes
length-be_bytes zero v = refl
length-be_bytes (suc n) v = ap suc (length-be_bytes n v)

-- The message padded: it starts with the message, ends with the eight bytes of its length in bits, and
-- between them stand the byte 0x80 and fewer than 64 others.
pub record Padded (bytes input : List ℕ) : Type 0 where
  pub zeros : List ℕ
  pub shape : input ≡ bytes ++ ((0x80 ∷ zeros) ++ be_bytes 8 ((length bytes * 8) % (2 ^ 64)))
  pub few : length zeros < 64
  pub whole : length input % 64 ≡ 0

-- The padding of a message of any length comes to an end, after fewer than 64 rounds, and gives the message, 0x80, fewer than 64
-- further bytes and its length in bits as eight bytes, which together are a whole number of chunks of
-- 64 bytes.
pub padded-Padded :
    (bytes : List ℕ) → (input : List ℕ) × (padded bytes ≡ some input) × Padded bytes input
unfolding padded
padded-Padded bytes =
    let tail : List ℕ = be_bytes 8 ((length bytes * 8) % (2 ^ 64)) in
    let f : Filled 64 (bytes ++ (0x80 ∷ [])) =
      pad_zeros-Filled 64 (bytes ++ (0x80 ∷ [])) (omega arith) in
    let same : (((bytes ++ (0x80 ∷ [])) ++ f.zeros) ++ tail)
        ≡ (bytes ++ ((0x80 ∷ f.zeros) ++ tail)) =
      ap (λ l. l ++ tail) (append_assoc bytes (0x80 ∷ []) f.zeros)
      ∙ append_assoc bytes (0x80 ∷ f.zeros) tail in
    (
      ((bytes ++ (0x80 ∷ [])) ++ f.zeros) ++ tail,
      rw (padded, f.made) refl,
      record {
        zeros = f.zeros;
        shape = same;
        few = omega (arith, f.few);
        whole = omega (
          arith,
          length-append ((bytes ++ (0x80 ∷ [])) ++ f.zeros) tail,
          length-be_bytes 8 ((length bytes * 8) % (2 ^ 64)),
          f.whole,
        );
      },
    )

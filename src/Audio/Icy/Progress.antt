-- ===== src/Audio/Icy/Progress.antt =====
-- `IcyStreamReader` of src/audio/decode/icy.rs gives audio as long as there is some.
use mathlib.Core.Path.{subst}
use rockcast.Prelude.{
  ℕ, zero, suc, ◌-◌, ◌*◌, ◌<◌, min, true, false, List, [], ◌∷◌, ◌++◌, length, length-append,
  length-take, take, drop, leb, ◌==◌, ◌≡◌, ◌⊎◌, refl, ap, ◌∙◌, inl, inr, Bool-cases, arith,
}
use rockcast.Prelude.Results.{Result, ok}
use rockcast.Audio.Icy.{
  Met, bytes, interrupted, broken, ReadError, read_inner, read_exact, IcyStreamReader, first_byte,
  skip_meta, read_audio, read_plain, read,
}
use rockcast.Audio.Icy.Strip.{
  Place, audio, after_length, strip, bytes_of, strip_length, TookAll, read_exact-TookAll,
}
use rockcast.Audio.Icy.Reads.{remaining, remaining-Skipped, skip_meta-Skipped, Skipped}

-- Bytes come, and no error.
unfoldable pub IsFlowing : List Met → Type 0
IsFlowing [] = Unit
IsFlowing (bytes [] ∷ source) = ⊥
IsFlowing (bytes (b ∷ chunk) ∷ source) = IsFlowing source
IsFlowing (interrupted ∷ source) = ⊥
IsFlowing (broken ∷ source) = ⊥

IsFlowing-drop :
    (n : ℕ) (chunk : List ℕ) (source : List Met)
    → n < length chunk
    → IsFlowing source
    → IsFlowing (bytes (drop n chunk) ∷ source)
unfolding IsFlowing
IsFlowing-drop n [] source h f = absurd (omega arith)
IsFlowing-drop zero (b ∷ chunk) source h f = f
IsFlowing-drop (suc n) (b ∷ chunk) source h f = IsFlowing-drop n chunk source (omega arith) f

inner_gives :
    (n : ℕ) (source : List Met)
    → IsFlowing source
    → ((x : List ℕ × List Met) × (read_inner (suc n) source ≡ ok x) × (0 < length x.0))
      ⊎ (bytes_of source ≡ [])
unfolding read_inner bytes_of IsFlowing
inner_gives n [] f = inr refl
inner_gives n (bytes [] ∷ source) f = absurd f
inner_gives n (interrupted ∷ source) f = absurd f
inner_gives n (broken ∷ source) f = absurd f
inner_gives n (bytes (b ∷ chunk) ∷ source) f =
    elim (Bool-cases (leb (length (b ∷ chunk)) (suc n))) [
      | inl whole ↦ inl ((b ∷ chunk, source), rw whole refl, omega arith)
      | inr part ↦ inl (
        (take (suc n) (b ∷ chunk), bytes (drop (suc n) (b ∷ chunk)) ∷ source),
        rw part refl,
        omega (arith, length-take (suc n) (b ∷ chunk)),
      )
    ]

exact_gives :
    (n : ℕ) (source : List Met)
    → IsFlowing source
    → ((x : List ℕ × List Met) × (read_exact n source ≡ ok x) × IsFlowing x.1)
      ⊎ (length (bytes_of source) < n)
unfolding read_exact bytes_of IsFlowing
exact_gives zero source f = inl (([], source), refl, f)
exact_gives (suc n) [] f = inr (omega arith)
exact_gives (suc n) (bytes [] ∷ source) f = absurd f
exact_gives (suc n) (interrupted ∷ source) f = absurd f
exact_gives (suc n) (broken ∷ source) f = absurd f
exact_gives (suc n) (bytes (b ∷ chunk) ∷ source) f = elim (Bool-cases (leb (length chunk) n)) [
  | inr part ↦ inl (
    (take (suc n) (b ∷ chunk), bytes (drop (suc n) (b ∷ chunk)) ∷ source),
    rw part refl,
    IsFlowing-drop (suc n) (b ∷ chunk) source (ground arith) f,
  )
  | inl whole ↦ elim (exact_gives (n - length chunk) source f) [
    | inl (x, e, g) ↦ inl ((b ∷ chunk ++ x.0, x.1), rw (whole, e) refl, g)
    | inr short ↦ inr (ground (arith, length-append chunk (bytes_of source)))
  ]
]

strip_empty : (m : ℕ) (p : Place) (xs : List ℕ) → length xs ≡ 0 → strip m p xs ≡ []
unfolding strip
strip_empty m p [] h = refl
strip_empty m p (x ∷ xs) h = absurd (omega arith)

strip_short : (m n : ℕ) (xs : List ℕ) → length xs < n → strip m (after_length m n) xs ≡ []
unfolding strip after_length
strip_short m zero xs h = absurd (omega arith)
strip_short m (suc n) [] h = refl
strip_short m (suc zero) (x ∷ xs) h = absurd (omega arith)
strip_short m (suc (suc n)) (x ∷ xs) h = strip_short m (suc n) xs (omega arith)

abbrev Given : Result ReadError (List ℕ × IcyStreamReader) → Type 0
Given x = (y : List ℕ × IcyStreamReader) × (x ≡ ok y) × (0 < length y.0)

audio_gives :
    (n : ℕ) (r : IcyStreamReader)
    → (r.meta_int == 0) ≡ false
    → 0 < r.until_meta
    → IsFlowing r.inner
    → Given (read_audio (suc n) r) ⊎ (remaining r ≡ [])
unfolding read_audio remaining
audio_gives n r titled before f =
    let k : ℕ = min (suc n) r.until_meta - 1 in
    let most : min (suc n) r.until_meta ≡ suc k = omega arith in
    let some_room : (suc k == 0) ≡ false = ground arith in
    elim (inner_gives k r.inner f) [
      | inl (x, e, h) ↦ inl (
        (x.0, record r { inner = x.1; until_meta = r.until_meta - length x.0 }),
        rw (most, some_room, e) refl,
        h,
      )
      | inr done ↦ inr (rw (titled, done) (strip_empty r.meta_int (audio r.until_meta) [] refl))
    ]

plain_gives :
    (n : ℕ) (r : IcyStreamReader)
    → (r.meta_int == 0) ≡ true
    → IsFlowing r.inner
    → Given (read_plain (suc n) r) ⊎ (remaining r ≡ [])
unfolding read_plain remaining
plain_gives n r plain f = elim (inner_gives n r.inner f) [
  | inl (x, e, h) ↦ inl ((x.0, record r { inner = x.1 }), rw (read_plain, e) refl, h)
  | inr done ↦ inr (rw plain done)
]

cut_short :
    (m : ℕ) (stream xs later : List ℕ)
    → length xs ≡ 1
    → stream ≡ xs ++ later
    → length later < first_byte xs * 16
    → strip m (audio 0) stream ≡ []
cut_short m stream [] later h e k = absurd (omega arith)
cut_short m stream (b ∷ []) later h e k =
    ap (strip m (audio 0)) e ∙ strip_length m b later ∙ strip_short m (b * 16) later k
cut_short m stream (b ∷ c ∷ xs) later h e k = absurd (omega arith)

skip_gives :
    (r : IcyStreamReader)
    → IsFlowing r.inner
    → ((s : IcyStreamReader) × (skip_meta r ≡ ok s)
        × (s.until_meta ≡ r.meta_int)
        × IsFlowing s.inner)
      ⊎ (strip r.meta_int (audio 0) (bytes_of r.inner) ≡ [])
unfolding skip_meta
skip_gives r f = elim (exact_gives 1 r.inner f) [
  | inr short ↦ inr (strip_empty r.meta_int (audio 0) (bytes_of r.inner) (omega arith))
  | inl (x, e, g) ↦ elim (exact_gives (first_byte x.0 * 16) x.1 g) [
    | inl (y, d, h) ↦
        inl (record r { inner = y.1; until_meta = r.meta_int }, rw (skip_meta, e, d) refl, refl, h)
    | inr short ↦
        let took : TookAll 1 r.inner (ok x) =
          subst (TookAll 1 r.inner) e (read_exact-TookAll 1 r.inner) in
        inr (cut_short r.meta_int (bytes_of r.inner) x.0 (bytes_of x.1) took.0 took.1 short)
  ]
]

title_gives :
    (n : ℕ) (r : IcyStreamReader)
    → (r.meta_int == 0) ≡ false
    → (r.until_meta == 0) ≡ true
    → IsFlowing r.inner
    → Given (read (suc n) r) ⊎ (remaining r ≡ [])
unfolding read remaining
title_gives n r titled at_title f = elim (skip_gives r f) [
  | inr none_left ↦
      let here : r.until_meta ≡ 0 = ground arith in
      inr (
        rw (remaining, titled)
          (ap (λ u. strip r.meta_int (audio u) (bytes_of r.inner)) here ∙ none_left))
  | inl (s, e, u, g) ↦
      let skipped : Skipped r (ok s) = subst (Skipped r) e (skip_meta-Skipped r) in
      elim (audio_gives n s (ground (arith, skipped.0)) (ground (arith, u)) g) [
        | inl (x, d, h) ↦ inl (x, rw (read, titled, at_title, e) d, h)
        | inr none_left ↦ inr (remaining-Skipped r s titled at_title skipped ∙ none_left)
      ]
]

-- While bytes come and no error, a read into a buffer that is not empty gives at least a byte, or else no audio is left.
pub read_gives :
    (n : ℕ) (r : IcyStreamReader)
    → 0 < n
    → IsFlowing r.inner
    → ((x : List ℕ × IcyStreamReader) × (read n r ≡ ok x) × (0 < length x.0)) ⊎ (remaining r ≡ [])
unfolding read
read_gives zero r h f = absurd (omega arith)
read_gives (suc n) r h f = elim (Bool-cases (r.meta_int == 0)) [
  | inl plain ↦ rw plain (plain_gives n r plain f)
  | inr titled ↦ elim (Bool-cases (r.until_meta == 0)) [
    | inr before ↦ rw (titled, before) (audio_gives n r titled (ground arith) f)
    | inl at_title ↦ title_gives n r titled at_title f
  ]
]

-- ===== src/Audio/Icy/Reads.antt =====
-- Reads through `IcyStreamReader` of src/audio/decode/icy.rs give the audio of the stream.
use rockcast.Prelude.{
  ℕ, ◌-◌, ◌*◌, min, true, false, List, [], ◌∷◌, ◌++◌, append_assoc, length, ◌==◌, if◌then◌else◌,
  ◌≡◌, refl, sym, ap, ◌∙◌, inl, inr, Bool-cases, arith,
}
use rockcast.Prelude.Results.{Result, err, ok}
use rockcast.Audio.Icy.{
  Met, ReadError, read_inner, read_exact, IcyStreamReader, first_byte, skip_meta, read_audio,
  read_plain, read, read_all,
}
use rockcast.Audio.Icy.Strip.{
  audio, after_length, strip, bytes_of, strip_length, strip-title, strip-audio, Took,
  read_inner-Took, IsUpTo, read_inner-IsUpTo, TookAll, read_exact-TookAll,
}

-- The audio that is still to come.
unfoldable pub remaining : IcyStreamReader → List ℕ
remaining r =
    if r.meta_int == 0
    then bytes_of r.inner
    else strip r.meta_int (audio r.until_meta) (bytes_of r.inner)

abbrev pub Skipped : IcyStreamReader → Result ReadError IcyStreamReader → Type 0
Skipped r (err e) = Unit
Skipped r (ok s) =
    (s.meta_int ≡ r.meta_int)
    × (strip r.meta_int (audio 0) (bytes_of r.inner)
        ≡ strip s.meta_int (audio s.until_meta) (bytes_of s.inner))

pub skip_meta-Skipped : (r : IcyStreamReader) → Skipped r (skip_meta r)
unfolding skip_meta
skip_meta-Skipped r = header (read_exact 1 r.inner) (read_exact-TookAll 1 r.inner)
  where
    body :
        (b : ℕ) (source : List Met)
        → bytes_of r.inner ≡ b ∷ bytes_of source
        → (x : Result ReadError (List ℕ × List Met)) → TookAll (b * 16) source x
        → let result : Result ReadError IcyStreamReader = elim x [
          | err e ↦ err e
          | ok (meta, rest) ↦ ok (record r { inner = rest; until_meta = r.meta_int })
        ] in
          Skipped r result
    body b source e (err x) t = tt
    body b source e (ok (meta, rest)) t = (
      refl,
      ap (strip r.meta_int (audio 0)) e
          ∙ strip_length r.meta_int b (bytes_of source)
          ∙ ap (strip r.meta_int (after_length r.meta_int (b * 16))) t.1
          ∙ strip-title r.meta_int (b * 16) meta (bytes_of rest) t.0,
    )

    header :
        (x : Result ReadError (List ℕ × List Met))
        → TookAll 1 r.inner x
        → let result : Result ReadError IcyStreamReader = elim x [
          | err e ↦ err e
          | ok (len_byte, source) ↦ elim (read_exact (first_byte len_byte * 16) source) [
            | err e ↦ err e
            | ok (meta, rest) ↦ ok (record r { inner = rest; until_meta = r.meta_int })
          ]
        ] in
          Skipped r result
    header (err x) t = tt
    header (ok ([], source)) t = absurd (omega (arith, t.0))
    header (ok (b ∷ [], source)) t =
        body b source t.1 (read_exact (b * 16) source) (read_exact-TookAll (b * 16) source)
    header (ok (b ∷ c ∷ bs, source)) t = absurd (omega (arith, t.0))

abbrev Gave : IcyStreamReader → Result ReadError (List ℕ × IcyStreamReader) → Type 0
Gave r (err e) = Unit
Gave r (ok (out, s)) = remaining r ≡ out ++ remaining s

read_plain-Gave : (n : ℕ) (r : IcyStreamReader) → (r.meta_int == 0) ≡ true → Gave r (read_plain n r)
unfolding read_plain remaining
read_plain-Gave n r plain = go (read_inner n r.inner) (read_inner-Took n r.inner)
  where
    go :
        (x : Result ReadError (List ℕ × List Met))
        → Took r.inner x
        → let result : Result ReadError (List ℕ × IcyStreamReader) = elim x [
          | err e ↦ err e
          | ok (out, source) ↦ ok (out, record r { inner = source })
        ] in
          Gave r result
    go (err e) t = tt
    go (ok (out, source)) t = rw plain t

read_audio-Gave :
    (n : ℕ) (r : IcyStreamReader) → (r.meta_int == 0) ≡ false → Gave r (read_audio n r)
unfolding read_audio remaining
read_audio-Gave n r titled = elim (Bool-cases (min n r.until_meta == 0)) [
  | inl nothing ↦ rw (Gave, nothing) refl
  | inr some_room ↦
      rw (Gave, some_room)
        (go (read_inner (min n r.until_meta) r.inner) (read_inner-Took (min n r.until_meta) r.inner)
          (read_inner-IsUpTo (min n r.until_meta) r.inner))
]
  where
    go :
        (x : Result ReadError (List ℕ × List Met))
        → Took r.inner x
        → IsUpTo (min n r.until_meta) x
        → let result : Result ReadError (List ℕ × IcyStreamReader) = elim x [
          | err e ↦ err e
          | ok (out, source) ↦
              ok (out, record r { inner = source; until_meta = r.until_meta - length out })
        ] in
          Gave r result
    go (err e) t u = tt
    go (ok (out, source)) t u =
        rw (titled, t)
          (strip-audio r.meta_int r.until_meta out (bytes_of source) (omega (arith, u)))

Gave-Skipped :
    (r s : IcyStreamReader) (x : Result ReadError (List ℕ × IcyStreamReader))
    → remaining r ≡ remaining s
    → Gave s x
    → Gave r x
Gave-Skipped r s (err e) same g = tt
Gave-Skipped r s (ok (out, t)) same g = same ∙ g

pub remaining-Skipped :
    (r s : IcyStreamReader)
    → (r.meta_int == 0) ≡ false
    → (r.until_meta == 0) ≡ true
    → Skipped r (ok s)
    → remaining r ≡ remaining s
unfolding remaining
remaining-Skipped r s titled at_title k =
    let still : (s.meta_int == 0) ≡ false = ground (arith, k.0) in
    let here : r.until_meta ≡ 0 = ground arith in
    rw (titled, still) (ap (λ u. strip r.meta_int (audio u) (bytes_of r.inner)) here ∙ k.1)

read-Gave : (n : ℕ) (r : IcyStreamReader) → Gave r (read n r)
unfolding read
read-Gave n r = elim (Bool-cases (r.meta_int == 0)) [
  | inl plain ↦ rw (Gave, plain) (read_plain-Gave n r plain)
  | inr titled ↦ elim (Bool-cases (r.until_meta == 0)) [
    | inr before ↦ rw (Gave, titled, before) (read_audio-Gave n r titled)
    | inl at_title ↦
        rw (Gave, titled, at_title) (go titled at_title (skip_meta r) (skip_meta-Skipped r))
  ]
]
  where
    go :
        (r.meta_int == 0) ≡ false
        → (r.until_meta == 0) ≡ true
        → (x : Result ReadError IcyStreamReader) → Skipped r x
        → let result : Result ReadError (List ℕ × IcyStreamReader) = elim x [
          | err e ↦ err e
          | ok s ↦ read_audio n s
        ] in
          Gave r result
    go titled at_title (err e) k = tt
    go titled at_title (ok s) k =
        let still : (s.meta_int == 0) ≡ false = ground (arith, k.0) in
        Gave-Skipped r s (read_audio n s) (remaining-Skipped r s titled at_title k)
          (read_audio-Gave n s still)

-- However the source is cut into pieces, and whatever the sizes of the reads, what they give one after the other, until
-- one fails, is the beginning of the stream without its titles; with no titles in it, of the stream.
pub read_all-remaining :
    (sizes : List ℕ) (r : IcyStreamReader)
    → (rest : List ℕ) × (remaining r ≡ read_all sizes r ++ rest)
unfolding read_all
read_all-remaining [] r = (remaining r, refl)
read_all-remaining (n ∷ sizes) r = go (read n r) (read-Gave n r) (λ s. read_all-remaining sizes s)
  where
    go :
        (x : Result ReadError (List ℕ × IcyStreamReader))
        → Gave r x
        → ((s : IcyStreamReader) → (rest : List ℕ) × (remaining s ≡ read_all sizes s ++ rest))
        → let given : List ℕ = elim x [ err e ↦ [] | ok (out, s) ↦ out ++ read_all sizes s ] in
          (rest : List ℕ) × (remaining r ≡ given ++ rest)
    go (err e) g next = (remaining r, refl)
    go (ok (out, s)) g next =
        let later = next s in
        (
          later.0,
          g ∙ ap (λ xs. out ++ xs) later.1 ∙ sym (append_assoc out (read_all sizes s) later.0),
        )

-- ===== src/Audio/Icy/Strip.antt =====
-- The audio that `IcyStreamReader` of src/audio/decode/icy.rs gives, against the layout of the stream.
use rockcast.Prelude.{
  ℕ, zero, suc, ◌+◌, ◌-◌, ◌*◌, ◌≤◌, List, [], ◌∷◌, ◌++◌, append_assoc, length, length-append,
  length-take, take, drop, take-append-drop, leb, ◌≡◌, refl, sym, ap, ◌∙◌, inl, inr, Bool-cases,
  arith,
}
use rockcast.Prelude.Results.{Result, err, ok}
use rockcast.Audio.Icy.{
  Met, bytes, interrupted, broken, ReadError, read_inner, prefixed, read_exact,
}

-- A place in the stream: so many bytes of audio before a title, or one byte and so many more of a title.
pub data Place : Type 0 where
  audio : ℕ → Place
  title : ℕ → Place

unfoldable pub after_length : ℕ → ℕ → Place
after_length meta_int zero = audio meta_int
after_length meta_int (suc n) = title n

-- The stream without its titles: after each `meta_int` bytes of audio stands a byte, and 16 times as many bytes of a title.
unfoldable pub strip : ℕ → Place → List ℕ → List ℕ
strip meta_int place [] = []
strip meta_int (audio zero) (b ∷ stream) = strip meta_int (after_length meta_int (b * 16)) stream
strip meta_int (audio (suc n)) (b ∷ stream) = b ∷ strip meta_int (audio n) stream
strip meta_int (title zero) (b ∷ stream) = strip meta_int (audio meta_int) stream
strip meta_int (title (suc n)) (b ∷ stream) = strip meta_int (title n) stream

unfoldable pub bytes_of : List Met → List ℕ
bytes_of [] = []
bytes_of (bytes chunk ∷ source) = chunk ++ bytes_of source
bytes_of (interrupted ∷ source) = bytes_of source
bytes_of (broken ∷ source) = bytes_of source

pub strip-title :
    (m : ℕ) (n : ℕ) (xs stream : List ℕ)
    → length xs ≡ n
    → strip m (after_length m n) (xs ++ stream) ≡ strip m (audio m) stream
unfolding strip after_length
strip-title m zero [] stream h = refl
strip-title m zero (x ∷ xs) stream h = absurd (omega arith)
strip-title m (suc n) [] stream h = absurd (omega arith)
strip-title m (suc zero) (x ∷ []) stream h = refl
strip-title m (suc zero) (x ∷ y ∷ xs) stream h = absurd (omega arith)
strip-title m (suc (suc n)) (x ∷ xs) stream h = strip-title m (suc n) xs stream (omega arith)

pub strip_length :
    (m b : ℕ) (stream : List ℕ)
    → strip m (audio 0) (b ∷ stream) ≡ strip m (after_length m (b * 16)) stream
unfolding strip
strip_length m b stream = refl

pub strip-audio :
    (m u : ℕ) (xs stream : List ℕ)
    → length xs ≤ u
    → strip m (audio u) (xs ++ stream) ≡ xs ++ strip m (audio (u - length xs)) stream
unfolding strip
strip-audio m u [] stream h = let same : u - 0 ≡ u = omega arith in rw same refl
strip-audio m zero (x ∷ xs) stream h = absurd (omega arith)
strip-audio m (suc u) (x ∷ xs) stream h =
    let down : suc u - length (x ∷ xs) ≡ u - length xs = omega arith in
    rw down (ap (λ t. x ∷ t) (strip-audio m u xs stream (omega arith)))

-- What a read took off a source.
abbrev pub Took : List Met → Result ReadError (List ℕ × List Met) → Type 0
Took source (err e) = Unit
Took source (ok (xs, rest)) = bytes_of source ≡ xs ++ bytes_of rest

pub read_inner-Took : (n : ℕ) (source : List Met) → Took source (read_inner n source)
unfolding read_inner bytes_of
read_inner-Took n [] = refl
read_inner-Took n (interrupted ∷ source) = tt
read_inner-Took n (broken ∷ source) = tt
read_inner-Took n (bytes chunk ∷ source) = elim (Bool-cases (leb (length chunk) n)) [
  | inl whole ↦ rw (Took, whole) refl
  | inr part ↦
      rw (Took, part)
        (ap (λ xs. xs ++ bytes_of source) (sym (take-append-drop n chunk))
          ∙ append_assoc (take n chunk) (drop n chunk) (bytes_of source))
]

abbrev pub IsUpTo : ℕ → Result ReadError (List ℕ × List Met) → Type 0
IsUpTo n (err e) = Unit
IsUpTo n (ok (xs, rest)) = length xs ≤ n

pub read_inner-IsUpTo : (n : ℕ) (source : List Met) → IsUpTo n (read_inner n source)
unfolding read_inner
read_inner-IsUpTo n [] = omega arith
read_inner-IsUpTo n (interrupted ∷ source) = tt
read_inner-IsUpTo n (broken ∷ source) = tt
read_inner-IsUpTo n (bytes chunk ∷ source) = elim (Bool-cases (leb (length chunk) n)) [
  | inl whole ↦ rw (IsUpTo, whole) (ground arith)
  | inr part ↦ rw (IsUpTo, part) (omega (arith, length-take n chunk))
]

-- Just as many bytes as were wanted, taken off the source.
abbrev pub TookAll : ℕ → List Met → Result ReadError (List ℕ × List Met) → Type 0
TookAll n source (err e) = Unit
TookAll n source (ok (xs, rest)) = (length xs ≡ n) × (bytes_of source ≡ xs ++ bytes_of rest)

prefixed-TookAll :
    (n k : ℕ) (chunk : List ℕ) (source : List Met) (r : Result ReadError (List ℕ × List Met))
    → length chunk + k ≡ n
    → TookAll k source r
    → TookAll n (bytes chunk ∷ source) (prefixed chunk r)
unfolding bytes_of
prefixed-TookAll n k chunk source (err e) h t = tt
prefixed-TookAll n k chunk source (ok (xs, rest)) h t = (
  omega (arith, length-append chunk xs, t.0),
  ap (λ ys. chunk ++ ys) t.1 ∙ sym (append_assoc chunk xs (bytes_of rest)),
)

pub read_exact-TookAll : (n : ℕ) (source : List Met) → TookAll n source (read_exact n source)
unfolding read_exact bytes_of
read_exact-TookAll zero source = (refl, refl)
read_exact-TookAll (suc n) [] = tt
read_exact-TookAll (suc n) (bytes [] ∷ source) = tt
read_exact-TookAll (suc n) (interrupted ∷ source) = read_exact-TookAll (suc n) source
read_exact-TookAll (suc n) (broken ∷ source) = tt
read_exact-TookAll (suc n) (bytes (b ∷ chunk) ∷ source) = elim (Bool-cases (leb (length chunk) n)) [
  | inl whole ↦
      rw (TookAll, whole)
        (prefixed-TookAll (suc n) (n - length chunk) (b ∷ chunk) source
          (read_exact (n - length chunk) source) (ground arith)
          (read_exact-TookAll (n - length chunk) source))
  | inr part ↦
      rw (TookAll, part)
        (
          ground (arith, length-take (suc n) (b ∷ chunk)),
          ap (λ xs. xs ++ bytes_of source) (sym (take-append-drop (suc n) (b ∷ chunk)))
              ∙ append_assoc (take (suc n) (b ∷ chunk)) (drop (suc n) (b ∷ chunk))
                  (bytes_of source),
        )
]

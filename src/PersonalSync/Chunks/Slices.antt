-- ===== src/PersonalSync/Chunks/Slices.antt =====
-- What `slice::chunks` and an indexed range give, for src/personal_sync/state.rs.
use mathlib.Core.Path.{fun_ext}
use rockcast.Prelude.{
  ℕ, zero, suc, ◌≤◌, ◌<◌, ◌≡◌, refl, ap, ◌∙◌, some, List, [], ◌∷◌, ◌++◌, map, length, take, drop,
  get_elem?, take-append-drop, length-drop, length-take, All, arith,
}
use rockcast.PersonalSync.Chunks.{chunks_loop, chunks, map_range, get_or_empty}

abbrev pub concat {ℓ} : {A : Type ℓ} → List (List A) → List A
concat [] = []
concat (xs ∷ rest) = xs ++ concat rest

module _ {ℓ} {A : Type ℓ} where
  concat-chunks_loop :
      (fuel n : ℕ) (xs : List A) → 0 < n → length xs ≤ fuel → concat (chunks_loop fuel n xs) ≡ xs
  unfolding chunks_loop
  concat-chunks_loop zero n [] hn h = refl
  concat-chunks_loop zero n (x ∷ xs) hn h = absurd (omega arith)
  concat-chunks_loop (suc fuel) n [] hn h = refl
  concat-chunks_loop (suc fuel) n (x ∷ xs) hn h =
      ap (λ t. take n (x ∷ xs) ++ t)
        (concat-chunks_loop fuel n (drop n (x ∷ xs)) hn (omega (arith, length-drop n (x ∷ xs))))
      ∙ take-append-drop n (x ∷ xs)

  -- The pieces make up the slice, in order.
  pub concat-chunks : (n : ℕ) (xs : List A) → 0 < n → concat (chunks n xs) ≡ xs
  unfolding chunks
  concat-chunks n xs h = concat-chunks_loop (length xs) n xs h (omega arith)

  -- Every piece has 1 to `n` elements.
  abbrev pub IsPiece : ℕ → List A → Type 0
  IsPiece n xs = (0 < length xs) × (length xs ≤ n)

  chunks_loop-IsPiece : (fuel n : ℕ) (xs : List A) → 0 < n → All (IsPiece n) (chunks_loop fuel n xs)
  unfolding chunks_loop
  chunks_loop-IsPiece zero n xs h = tt
  chunks_loop-IsPiece (suc fuel) n [] h = tt
  chunks_loop-IsPiece (suc fuel) n (x ∷ xs) h = (
    (omega (arith, length-take n (x ∷ xs)), omega (arith, length-take n (x ∷ xs))),
    chunks_loop-IsPiece fuel n (drop n (x ∷ xs)) h,
  )

  pub chunks-IsPiece : (n : ℕ) (xs : List A) → 0 < n → All (IsPiece n) (chunks n xs)
  unfolding chunks
  chunks-IsPiece n xs h = chunks_loop-IsPiece (length xs) n xs h

  -- Asking for every piece by its index, and for more, gives the pieces.
  pub concat-map_range :
      (xss : List (List A)) (n : ℕ)
      → length xss ≤ n
      → concat (map_range (get_or_empty xss) n) ≡ concat xss
  unfolding map_range get_or_empty
  concat-map_range [] zero h = refl
  concat-map_range [] (suc n) h = concat-map_range [] n (omega arith)
  concat-map_range (xs ∷ xss) zero h = absurd (omega arith)
  concat-map_range (xs ∷ xss) (suc n) h = ap (λ t. xs ++ t) (concat-map_range xss n (omega arith))

  -- A property of every index is one of every element.
  pub All-map_range {κ} :
      (P : A → Type κ) (f : ℕ → A) (n : ℕ) → ((i : ℕ) → i < n → P (f i)) → All P (map_range f n)
  unfolding map_range
  All-map_range P f zero h = tt
  All-map_range P f (suc n) h =
      (h 0 (omega arith), All-map_range P (λ i. f (suc i)) n (λ i hi. h (suc i) (omega arith)))

  -- The element at an index is the function's value there.
  pub get_elem?-map_range :
      (f : ℕ → A) (n i : ℕ) (a : A) → get_elem? (map_range f n) i ≡ some a → a ≡ f i
  unfolding map_range
  get_elem?-map_range f zero i a e = cc
  get_elem?-map_range f (suc n) zero a e = cc
  get_elem?-map_range f (suc n) (suc i) a e = get_elem?-map_range (λ k. f (suc k)) n i a e

  get_piece-le :
      (n : ℕ) (xss : List (List A)) (i : ℕ) → All (IsPiece n) xss → length (get_or_empty xss i) ≤ n
  unfolding get_or_empty
  get_piece-le n [] i h = omega arith
  get_piece-le n (xs ∷ xss) zero h = h.0.1
  get_piece-le n (xs ∷ xss) (suc i) h = get_piece-le n xss i h.1

  get_piece-pos :
      (n : ℕ) (xss : List (List A)) (i : ℕ)
      → All (IsPiece n) xss
      → i < length xss
      → 0 < length (get_or_empty xss i)
  unfolding get_or_empty
  get_piece-pos n [] i h k = absurd (omega arith)
  get_piece-pos n (xs ∷ xss) zero h k = h.0.0
  get_piece-pos n (xs ∷ xss) (suc i) h k = get_piece-pos n xss i h.1 (omega arith)

  -- The piece at an index, or the empty list behind the last one.
  pub chunk_at :
      (n : ℕ) (xs : List A) (i : ℕ)
      → 0 < n
      → (length (get_or_empty (chunks n xs) i) ≤ n)
        × (i < length (chunks n xs) → 0 < length (get_or_empty (chunks n xs) i))
  chunk_at n xs i h = (
    get_piece-le n (chunks n xs) i (chunks-IsPiece n xs h),
    get_piece-pos n (chunks n xs) i (chunks-IsPiece n xs h),
  )

pub map-map_range {ℓ κ} :
    {A : Type ℓ} {B : Type κ} (g : A → B) (f : ℕ → A) (n : ℕ)
    → map g (map_range f n) ≡ map_range (λ i. g (f i)) n
unfolding map_range
map-map_range g f zero = refl
map-map_range g f (suc n) = ap (λ t. g (f 0) ∷ t) (map-map_range g (λ i. f (suc i)) n)

pub map_range-ext {ℓ} :
    {A : Type ℓ} (f g : ℕ → A) (n : ℕ) → ((i : ℕ) → f i ≡ g i) → map_range f n ≡ map_range g n
map_range-ext f g n h = ap (λ k. map_range k n) (fun_ext h)

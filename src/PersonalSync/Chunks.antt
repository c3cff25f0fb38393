-- ===== src/PersonalSync/Chunks.antt =====
-- `collection_chunks` and `chunk_requests` of src/personal_sync/state.rs: a pending push, cut into
-- requests that the server accepts.
pub mod Slices
pub mod Complete
mod Tests
use rockcast.Prelude.{
  ℕ, zero, suc, ◌+◌, max, Bool, true, false, not, ◌&&◌, ◌||◌, Option, none, some, List, [], ◌∷◌,
  length, take, drop, get_elem?, ltb, ◌==◌, if◌then◌else◌,
}
use rockcast.PersonalSync.{Changes, RecordDelete, FavouritePush, HistoryPush, SyncRequest}

abbrev pub batch_limit : ℕ
batch_limit = 300

abbrev pub is_empty {ℓ} : {A : Type ℓ} → List A → Bool
is_empty [] = true
is_empty (x ∷ xs) = false

-- `slice::chunks`: consecutive pieces of `n`, the last one maybe shorter. Each takes an element at
-- least, so as many rounds as there are elements are enough.
pub chunks_loop {ℓ} : {A : Type ℓ} → ℕ → ℕ → List A → List (List A)
chunks_loop zero n xs = []
chunks_loop (suc fuel) n [] = []
chunks_loop (suc fuel) n (x ∷ xs) = take n (x ∷ xs) ∷ chunks_loop fuel n (drop n (x ∷ xs))

pub chunks {ℓ} : {A : Type ℓ} → ℕ → List A → List (List A)
chunks n xs = chunks_loop (length xs) n xs

-- `(0..n).map(f).collect()`.
pub map_range {ℓ} : {A : Type ℓ} → (ℕ → A) → ℕ → List A
map_range f zero = []
map_range f (suc n) = f 0 ∷ map_range (λ i. f (suc i)) n

-- `get(index).cloned().unwrap_or_default()`.
pub get_or_empty {ℓ} : {A : Type ℓ} → List (List A) → ℕ → List A
get_or_empty [] i = []
get_or_empty (xs ∷ rest) zero = xs
get_or_empty (xs ∷ rest) (suc i) = get_or_empty rest i

pub collection_chunks {ℓ} : {U : Type ℓ} → List U → List RecordDelete → List (Changes U)
collection_chunks upserts deletes =
    if is_empty upserts && is_empty deletes
    then []
    else (let upsert_chunks = chunks batch_limit upserts in
        let delete_chunks = chunks batch_limit deletes in
        map_range
          (λ i. record {
            upserts = get_or_empty upsert_chunks i;
            deletes = get_or_empty delete_chunks i;
          })
          (max (length upsert_chunks) (length delete_chunks)))

pub keep_changes {ℓ} : {U : Type ℓ} → Option (Changes U) → Option (Changes U)
keep_changes none = none
keep_changes (some c) =
    if not (is_empty c.upserts) || not (is_empty c.deletes) then some c else none

pub chunk_requests :
    {J : Type 0} → Changes FavouritePush → Changes (HistoryPush J) → ℕ → List (SyncRequest J)
chunk_requests favourites history since_revision =
    let favourite_parts = collection_chunks favourites.upserts favourites.deletes in
    let history_parts = collection_chunks history.upserts history.deletes in
    map_range
      (λ i. record {
        since_revision = if i == 0 && ltb 0 since_revision then some since_revision else none;
        favourites = keep_changes (get_elem? favourite_parts i);
        history = keep_changes (get_elem? history_parts i);
      })
      (max (length favourite_parts) (length history_parts))

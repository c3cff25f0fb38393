-- ===== src/PersonalSync/Chunks/Complete.antt =====
-- What the requests of src/personal_sync/state.rs hold: contents, limits and cursor.
use rockcast.Prelude.{
  ℕ, zero, suc, ◌+◌, ◌≤◌, ◌<◌, ◌≡◌, refl, ap, ◌∙◌, max, ◌&&◌, Option, none, some, List, [], ◌∷◌,
  map, length, get_elem?, All, ltb, ◌==◌, if◌then◌else◌, arith, length-map,
}
use rockcast.PersonalSync.{Changes, RecordDelete, FavouritePush, HistoryPush, SyncRequest}
use rockcast.PersonalSync.Chunks.{
  batch_limit, chunks, chunks_loop, map_range, get_or_empty, collection_chunks, keep_changes,
  chunk_requests,
}
use rockcast.PersonalSync.Chunks.Slices.{
  concat, concat-chunks, concat-map_range, All-map_range, get_elem?-map_range, chunk_at,
  map-map_range, map_range-ext,
}

-- A part that one request may carry: at most 300 upserts and 300 deletes, and not nothing.
abbrev pub IsLegal {ℓ} : {U : Type ℓ} → Changes U → Type 0
IsLegal c =
    (length c.upserts ≤ batch_limit)
    × (length c.deletes ≤ batch_limit)
    × (0 < length c.upserts + length c.deletes)

one_of : (i a b x y : ℕ) → i < max a b → (i < a → 0 < x) → (i < b → 0 < y) → 0 < x + y
one_of i a b x y h hx hy = grind arith

module _ {ℓ} {U : Type ℓ} where
  part_at : List U → List RecordDelete → ℕ → Changes U
  part_at us ds i = record {
    upserts = get_or_empty (chunks batch_limit us) i;
    deletes = get_or_empty (chunks batch_limit ds) i;
  }

  rounds : List U → List RecordDelete → ℕ
  rounds us ds = max (length (chunks batch_limit us)) (length (chunks batch_limit ds))

  collection_chunks-parts :
      (us : List U) (ds : List RecordDelete)
      → collection_chunks us ds ≡ map_range (part_at us ds) (rounds us ds)
  unfolding collection_chunks part_at rounds
  collection_chunks-parts [] [] = unfold chunks chunks_loop map_range in refl
  collection_chunks-parts [] (d ∷ ds) = refl
  collection_chunks-parts (u ∷ us) ds = refl

  -- The parts hold every upsert and every delete once, in order.
  pub collection_chunks_complete :
      (us : List U) (ds : List RecordDelete)
      → (concat (map (λ c. c.upserts) (collection_chunks us ds)) ≡ us)
        × (concat (map (λ c. c.deletes) (collection_chunks us ds)) ≡ ds)
  unfolding part_at rounds
  collection_chunks_complete us ds = (
    rw (collection_chunks-parts us ds, map-map_range)
        (concat-map_range (chunks batch_limit us) _ (omega arith)
          ∙ concat-chunks batch_limit us (omega arith)),
    rw (collection_chunks-parts us ds, map-map_range)
        (concat-map_range (chunks batch_limit ds) _ (omega arith)
          ∙ concat-chunks batch_limit ds (omega arith)),
  )

  collection_chunks-IsLegal :
      (us : List U) (ds : List RecordDelete) → All IsLegal (collection_chunks us ds)
  unfolding part_at rounds
  collection_chunks-IsLegal us ds = rw (collection_chunks-parts us ds) (
      All-map_range IsLegal (part_at us ds) (rounds us ds) (λ i h.
        let u = chunk_at batch_limit us i (omega arith) in
        let d = chunk_at batch_limit ds i (omega arith) in (u.0, d.0, one_of i _ _ _ _ h u.1 d.1)))

-- What a request carries of one collection.
abbrev pub upserts_of {ℓ} : {U : Type ℓ} → Option (Changes U) → List U
upserts_of none = []
upserts_of (some c) = c.upserts

abbrev pub deletes_of {ℓ} : {U : Type ℓ} → Option (Changes U) → List RecordDelete
deletes_of none = []
deletes_of (some c) = c.deletes

abbrev pub CarriesLegal {ℓ} : {U : Type ℓ} → Option (Changes U) → Type 0
CarriesLegal none = Unit
CarriesLegal (some c) = IsLegal c

module _ {ℓ} {U : Type ℓ} where
  -- Leaving out a part with nothing in it loses nothing.
  keep_changes-upserts : (o : Option (Changes U)) → upserts_of (keep_changes o) ≡ upserts_of o
  unfolding keep_changes
  keep_changes-upserts none = refl
  keep_changes-upserts (some c) = go c.upserts c.deletes
    where
      go :
          (us : List U) (ds : List RecordDelete)
          → upserts_of (keep_changes (some (record { upserts = us; deletes = ds }))) ≡ us
      go [] [] = refl
      go [] (d ∷ ds) = refl
      go (u ∷ us) ds = refl

  keep_changes-deletes : (o : Option (Changes U)) → deletes_of (keep_changes o) ≡ deletes_of o
  unfolding keep_changes
  keep_changes-deletes none = refl
  keep_changes-deletes (some c) = go c.upserts c.deletes
    where
      go :
          (us : List U) (ds : List RecordDelete)
          → deletes_of (keep_changes (some (record { upserts = us; deletes = ds }))) ≡ ds
      go [] [] = refl
      go [] (d ∷ ds) = refl
      go (u ∷ us) ds = refl

  get-upserts :
      (parts : List (Changes U)) (i : ℕ)
      → upserts_of (get_elem? parts i) ≡ get_or_empty (map (λ c. c.upserts) parts) i
  unfolding get_or_empty
  get-upserts [] i = refl
  get-upserts (c ∷ parts) zero = refl
  get-upserts (c ∷ parts) (suc i) = get-upserts parts i

  get-deletes :
      (parts : List (Changes U)) (i : ℕ)
      → deletes_of (get_elem? parts i) ≡ get_or_empty (map (λ c. c.deletes) parts) i
  unfolding get_or_empty
  get-deletes [] i = refl
  get-deletes (c ∷ parts) zero = refl
  get-deletes (c ∷ parts) (suc i) = get-deletes parts i

  -- The same for every index of a range that reaches the last part.
  range_upserts :
      (us : List U) (ds : List RecordDelete) (n : ℕ)
      → length (collection_chunks us ds) ≤ n
      → concat
          (map_range (λ i. upserts_of (keep_changes (get_elem? (collection_chunks us ds) i))) n)
        ≡ us
  range_upserts us ds n h =
      let parts : List (Changes U) = collection_chunks us ds in
      ap concat (
        map_range-ext _ (get_or_empty (map (λ c. c.upserts) parts)) n
          (λ i. keep_changes-upserts (get_elem? parts i) ∙ get-upserts parts i))
      ∙ concat-map_range (map (λ c. c.upserts) parts) n
          (omega (arith, length-map (λ c. c.upserts) parts))
      ∙ (collection_chunks_complete us ds).0

  range_deletes :
      (us : List U) (ds : List RecordDelete) (n : ℕ)
      → length (collection_chunks us ds) ≤ n
      → concat
          (map_range (λ i. deletes_of (keep_changes (get_elem? (collection_chunks us ds) i))) n)
        ≡ ds
  range_deletes us ds n h =
      let parts : List (Changes U) = collection_chunks us ds in
      ap concat (
        map_range-ext _ (get_or_empty (map (λ c. c.deletes) parts)) n
          (λ i. keep_changes-deletes (get_elem? parts i) ∙ get-deletes parts i))
      ∙ concat-map_range (map (λ c. c.deletes) parts) n
          (omega (arith, length-map (λ c. c.deletes) parts))
      ∙ (collection_chunks_complete us ds).1

  get-IsLegal :
      (parts : List (Changes U)) (i : ℕ)
      → All IsLegal parts
      → CarriesLegal (keep_changes (get_elem? parts i))
  unfolding keep_changes
  get-IsLegal [] i h = tt
  get-IsLegal (c ∷ parts) zero h = kept_lem c h.0
    where
      kept_lem : (d : Changes U) → IsLegal d → CarriesLegal (keep_changes (some d))
      kept_lem d l = ground arith
  get-IsLegal (c ∷ parts) (suc i) h = get-IsLegal parts i h.1

module _ {J : Type 0} (fs : Changes FavouritePush) (hs : Changes (HistoryPush J)) (since : ℕ) where
  -- The requests together carry every pending upsert and delete of both collections exactly once, in
  -- the order of the push.
  pub chunk_requests_complete :
      let requests = chunk_requests fs hs since in
      (concat (map (λ r. upserts_of r.favourites) requests) ≡ fs.upserts)
      × (concat (map (λ r. deletes_of r.favourites) requests) ≡ fs.deletes)
      × (concat (map (λ r. upserts_of r.history) requests) ≡ hs.upserts)
      × (concat (map (λ r. deletes_of r.history) requests) ≡ hs.deletes)
  unfolding chunk_requests
  chunk_requests_complete = (
    rw map-map_range (range_upserts fs.upserts fs.deletes _ (omega arith)),
    rw map-map_range (range_deletes fs.upserts fs.deletes _ (omega arith)),
    rw map-map_range (range_upserts hs.upserts hs.deletes _ (omega arith)),
    rw map-map_range (range_deletes hs.upserts hs.deletes _ (omega arith)),
  )

  -- Each request is within the server's limits in both collections, and a collection that it names
  -- is not empty.
  pub chunk_requests-IsLegal :
      All (λ r. CarriesLegal r.favourites × CarriesLegal r.history) (chunk_requests fs hs since)
  unfolding chunk_requests
  chunk_requests-IsLegal = All-map_range _ _ _ (λ i h. (
    get-IsLegal _ i (collection_chunks-IsLegal fs.upserts fs.deletes),
    get-IsLegal _ i (collection_chunks-IsLegal hs.upserts hs.deletes),
  ))

  -- The cursor rides on the first request only, and only if the device has one.
  pub chunk_requests-since :
      (i : ℕ) (r : SyncRequest J)
      → get_elem? (chunk_requests fs hs since) i ≡ some r
      → r.since_revision ≡ (if i == 0 && ltb 0 since then some since else none)
  unfolding chunk_requests
  chunk_requests-since i r e = ap (λ q. q.since_revision) (get_elem?-map_range _ _ i r e)

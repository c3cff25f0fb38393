-- ===== src/Prelude/Maps.antt =====
-- A hash map keyed by numbers, as the list of its entries: the first entry of a key counts.
use mathlib.Core.Path.{◌≡◌, refl, ap}
use mathlib.Core.Bool.{Bool, true, false, ◌||◌, ◌&&◌, not}
use mathlib.Core.Option.{Option, none, some}
use mathlib.Core.List.{List, [], ◌∷◌, ◌++◌}
use Prim.Native.Nat.{ℕ, ◌+◌, ◌<◌, suc}
use native.Mathlib.Omega.{arith}
use rockcast.Prelude.Tests.{◌==◌, if◌then◌else◌}
use rockcast.Prelude.Lists.{length}

unfoldable pub mem : ℕ → List ℕ → Bool
mem id [] = false
mem id (k ∷ ids) = k == id || mem id ids

unfoldable pub count : ℕ → List ℕ → ℕ
count id [] = 0
count id (k ∷ ids) = (if k == id then 1 else 0) + count id ids

pub count-append : (id : ℕ) (xs ys : List ℕ) → count id (xs ++ ys) ≡ count id xs + count id ys
unfolding count
count-append id [] ys = omega arith
count-append id (x ∷ xs) ys = omega (arith, count-append id xs ys)

pub count-mem : (id : ℕ) (ids : List ℕ) → mem id ids ≡ true → 0 < count id ids
unfolding count mem
count-mem id [] h = cc
count-mem id (k ∷ ids) h = ground (arith, count-mem id ids)

pub count_absent : (id : ℕ) (ids : List ℕ) → mem id ids ≡ false → count id ids ≡ 0
unfolding count mem
count_absent id [] h = refl
count_absent id (k ∷ ids) h = ground (arith, count_absent id ids)

pub mem_absent : (id : ℕ) (ids : List ℕ) → count id ids ≡ 0 → mem id ids ≡ false
unfolding count mem
mem_absent id [] h = refl
mem_absent id (k ∷ ids) h = ground (arith, mem_absent id ids)

pub mem-append : (id : ℕ) (xs ys : List ℕ) → mem id (xs ++ ys) ≡ (mem id xs || mem id ys)
unfolding mem
mem-append id [] ys = refl
mem-append id (x ∷ xs) ys = ground (arith, mem-append id xs ys)

module _ {ℓ} {R : Type ℓ} where
  unfoldable pub lookup : ℕ → List (ℕ × R) → Option R
  lookup id [] = none
  lookup id ((key, r) ∷ m) = if key == id then some r else lookup id m

  unfoldable pub insert : ℕ → R → List (ℕ × R) → List (ℕ × R)
  insert id r [] = (id, r) ∷ []
  insert id r ((key, old) ∷ m) = if key == id then (id, r) ∷ m else (key, old) ∷ insert id r m

  unfoldable pub remove : ℕ → List (ℕ × R) → List (ℕ × R)
  remove id [] = []
  remove id ((key, r) ∷ m) = if key == id then remove id m else (key, r) ∷ remove id m

  unfoldable pub keys : List (ℕ × R) → List ℕ
  keys [] = []
  keys ((key, r) ∷ m) = key ∷ keys m

  pub lookup-insert :
      (k j : ℕ) (r : R) (m : List (ℕ × R))
      → lookup j (insert k r m) ≡ (if k == j then some r else lookup j m)
  unfolding lookup insert
  lookup-insert k j r [] = refl
  lookup-insert k j r ((i, w) ∷ m) = ground (arith, lookup-insert k j r m)

  pub lookup-remove :
      (k j : ℕ) (m : List (ℕ × R)) → lookup j (remove k m) ≡ (if k == j then none else lookup j m)
  unfolding lookup remove
  lookup-remove k j [] = ground arith
  lookup-remove k j ((i, w) ∷ m) = ground (arith, lookup-remove k j m)

  -- The keys of a map, through its operations.
  pub keys-insert_new :
      (id : ℕ) (r : R) (m : List (ℕ × R))
      → mem id (keys m) ≡ false
      → keys (insert id r m) ≡ keys m ++ (id ∷ [])
  unfolding keys insert mem
  keys-insert_new id r [] h = refl
  keys-insert_new id r ((k, w) ∷ m) h = ground (arith, keys-insert_new id r m)

  pub keys-insert_old :
      (id : ℕ) (r : R) (m : List (ℕ × R)) → mem id (keys m) ≡ true → keys (insert id r m) ≡ keys m
  unfolding keys insert mem
  keys-insert_old id r [] h = cc
  keys-insert_old id r ((k, w) ∷ m) h = ground (arith, keys-insert_old id r m)

  pub remove_absent : (id : ℕ) (m : List (ℕ × R)) → mem id (keys m) ≡ false → remove id m ≡ m
  unfolding keys remove mem
  remove_absent id [] h = refl
  remove_absent id ((k, w) ∷ m) h = ground (arith, remove_absent id m)

  pub mem-keys-lookup : (id : ℕ) (m : List (ℕ × R)) → lookup id m ≡ none → mem id (keys m) ≡ false
  unfolding keys lookup mem
  mem-keys-lookup id [] h = refl
  mem-keys-lookup id ((k, w) ∷ m) h = ground (arith, mem-keys-lookup id m)

  pub count-keys-remove :
      (id k : ℕ) (m : List (ℕ × R))
      → count k (keys (remove id m)) ≡ (if id == k then 0 else count k (keys m))
  unfolding keys remove count
  count-keys-remove id k [] = ground arith
  count-keys-remove id k ((j, w) ∷ m) = ground (arith, count-keys-remove id k m)

  pub length-keys : (m : List (ℕ × R)) → length (keys m) ≡ length m
  unfolding keys
  length-keys [] = refl
  length-keys ((k, w) ∷ m) = ap suc (length-keys m)

  pub length-insert_new :
      (id : ℕ) (r : R) (m : List (ℕ × R))
      → mem id (keys m) ≡ false
      → length (insert id r m) ≡ suc (length m)
  unfolding keys insert mem
  length-insert_new id r [] h = refl
  length-insert_new id r ((k, w) ∷ m) h = ground (arith, length-insert_new id r m)

  pub length-remove :
      (id : ℕ) (m : List (ℕ × R)) → length (remove id m) + count id (keys m) ≡ length m
  unfolding keys remove count
  length-remove id [] = omega arith
  length-remove id ((k, w) ∷ m) = ground (arith, length-remove id m)

  pub mem-keys-lookup-some :
      (id : ℕ) (r : R) (m : List (ℕ × R)) → lookup id m ≡ some r → mem id (keys m) ≡ true
  unfolding keys lookup mem
  mem-keys-lookup-some id r [] h = cc
  mem-keys-lookup-some id r ((k, w) ∷ m) h = ground (arith, mem-keys-lookup-some id r m)

  pub mem-keys-insert :
      (id k : ℕ) (r : R) (m : List (ℕ × R))
      → mem k (keys (insert id r m)) ≡ (id == k || mem k (keys m))
  unfolding keys insert mem
  mem-keys-insert id k r [] = ground arith
  mem-keys-insert id k r ((j, w) ∷ m) = ground (arith, mem-keys-insert id k r m)

  pub mem-keys-remove :
      (id k : ℕ) (m : List (ℕ × R)) → mem k (keys (remove id m)) ≡ (not (id == k) && mem k (keys m))
  unfolding keys remove mem
  mem-keys-remove id k [] = ground arith
  mem-keys-remove id k ((j, w) ∷ m) = ground (arith, mem-keys-remove id k m)

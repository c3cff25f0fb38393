-- ===== src/Prelude/Distinct.antt =====
-- A loop that inserts each text into a hash set, and what it finds of the list as a whole.
use Prim.Native.String.{String}
use text.Mathlib.Text.{◌==◌ as str_eq}
use text.Mathlib.TextEquality.{eq_iff}
use mathlib.Core.Path.{◌≡◌, refl}
use mathlib.Core.Bool.{false}
use mathlib.Core.List.{List, [], ◌∷◌}
use native.Mathlib.Omega.{arith}
use rockcast.Prelude.Lists.{All, All-map}
use rockcast.Prelude.TextMaps.{mem_text}

-- No text stands twice in the list.
pub data Distinct : List String → Type 0 where
  none_left : Distinct []
  one_more :
      (x : String) (xs : List String) → mem_text x xs ≡ false → Distinct xs → Distinct (x ∷ xs)

-- Every insertion into the set adds something.
pub data Fresh : List String → List String → Type 0 where
  all_in : (seen : List String) → Fresh seen []
  added :
      (x : String) (xs seen : List String)
      → mem_text x seen ≡ false
      → Fresh (x ∷ seen) xs
      → Fresh seen (x ∷ xs)

abbrev pub Outside : List String → List String → Type 0
Outside seen xs = All (λ (x : String). mem_text x seen ≡ false) xs

mem_text-false :
    (x k : String) (keys : List String)
    → mem_text x (k ∷ keys) ≡ false
    → (str_eq k x ≡ false) × (mem_text x keys ≡ false)
unfolding mem_text
mem_text-false x k keys h = (ground arith, ground arith)

str_eq_comm : (x y : String) → str_eq x y ≡ str_eq y x
str_eq_comm x y = ground (arith, eq_iff x y, eq_iff y x)

Outside-absent :
    (x : String) (seen xs : List String) → Outside (x ∷ seen) xs → mem_text x xs ≡ false
unfolding mem_text
Outside-absent x seen [] h = refl
Outside-absent x seen (y ∷ xs) h = ground (arith, str_eq_comm x y, Outside-absent x seen xs h.1)

Outside-cons :
    (x : String) (seen xs : List String)
    → mem_text x xs ≡ false
    → Outside seen xs
    → Outside (x ∷ seen) xs
unfolding mem_text
Outside-cons x seen [] absent h = tt
Outside-cons x seen (y ∷ xs) absent h =
    (ground (arith, str_eq_comm x y), Outside-cons x seen xs (ground arith) h.1)

pub Fresh-Distinct : (seen xs : List String) → Fresh seen xs → Distinct xs × Outside seen xs
unfolding mem_text
Fresh-Distinct seen [] (all_in _) = (none_left, tt)
Fresh-Distinct seen (x ∷ xs) (added _ _ _ new rest) =
    let (d, outside) = Fresh-Distinct (x ∷ seen) xs rest in
    (
      one_more x xs (Outside-absent x seen xs outside) d,
      (new, All-map xs (λ y h. ground arith) outside),
    )

pub Distinct-Fresh : (seen xs : List String) → Distinct xs → Outside seen xs → Fresh seen xs
Distinct-Fresh seen [] none_left h = all_in seen
Distinct-Fresh seen (x ∷ xs) (one_more _ _ absent d) h =
    added x xs seen h.0 (Distinct-Fresh (x ∷ seen) xs d (Outside-cons x seen xs absent h.1))

pub nothing_seen : (xs : List String) → Outside [] xs
unfolding mem_text
nothing_seen [] = tt
nothing_seen (x ∷ xs) = (refl, nothing_seen xs)

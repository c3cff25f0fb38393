-- ===== src/Prelude/TextMaps.antt =====
-- Hash sets and hash maps keyed by texts, as lists: the first entry of a key counts.
use Prim.Native.String.{String}
use text.Mathlib.Text.{◌==◌ as str_eq}
use mathlib.Core.Bool.{Bool, false, ◌||◌}
use mathlib.Core.Option.{Option, none, some}
use mathlib.Core.List.{List, [], ◌∷◌}
use rockcast.Prelude.Tests.{if◌then◌else◌}

unfoldable pub mem_text : String → List String → Bool
mem_text x [] = false
mem_text x (k ∷ keys) = str_eq k x || mem_text x keys

module _ {ℓ} {V : Type ℓ} where
  unfoldable pub lookup_text : String → List (String × V) → Option V
  lookup_text x [] = none
  lookup_text x ((k, v) ∷ m) = if str_eq k x then some v else lookup_text x m

  -- `entry(x).or_insert(v)`
  unfoldable pub or_insert : String → V → List (String × V) → List (String × V)
  or_insert x v [] = (x, v) ∷ []
  or_insert x v ((k, w) ∷ m) =
      let rest = or_insert x v m in if str_eq k x then (k, w) ∷ m else (k, w) ∷ rest

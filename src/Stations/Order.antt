-- ===== src/Stations/Order.antt =====
-- `order_stations` of src/stations/catalog.rs: the order in which the catalogue is shown.
pub mod Laws
mod Tests
use Prim.Native.Char.{code}
use Prim.Native.String.{String, [] as empty, ◌∷◌ as ◌+c◌}
use text.Mathlib.Text.{starts_with}
use rockcast.Prelude.{
  Bool, true, false, not, ◌||◌, ◌&&◌, List, [], ◌∷◌, ◌++◌, ltb, ◌==◌, if◌then◌else◌,
}
use rockcast.Prelude.Texts.{contains}
use rockcast.Prelude.Sorting.{sort_by}
use rockcast.Stations.Catalog.{Station}

abbrev pub metal_tags : List String
metal_tags = "metal" ∷ "hard rock" ∷ "punk" ∷ "thrash" ∷ "death" ∷ "doom" ∷ "industrial" ∷ []

pub contains_any : List String → String → Bool
contains_any [] s = false
contains_any (tag ∷ tags) s = contains s tag || contains_any tags s

-- The order of texts is that of their characters' code points.
pub text_leb : String → String → Bool
text_leb empty t = true
text_leb (c +c s) empty = false
text_leb (c +c s) (d +c t) =
    let rest = text_leb s t in ltb (code c) (code d) || ((code c == code d) && rest)

pub is_https : Station → Bool
is_https s = starts_with s.url "https://"

-- `partition`: the elements that pass the test, and the others.
pub partition {ℓ} : {A : Type ℓ} → (A → Bool) → List A → List A × List A
partition test [] = ([], [])
partition test (x ∷ xs) =
    let rest = partition test xs in if test x then (x ∷ rest.0, rest.1) else (rest.0, x ∷ rest.1)

-- `to_lowercase` of Rust's texts is the parameter.
module _ (to_lowercase : String → String) where
  pub is_metal : Station → Bool
  is_metal s = contains_any metal_tags (to_lowercase s.tags)

  -- The key of the first does not exceed that of the second: the keys are pairs of a Boolean and a text.
  pub key_leb : Station → Station → Bool
  key_leb s t =
      let named = text_leb (to_lowercase s.name) (to_lowercase t.name) in
      if is_https s then not (is_https t) || named else not (is_https t) && named

  pub order_stations : List Station → List Station
  order_stations stations =
      let parts = partition is_metal stations in sort_by key_leb parts.0 ++ sort_by key_leb parts.1

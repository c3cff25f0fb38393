-- ===== src/Prelude/Sorting.antt =====
-- The stable sort of Rust's slices, by a test that its first argument need not stand after its second.
use mathlib.Core.Bool.{Bool, true, false}
use mathlib.Core.Logic.{inl, inr}
use mathlib.Core.List.{List, [], ◌∷◌, ◌++◌, Perm}
use mathlib.Core.List.Perm
use mathlib.Core.Path.{◌≡◌}
use rockcast.Prelude.Tests.{if◌then◌else◌, Bool-cases}
use rockcast.Prelude.Lists.{All, All-map, All-append}

module _ {ℓ} {A : Type ℓ} (precedes : A → A → Bool) where
  unfoldable pub put : A → List A → List A
  put x [] = x ∷ []
  put x (y ∷ ys) = let rest = put x ys in if precedes x y then x ∷ y ∷ ys else y ∷ rest

  unfoldable pub sort_by : List A → List A
  sort_by [] = []
  sort_by (x ∷ xs) = put x (sort_by xs)

  module _ {κ} (P : A → Type κ) where
    put-All : (x : A) (xs : List A) → P x → All P xs → All P (put x xs)
    unfolding put
    put-All x [] p h = (p, tt)
    put-All x (y ∷ ys) p h = elim (Bool-cases (precedes x y)) [
      | inl before ↦ rw (All, before) (p, h)
      | inr after ↦ rw (All, after) (h.0, put-All x ys p h.1)
    ]

    pub sort_by-All : (xs : List A) → All P xs → All P (sort_by xs)
    unfolding sort_by
    sort_by-All [] h = tt
    sort_by-All (x ∷ xs) h = put-All x (sort_by xs) h.0 (sort_by-All xs h.1)

  put-Perm : (x : A) (xs : List A) → Perm (put x xs) (x ∷ xs)
  unfolding put
  put-Perm x [] = Perm.rfl
  put-Perm x (y ∷ ys) = elim (Bool-cases (precedes x y)) [
    | inl before ↦ rw (put, before) Perm.rfl
    | inr after ↦ rw (put, after) (Perm.trans (Perm.cons y (put-Perm x ys)) (Perm.swap x y ys))
  ]

  pub sort_by-Perm : (xs : List A) → Perm (sort_by xs) xs
  unfolding sort_by
  sort_by-Perm [] = Perm.rfl
  sort_by-Perm (x ∷ xs) = Perm.trans (put-Perm x (sort_by xs)) (Perm.cons x (sort_by-Perm xs))

-- Every element is in the relation with each that stands after it.
abbrev pub Ordered {ℓ κ} : {A : Type ℓ} → (A → A → Type κ) → List A → Type κ
Ordered P [] = Unit
Ordered P (x ∷ xs) = All (P x) xs × Ordered P xs

pub Ordered-append {ℓ κ} :
    {A : Type ℓ} (P : A → A → Type κ) (xs ys : List A)
    → Ordered P xs
    → Ordered P ys
    → All (λ (x : A). All (P x) ys) xs
    → Ordered P (xs ++ ys)
Ordered-append P [] ys p q h = q
Ordered-append P (x ∷ xs) ys p q h =
    (All-append (P x) xs ys p.0 h.0, Ordered-append P xs ys p.1 q h.1)

pub Ordered-map {ℓ κ μ} :
    {A : Type ℓ} {P : A → A → Type κ} {Q : A → A → Type μ} (xs : List A)
    → ((x y : A) → P x y → Q x y)
    → Ordered P xs
    → Ordered Q xs
Ordered-map [] f h = tt
Ordered-map (x ∷ xs) f h = (All-map xs (f x) h.0, Ordered-map xs f h.1)

module _ {ℓ} {A : Type ℓ} (precedes : A → A → Bool)
    (either : (x y : A) → precedes x y ≡ false → precedes y x ≡ true)
    (through : (x y z : A) → precedes x y ≡ true → precedes y z ≡ true → precedes x z ≡ true) where
  abbrev pub NotAfter : A → A → Type 0
  NotAfter x y = precedes x y ≡ true

  put-Ordered : (x : A) (xs : List A) → Ordered NotAfter xs → Ordered NotAfter (put precedes x xs)
  unfolding put
  put-Ordered x [] h = (tt, tt)
  put-Ordered x (y ∷ ys) h = elim (Bool-cases (precedes x y)) [
    | inl before ↦
        rw (Ordered, put, before) ((before, All-map ys (λ z p. through x y z before p) h.0), h)
    | inr after ↦
        rw (Ordered, put, after)
          (put-All precedes (NotAfter y) x ys (either x y after) h.0, put-Ordered x ys h.1)
  ]

  pub sort_by-Ordered : (xs : List A) → Ordered NotAfter (sort_by precedes xs)
  unfolding sort_by
  sort_by-Ordered [] = tt
  sort_by-Ordered (x ∷ xs) = put-Ordered x (sort_by precedes xs) (sort_by-Ordered xs)

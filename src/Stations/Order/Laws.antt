-- ===== src/Stations/Order/Laws.antt =====
-- What `order_stations` of src/stations/catalog.rs promises.
use Prim.Native.String.{String, [] as empty, ◌∷◌ as ◌+c◌}
use mathlib.Core.List.{Perm, perm_middle}
use mathlib.Core.List.Perm
use rockcast.Prelude.{
  Bool, true, false, List, [], ◌∷◌, ◌++◌, All, All-map, ◌≡◌, refl, inl, inr, Bool-cases, arith,
}
use rockcast.Prelude.Sorting.{
  sort_by, sort_by-All, sort_by-Perm, Ordered, Ordered-append, sort_by-Ordered,
}
use rockcast.Stations.Catalog.{Station}
use rockcast.Stations.Order.{text_leb, is_https, partition, is_metal, key_leb, order_stations}

text_leb_either : (s t : String) → text_leb s t ≡ false → text_leb t s ≡ true
unfolding text_leb
text_leb_either empty t h = absurd cc
text_leb_either (c +c s) empty h = refl
text_leb_either (c +c s) (d +c t) h = ground (arith, text_leb_either s t)

text_leb_trans : (s t u : String) → text_leb s t ≡ true → text_leb t u ≡ true → text_leb s u ≡ true
unfolding text_leb
text_leb_trans empty t u h k = refl
text_leb_trans (c +c s) empty u h k = absurd cc
text_leb_trans (c +c s) (d +c t) empty h k = absurd cc
text_leb_trans (c +c s) (d +c t) (e +c u) h k = ground (arith, text_leb_trans s t u)

module _ {ℓ} {A : Type ℓ} (test : A → Bool) where
  partition_perm : (xs : List A) → Perm ((partition test xs).0 ++ (partition test xs).1) xs
  unfolding partition
  partition_perm [] = Perm.rfl
  partition_perm (x ∷ xs) = elim (Bool-cases (test x)) [
    | inl passes ↦ rw (partition, passes) (Perm.cons x (partition_perm xs))
    | inr fails ↦
        rw (partition, fails)
          (Perm.trans (perm_middle (partition test xs).0 (partition test xs).1)
            (Perm.cons x (partition_perm xs)))
  ]

  partition_sides :
      (xs : List A)
      → All (λ (x : A). test x ≡ true) (partition test xs).0
        × All (λ (x : A). test x ≡ false) (partition test xs).1
  unfolding partition
  partition_sides [] = (tt, tt)
  partition_sides (x ∷ xs) =
      let rest = partition_sides xs in
      elim (Bool-cases (test x)) [
        | inl passes ↦ rw (All, partition, passes) ((passes, rest.0), rest.1)
        | inr fails ↦ rw (All, partition, fails) (rest.0, (fails, rest.1))
      ]

module _ (to_lowercase : String → String) where
  key_leb_either :
      (s t : Station) → key_leb to_lowercase s t ≡ false → key_leb to_lowercase t s ≡ true
  unfolding key_leb
  key_leb_either s t h = ground (arith, text_leb_either (to_lowercase s.name) (to_lowercase t.name))

  key_leb_trans :
      (s t u : Station)
      → key_leb to_lowercase s t ≡ true
      → key_leb to_lowercase t u ≡ true
      → key_leb to_lowercase s u ≡ true
  unfolding key_leb
  key_leb_trans s t u h k =
      ground
        (arith, text_leb_trans (to_lowercase s.name) (to_lowercase t.name) (to_lowercase u.name))

  -- The first of the two may stand before the second.
  pub data MayPrecede (s t : Station) : Type 0 where
    by_tags : is_metal to_lowercase s ≡ true → is_metal to_lowercase t ≡ false → MayPrecede s t
    by_scheme :
        is_metal to_lowercase s ≡ is_metal to_lowercase t
        → is_https s ≡ true
        → is_https t ≡ false
        → MayPrecede s t
    by_name :
        is_metal to_lowercase s ≡ is_metal to_lowercase t
        → is_https s ≡ is_https t
        → text_leb (to_lowercase s.name) (to_lowercase t.name) ≡ true
        → MayPrecede s t

  may_precede :
      (s t : Station)
      → is_metal to_lowercase s ≡ is_metal to_lowercase t
      → key_leb to_lowercase s t ≡ true
      → MayPrecede s t
  unfolding key_leb
  may_precede s t same h = elim (Bool-cases (is_https s)) [
    | inl a ↦ elim (Bool-cases (is_https t)) [
      | inl b ↦ by_name same (ground arith) (ground arith)
      | inr b ↦ by_scheme same a b
    ]
    | inr a ↦ by_name same (ground arith) (ground arith)
  ]

  side-Ordered :
      (side : Bool) (xs : List Station)
      → All (λ (s : Station). is_metal to_lowercase s ≡ side) xs
      → Ordered (λ s t. key_leb to_lowercase s t ≡ true) xs
      → Ordered MayPrecede xs
  side-Ordered side [] h k = tt
  side-Ordered side (s ∷ xs) h k = (go xs h.1 k.0, side-Ordered side xs h.1 k.1)
    where
      go :
          (ys : List Station)
          → All (λ (t : Station). is_metal to_lowercase t ≡ side) ys
          → All (λ (t : Station). key_leb to_lowercase s t ≡ true) ys
          → All (MayPrecede s) ys
      go [] a b = tt
      go (t ∷ ys) a b = (may_precede s t (cc) b.0, go ys a.1 b.1)

  across :
      (xs ys : List Station)
      → All (λ (s : Station). is_metal to_lowercase s ≡ true) xs
      → All (λ (t : Station). is_metal to_lowercase t ≡ false) ys
      → All (λ (s : Station). All (MayPrecede s) ys) xs
  across xs ys h k = All-map xs (λ s m. All-map ys (λ t o. by_tags m o) k) h

  -- The shown list has the stations of the catalogue, each as often, and of any two of them that stand in
  -- it the first has a tag of metal and the second none, or they are alike in that and the first has an HTTPS address and
  -- the second not, or they are alike in both and the first's name in lower case does not come after the second's.
  pub order_stations-Ordered :
      (stations : List Station)
      → Perm (order_stations to_lowercase stations) stations
        × Ordered MayPrecede (order_stations to_lowercase stations)
  unfolding order_stations
  order_stations-Ordered stations =
      let metal : List Station = (partition (is_metal to_lowercase) stations).0 in
      let others : List Station = (partition (is_metal to_lowercase) stations).1 in
      let leb : Station → Station → Bool = key_leb to_lowercase in
      let sides = partition_sides (is_metal to_lowercase) stations in
      let a = sort_by-All leb (λ (s : Station). is_metal to_lowercase s ≡ true) metal sides.0 in
      let b = sort_by-All leb (λ (s : Station). is_metal to_lowercase s ≡ false) others sides.1 in
      (
        Perm.trans (Perm.append (sort_by-Perm leb metal) (sort_by-Perm leb others))
            (partition_perm (is_metal to_lowercase) stations),
        Ordered-append MayPrecede (sort_by leb metal) (sort_by leb others)
            (side-Ordered true (sort_by leb metal) a
              (sort_by-Ordered leb key_leb_either key_leb_trans metal))
            (side-Ordered false (sort_by leb others) b
              (sort_by-Ordered leb key_leb_either key_leb_trans others))
            (across (sort_by leb metal) (sort_by leb others) a b),
      )

-- ===== src/Cast/Proto/Advances.antt =====
-- What the readers of src/cast/proto.rs do to the index.
use rockcast.Prelude.{
  ℕ, ◌+◌, ◌≤◌, ◌≡◌, ◌≢◌, refl, List, [], ◌∷◌, take, drop, length, ltb, if◌then◌else◌, arith, inl,
  inr, Bool-cases,
}
use rockcast.Prelude.Bytes.{add64}
use rockcast.Cast.Proto.{
  ProtoError, utf8, Outcome, ok, err, panic, stuck, truncated, valid_utf8, add_group,
  read_varint_loop, read_varint, read_bytes, read_text, ◌>>=◌,
}
use rockcast.Cast.Proto.Varint.{read_varint_bounds}

-- What a reader returns: never `stuck`, and an index that moved on inside the buffer.
unfoldable pub Advances {ℓ} : {A : Type ℓ} → List ℕ → ℕ → Outcome (A × ℕ) → Type 0
Advances buf i (ok (a, j)) = (i ≤ j) × (j ≤ length buf)
Advances buf i (err e) = Unit
Advances buf i panic = Unit
Advances buf i stuck = ⊥

read_varint_loop-ne-stuck : (bytes : List ℕ) (i r s : ℕ) → read_varint_loop bytes i r s ≢ stuck
unfolding read_varint_loop
read_varint_loop-ne-stuck [] i r s e = cc
read_varint_loop-ne-stuck (b ∷ bytes) i r s e =
    ground (arith, read_varint_loop-ne-stuck bytes (i + 1) (add_group r b s) (s + 7))

read_varint-ne-stuck : (buf : List ℕ) (i : ℕ) → read_varint buf i ≢ stuck
unfolding read_varint
read_varint-ne-stuck buf i = read_varint_loop-ne-stuck _ i 0 0

Advances-cases {ℓ} :
    {A : Type ℓ} (buf : List ℕ) (i : ℕ) (r : Outcome (A × ℕ))
    → r ≢ stuck
    → ((a : A) (j : ℕ) → r ≡ ok (a, j) → (i ≤ j) × (j ≤ length buf))
    → Advances buf i r
unfolding Advances
Advances-cases buf i (ok (a, j)) h k = k a j refl
Advances-cases buf i (err e) h k = tt
Advances-cases buf i panic h k = tt
Advances-cases buf i stuck h k = h refl

pub Advances-err {ℓ} :
    (A : Type ℓ) (buf : List ℕ) (i : ℕ) (e : ProtoError) → Advances {A = A} buf i (err e)
unfolding Advances
Advances-err A buf i e = tt

Advances-from {ℓ} :
    {A : Type ℓ} (buf : List ℕ) (i j : ℕ) (r : Outcome (A × ℕ))
    → i ≤ j
    → Advances buf j r
    → Advances buf i r
unfolding Advances
Advances-from buf i j (ok (a, k)) h v = (omega arith, v.1)
Advances-from buf i j (err e) h v = tt
Advances-from buf i j panic h v = tt
Advances-from buf i j stuck h v = elim v [ ]

-- Chaining: what comes behind starts where the first reader stopped.
pub Advances-bind {ℓ κ} :
    {A : Type ℓ} {B : Type κ} (buf : List ℕ) (i : ℕ) (m : Outcome (A × ℕ))
    (f : A × ℕ → Outcome (B × ℕ))
    → Advances buf i m
    → ((a : A) (j : ℕ) → i ≤ j → j ≤ length buf → Advances buf j (f (a, j)))
    → Advances buf i (m >>= f)
unfolding Advances
Advances-bind buf i (ok (a, j)) f h k = Advances-from buf i j (f (a, j)) h.0 (k a j h.0 h.1)
Advances-bind buf i (err e) f h k = tt
Advances-bind buf i panic f h k = tt
Advances-bind buf i stuck f h k = elim h [ ]

pub read_varint-Advances :
    (buf : List ℕ) (i : ℕ) → i ≤ length buf → Advances buf (i + 1) (read_varint buf i)
read_varint-Advances buf i h =
    Advances-cases buf (i + 1) (read_varint buf i) (read_varint-ne-stuck buf i)
      (λ v j e. omega (arith, read_varint_bounds buf i v j h e))

pub read_varint-Advances_weak :
    (buf : List ℕ) (i : ℕ) → i ≤ length buf → Advances buf i (read_varint buf i)
read_varint-Advances_weak buf i h =
    Advances-from buf i (i + 1) (read_varint buf i) (omega arith) (read_varint-Advances buf i h)

pub read_bytes-Advances :
    (buf : List ℕ) (i : ℕ) → i ≤ length buf → Advances buf i (read_bytes buf i)
unfolding read_bytes Advances
read_bytes-Advances buf i h =
    Advances-bind buf i (read_varint buf i) _ (read_varint-Advances_weak buf i h) slice
  where
    slice :
        (len j : ℕ)
        → i ≤ j
        → j ≤ length buf
        → Advances buf j (
            if ltb (length buf) (add64 j len)
            then err truncated
            else if ltb (add64 j len) j
            then panic
            else ok (take len (drop j buf), add64 j len))
    slice len j hi hj = elim (Bool-cases (ltb (length buf) (add64 j len))) [
      | inl long ↦ rw long tt
      | inr fits ↦ rw fits (elim (Bool-cases (ltb (add64 j len) j)) [
        | inl wrapped ↦ rw wrapped tt
        | inr straight ↦ rw straight (ground arith, ground arith)
      ])
    ]

pub read_text-Advances : (buf : List ℕ) (i : ℕ) → i ≤ length buf → Advances buf i (read_text buf i)
unfolding read_text Advances
read_text-Advances buf i h =
    Advances-bind buf i (read_bytes buf i) _ (read_bytes-Advances buf i h) checked
  where
    checked :
        (s : List ℕ) (j : ℕ)
        → i ≤ j
        → j ≤ length buf
        → Advances buf j (if valid_utf8 s then ok (s, j) else err utf8)
    checked s j hi hj = elim (Bool-cases (valid_utf8 s)) [
      | inl valid ↦ rw valid (omega arith)
      | inr invalid ↦ rw invalid tt
    ]

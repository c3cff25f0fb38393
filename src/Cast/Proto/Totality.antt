-- ===== src/Cast/Proto/Totality.antt =====
-- `decode` of src/cast/proto.rs on any buffer, as to where it ends.
use rockcast.Prelude.{
  ℕ, zero, suc, ◌+◌, ◌/◌, ◌%◌, ◌^◌, ◌≤◌, ◌<◌, ◌≢◌, refl, List, length, ltb, ◌==◌, ◌&&◌, some,
  if◌then◌else◌, arith, inl, inr, Bool-cases, ltb-ge,
}
use rockcast.Cast.Proto.{
  bad_varint, Outcome, ok, err, panic, stuck, Partial, string_type, binary_type, blank, read_varint,
  read_bytes, read_text, skip_fixed, decode_unknown, decode_field, decode_step, decode_loop, finish,
  finish_payload, decode, ◌>>=◌,
}
use rockcast.Cast.Proto.Advances.{
  Advances, Advances-err, Advances-bind, read_varint-Advances, read_varint-Advances_weak,
  read_bytes-Advances, read_text-Advances,
}

skip_fixed-Advances : (buf : List ℕ) (n i : ℕ) (p : Partial) → Advances buf i (skip_fixed buf n i p)
unfolding skip_fixed Advances
skip_fixed-Advances buf n i p = elim (Bool-cases (ltb (length buf) (i + n))) [
  | inl long ↦ rw long tt
  | inr fits ↦ rw fits (omega arith, ground arith)
]

-- A reader whose value is put away, and whose index is passed on.
Advances-store {ℓ} :
    {A : Type ℓ} (buf : List ℕ) (i : ℕ) (m : Outcome (A × ℕ)) (f : A → Partial)
    → Advances buf i m
    → Advances buf i (m >>= λ r. ok (f r.0, r.1))
unfolding Advances
Advances-store buf i m f h = Advances-bind buf i m _ h (λ a j hi hj. (omega arith, hj))

module _ (buf : List ℕ) (i : ℕ) (p : Partial) (h : i ≤ length buf) where
  decode_unknown-Advances : (wire : ℕ) → Advances buf i (decode_unknown buf wire i p)
  unfolding decode_unknown
  decode_unknown-Advances wire = elim (Bool-cases (wire == 0)) [
    | inl e ↦
        rw e (Advances-store buf i (read_varint buf i) (λ v. p) (read_varint-Advances_weak buf i h))
    | inr e ↦ rw e (elim (Bool-cases (wire == 1)) [
      | inl e ↦ rw e (skip_fixed-Advances buf 8 i p)
      | inr e ↦ rw e (elim (Bool-cases (wire == 2)) [
        | inl e ↦
            rw e (Advances-store buf i (read_bytes buf i) (λ b. p) (read_bytes-Advances buf i h))
        | inr e ↦ rw e (elim (Bool-cases (wire == 5)) [
          | inl e ↦ rw e (skip_fixed-Advances buf 4 i p)
          | inr e ↦ rw e (Advances-err Partial buf i bad_varint)
        ])
      ])
    ])
  ]

  decode_field-Advances : (field wire : ℕ) → Advances buf i (decode_field buf field wire i p)
  unfolding decode_field
  decode_field-Advances field wire = elim (Bool-cases (field == 2 && wire == 2)) [
    | inl e ↦ rw e (
        Advances-store buf i (read_text buf i) (λ s. record p { source_id = s })
          (read_text-Advances buf i h))
    | inr e ↦ rw e (elim (Bool-cases (field == 3 && wire == 2)) [
      | inl e ↦ rw e (
          Advances-store buf i (read_text buf i) (λ s. record p { destination_id = s })
            (read_text-Advances buf i h))
      | inr e ↦ rw e (elim (Bool-cases (field == 4 && wire == 2)) [
        | inl e ↦ rw e (
            Advances-store buf i (read_text buf i) (λ s. record p { namespace = s })
              (read_text-Advances buf i h))
        | inr e ↦ rw e (elim (Bool-cases (field == 5 && wire == 0)) [
          | inl e ↦ rw e (
              Advances-store buf i (read_varint buf i)
                (λ v. record p { payload_type = if v == 1 then binary_type else string_type })
                (read_varint-Advances_weak buf i h))
          | inr e ↦ rw e (elim (Bool-cases (field == 6 && wire == 2)) [
            | inl e ↦ rw e (
                Advances-store buf i (read_text buf i) (λ s. record p { payload_utf8 = some s })
                  (read_text-Advances buf i h))
            | inr e ↦ rw e (elim (Bool-cases (field == 7 && wire == 2)) [
              | inl e ↦ rw e (
                  Advances-store buf i (read_bytes buf i)
                    (λ b. record p { payload_binary = some b }) (read_bytes-Advances buf i h))
              | inr e ↦ rw e (decode_unknown-Advances wire)
            ])
          ])
        ])
      ])
    ])
  ]

-- A turn of the loop takes a byte at least, and stays inside the buffer.
decode_step-Advances :
    (buf : List ℕ) (i : ℕ) (p : Partial)
    → i ≤ length buf
    → Advances buf (i + 1) (decode_step buf i p)
unfolding decode_step
decode_step-Advances buf i p h =
    Advances-bind buf (i + 1) (read_varint buf i) _ (read_varint-Advances buf i h)
      (λ key j hi hj. decode_field-Advances buf j p hj (key / 8 % 2 ^ 32) (key % 8))

-- What follows a step that took a byte.
step-ne-stuck {ℓ} :
    {A : Type ℓ} (buf : List ℕ) (i : ℕ) (m : Outcome (Partial × ℕ)) (k : Partial × ℕ → Outcome A)
    → Advances buf (i + 1) m
    → ((p : Partial) (j : ℕ) → i < j → j ≤ length buf → k (p, j) ≢ stuck)
    → (m >>= k) ≢ stuck
unfolding Advances
step-ne-stuck buf i (ok (p, j)) k h rest = rest p j (omega arith) h.1
step-ne-stuck buf i (err x) k h rest = λ e. cc
step-ne-stuck buf i panic k h rest = λ e. cc
step-ne-stuck buf i stuck k h rest = elim h [ ]

decode_loop-ne-stuck :
    (fuel : ℕ) (buf : List ℕ) (i : ℕ) (p : Partial)
    → i ≤ length buf
    → length buf ≤ i + fuel
    → decode_loop fuel buf i p ≢ stuck
unfolding decode_loop
decode_loop-ne-stuck zero buf i p h f = rw (ltb-ge i (length buf) (omega arith)) (λ e. cc)
decode_loop-ne-stuck (suc fuel) buf i p h f = elim (Bool-cases (ltb i (length buf))) [
  | inl inside ↦ rw inside (
      step-ne-stuck buf i (decode_step buf i p) _ (decode_step-Advances buf i p h)
        (λ q j hi hj. decode_loop-ne-stuck fuel buf j q hj (omega arith)))
  | inr done ↦ rw done (λ e. cc)
]

finish-ne-stuck : (p : Partial) → finish p ≢ stuck
unfolding finish finish_payload
finish-ne-stuck p e = ground arith

bind-ne-stuck {ℓ κ} :
    {A : Type ℓ} {B : Type κ} (m : Outcome A) (k : A → Outcome B)
    → m ≢ stuck
    → ((a : A) → k a ≢ stuck)
    → (m >>= k) ≢ stuck
bind-ne-stuck (ok a) k h rest = rest a
bind-ne-stuck (err x) k h rest = λ e. cc
bind-ne-stuck panic k h rest = λ e. cc
bind-ne-stuck stuck k h rest = λ e. h refl

-- `decode` ends on every buffer: it returns a message or an error, or it panics.
pub decode-ne-stuck : (buf : List ℕ) → decode buf ≢ stuck
unfolding decode
decode-ne-stuck buf =
    bind-ne-stuck (decode_loop (length buf) buf 0 blank) finish
      (decode_loop-ne-stuck (length buf) buf 0 blank (omega arith) (omega arith)) finish-ne-stuck

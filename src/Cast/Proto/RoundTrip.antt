-- ===== src/Cast/Proto/RoundTrip.antt =====
-- Whole buffers of src/cast/proto.rs: what `decode` makes of a sequence of fields.
use rockcast.Prelude.{
  ℕ, zero, suc, ◌≤◌, ◌<◌, ◌≡◌, ap, ◌∙◌, List, [], ◌∷◌, ◌++◌, append-nil, append_assoc, length,
  length-append, All, lt→ltb, ltb-ge, arith,
}
use rockcast.Prelude.Bytes.{IsU64}
use rockcast.Cast.Proto.{ok, Partial, blank, decode_step, decode_loop, finish, decode}
use rockcast.Cast.Proto.Varint.{groups, length-groups}
use rockcast.Cast.Proto.Fields.{
  Item, version, item_key, item_body, item_bytes, item_effect, ItemIsValid, decode_step-key,
  decode_field-body,
}

abbrev pub items_bytes : List Item → List ℕ
items_bytes [] = []
items_bytes (x ∷ xs) = item_bytes x ++ items_bytes xs

-- The effects of the fields, in the order of the buffer.
abbrev pub apply_items : List Item → Partial → Partial
apply_items [] p = p
apply_items (x ∷ xs) p = apply_items xs (item_effect x p)

length-items : (xs : List Item) → length xs ≤ length (items_bytes xs)
length-items [] = omega arith
length-items (x ∷ xs) = omega (
  arith,
  length-items xs,
  length-append (item_bytes x) (items_bytes xs),
  length-append (groups 9 (item_key x)) (item_body x),
  length-groups 9 (item_key x),
)

item_key-IsU64 : (x : Item) → ItemIsValid x → IsU64 (item_key x)
item_key-IsU64 (version v) h = omega arith
item_key-IsU64 (Item.other_number f v) h = omega arith
item_key-IsU64 (Item.other_bytes f b) h = omega arith
item_key-IsU64 x h = omega arith

-- One turn of the loop takes one field.
decode_step-item :
    (x : Item) (before rest : List ℕ) (p : Partial)
    → ItemIsValid x
    → IsU64 (length (before ++ (item_bytes x ++ rest)))
    → decode_step (before ++ (item_bytes x ++ rest)) (length before) p
      ≡ ok (item_effect x p, length (before ++ item_bytes x))
decode_step-item x before rest p v h =
    rw (append_assoc (groups 9 (item_key x)) (item_body x) rest) (
      decode_step-key (item_key x) before (item_body x ++ rest) p (item_key-IsU64 x v)
      ∙ decode_field-body x (before ++ groups 9 (item_key x)) rest p v (
          rw
            (
              append_assoc before (groups 9 (item_key x)) (item_body x ++ rest),
              ← append_assoc (groups 9 (item_key x)) (item_body x) rest,
            )
            h)
      ∙ ap (λ (t : List ℕ). ok (item_effect x p, length t))
          (append_assoc before (groups 9 (item_key x)) (item_body x)))

decode_loop_step :
    (fuel : ℕ) (buf : List ℕ) (i j : ℕ) (p q : Partial)
    → i < length buf
    → decode_step buf i p ≡ ok (q, j)
    → decode_loop (suc fuel) buf i p ≡ decode_loop fuel buf j q
unfolding decode_loop
decode_loop_step fuel buf i j p q h e = rw (lt→ltb i (length buf) h, e)

decode_loop_end :
    (fuel : ℕ) (buf : List ℕ) (p : Partial) → decode_loop fuel buf (length buf) p ≡ ok p
unfolding decode_loop
decode_loop_end zero buf p = rw (ltb-ge (length buf) (length buf) (omega arith))
decode_loop_end (suc fuel) buf p = rw (ltb-ge (length buf) (length buf) (omega arith))

inside_item :
    (x : Item) (before rest : List ℕ) → length before < length (before ++ (item_bytes x ++ rest))
inside_item x before rest = omega (
  arith,
  length-append before (item_bytes x ++ rest),
  length-append (item_bytes x) rest,
  length-append (groups 9 (item_key x)) (item_body x),
  length-groups 9 (item_key x),
)

decode_loop-items :
    (xs : List Item) (fuel : ℕ) (before : List ℕ) (p : Partial)
    → All ItemIsValid xs
    → IsU64 (length (before ++ items_bytes xs))
    → length xs ≤ fuel
    → decode_loop fuel (before ++ items_bytes xs) (length before) p ≡ ok (apply_items xs p)
decode_loop-items [] fuel before p v h f = rw append-nil (decode_loop_end fuel before p)
decode_loop-items (x ∷ xs) zero before p v h f = absurd (omega arith)
decode_loop-items (x ∷ xs) (suc fuel) before p v h f =
    decode_loop_step fuel _ (length before) (length (before ++ item_bytes x)) p (item_effect x p)
      (inside_item x before (items_bytes xs)) (decode_step-item x before (items_bytes xs) p v.0 h)
    ∙ rw (← append_assoc before (item_bytes x) (items_bytes xs)) (
        decode_loop-items xs fuel (before ++ item_bytes x) (item_effect x p) v.1
          (rw (append_assoc before (item_bytes x) (items_bytes xs)) h) (omega arith))

-- On a buffer of fewer than 2 ^ 64 bytes that is a sequence of fields with valid contents, known or unknown, in any order and
-- as often as they come, `decode` sets what each stands for, in the order of the buffer, skips those it
-- does not know, and then asks for the payload of the last type that was set.
pub decode-items :
    (xs : List Item)
    → All ItemIsValid xs
    → IsU64 (length (items_bytes xs))
    → decode (items_bytes xs) ≡ finish (apply_items xs blank)
unfolding decode
decode-items xs v h =
    rw (decode_loop-items xs (length (items_bytes xs)) [] blank v h (length-items xs))

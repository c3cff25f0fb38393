-- ===== src/Cast/Proto/Fields.antt =====
-- One field of a message of src/cast/proto.rs: what `decode` reads where a field was written, for
-- the fields that it knows and for those that it skips.
use rockcast.Prelude.{
  ℕ, ◌+◌, ◌*◌, ◌/◌, ◌%◌, ◌^◌, ◌≤◌, ◌<◌, ◌≡◌, ap, ◌∙◌, true, List, ◌++◌, append_assoc, some, length,
  length-append, take, drop, drop-append, take-append, arith,
}
use rockcast.Prelude.Bytes.{IsU64, add64}
use rockcast.Cast.Proto.{
  ok, Partial, PayloadType, string_type, binary_type, payload_type_code, valid_utf8, read_varint,
  read_bytes, read_text, decode_field, decode_unknown, decode_step,
}
use rockcast.Cast.Proto.Varint.{groups, read_varint-groups}

-- A length and that many bytes.
abbrev pub sized : List ℕ → List ℕ
sized b = groups 9 (length b) ++ b

-- A field of a buffer. The last two are of no field that `decode` knows.
pub data Item : Type 0 where
  version : ℕ → Item
  source destination name text blob : List ℕ → Item
  kind : PayloadType → Item
  other_number : ℕ → ℕ → Item
  other_bytes : ℕ → List ℕ → Item

-- The key: `field << 3 | wire`.
abbrev pub item_key : Item → ℕ
item_key (version v) = 8
item_key (source s) = 18
item_key (destination s) = 26
item_key (name s) = 34
item_key (kind t) = 40
item_key (text s) = 50
item_key (blob b) = 58
item_key (other_number f v) = f * 8
item_key (other_bytes f b) = f * 8 + 2

abbrev pub item_body : Item → List ℕ
item_body (version v) = groups 9 v
item_body (source s) = sized s
item_body (destination s) = sized s
item_body (name s) = sized s
item_body (kind t) = groups 9 (payload_type_code t)
item_body (text s) = sized s
item_body (blob b) = sized b
item_body (other_number f v) = groups 9 v
item_body (other_bytes f b) = sized b

abbrev pub item_bytes : Item → List ℕ
item_bytes x = groups 9 (item_key x) ++ item_body x

-- What a field sets.
abbrev pub item_effect : Item → Partial → Partial
item_effect (version v) p = p
item_effect (source s) p = record p { source_id = s }
item_effect (destination s) p = record p { destination_id = s }
item_effect (name s) p = record p { namespace = s }
item_effect (kind t) p = record p { payload_type = t }
item_effect (text s) p = record p { payload_utf8 = some s }
item_effect (blob b) p = record p { payload_binary = some b }
item_effect (other_number f v) p = p
item_effect (other_bytes f b) p = p

-- Texts are UTF-8, numbers have 64 bits, and a field number fits its 29 bits.
abbrev pub ItemIsValid : Item → Type 0
ItemIsValid (version v) = IsU64 v
ItemIsValid (source s) = valid_utf8 s ≡ true
ItemIsValid (destination s) = valid_utf8 s ≡ true
ItemIsValid (name s) = valid_utf8 s ≡ true
ItemIsValid (kind t) = Unit
ItemIsValid (text s) = valid_utf8 s ≡ true
ItemIsValid (blob b) = Unit
ItemIsValid (other_number f v) = (8 ≤ f) × (f < 2 ^ 29) × IsU64 v
ItemIsValid (other_bytes f b) = (8 ≤ f) × (f < 2 ^ 29)

-- `read_bytes` behind the length: no wrap, and the bytes asked for are there.
read_bytes_inside :
    (buf : List ℕ) (i len j : ℕ)
    → read_varint buf i ≡ ok (len, j)
    → j + len ≤ length buf
    → IsU64 (length buf)
    → read_bytes buf i ≡ ok (take len (drop j buf), j + len)
unfolding read_bytes
read_bytes_inside buf i len j e inside h = rw e (ground (arith, no_wrap))
  where
    no_wrap : add64 j len ≡ j + len
    no_wrap = omega arith

-- The bytes between two others.
take-drop-middle {ℓ} :
    {A : Type ℓ} (xs ys zs : List A) → take (length ys) (drop (length xs) (xs ++ (ys ++ zs))) ≡ ys
take-drop-middle xs ys zs = rw drop-append (take-append ys zs)

module _ (b before rest : List ℕ) where
  -- The buffer, bracketed as the writers leave it and as the readers go through it.
  abbrev placed : List ℕ
  placed = before ++ (groups 9 (length b) ++ (b ++ rest))

  length-placed :
      length placed ≡ length before + length (groups 9 (length b)) + length b + length rest
  length-placed = rw (length-append, length-append, length-append) (omega arith)

  body-placed : take (length b) (drop (length before + length (groups 9 (length b))) placed) ≡ b
  body-placed =
      rw
        (
          ← append_assoc before (groups 9 (length b)) (b ++ rest),
          ← length-append before (groups 9 (length b)),
        )
        (take-drop-middle (before ++ groups 9 (length b)) b rest)

  read_bytes-placed :
      IsU64 (length placed)
      → read_bytes placed (length before)
        ≡ ok (b, length before + length (groups 9 (length b)) + length b)
  read_bytes-placed h =
      read_bytes_inside placed (length before) (length b)
        (length before + length (groups 9 (length b)))
        (read_varint-groups (length b) before (b ++ rest) (omega (arith, length-placed)))
        (omega (arith, length-placed)) h
      ∙ ap (λ (t : List ℕ). ok (t, length before + length (groups 9 (length b)) + length b))
          body-placed

  -- A length-delimited value is read back where it was written, and the index moves behind it.
  pub read_bytes-sized :
      IsU64 (length (before ++ (sized b ++ rest)))
      → read_bytes (before ++ (sized b ++ rest)) (length before)
        ≡ ok (b, length (before ++ sized b))
  read_bytes-sized h =
      rw (length-append before (sized b), length-append (groups 9 (length b)) b)
        (rw (append_assoc (groups 9 (length b)) b rest) (
          read_bytes-placed (rw (append_assoc (groups 9 (length b)) b rest) at h)
          ∙ ap (λ (k : ℕ). ok (b, k)) (omega arith)))

  pub read_text-sized :
      valid_utf8 b ≡ true
      → IsU64 (length (before ++ (sized b ++ rest)))
      → read_text (before ++ (sized b ++ rest)) (length before) ≡ ok (b, length (before ++ sized b))
  unfolding read_text
  read_text-sized v h = rw (read_bytes-sized h, v)

pub decode_step-key :
    (key : ℕ) (before tail : List ℕ) (p : Partial)
    → IsU64 key
    → decode_step (before ++ (groups 9 key ++ tail)) (length before) p
      ≡ decode_field
          ((before ++ groups 9 key) ++ tail)
          (key / 8 % 2 ^ 32)
          (key % 8)
          (length (before ++ groups 9 key))
          p
unfolding decode_step
decode_step-key key before tail p h =
    rw (append_assoc, length-append, read_varint-groups key before tail h)

-- A field number above 7 is not known.
decode_field-unknown :
    (buf : List ℕ) (f wire i : ℕ) (p : Partial)
    → 8 ≤ f
    → decode_field buf f wire i p ≡ decode_unknown buf wire i p
unfolding decode_field
decode_field-unknown buf f wire i p h = ground arith

-- `decode` on a field that was written at `before`: it sets what the field stands for, and moves
-- behind it. A later field of the same number replaces the earlier one.
pub decode_field-body :
    (x : Item) (before rest : List ℕ) (p : Partial)
    → ItemIsValid x
    → IsU64 (length (before ++ (item_body x ++ rest)))
    → decode_field
        (before ++ (item_body x ++ rest))
        (item_key x / 8 % 2 ^ 32)
        (item_key x % 8)
        (length before)
        p
      ≡ ok (item_effect x p, length (before ++ item_body x))
unfolding decode_field decode_unknown payload_type_code
decode_field-body (version n) before rest p v h =
    rw (read_varint-groups n before rest v, length-append)
decode_field-body (source s) before rest p v h = rw (read_text-sized s before rest v h)
decode_field-body (destination s) before rest p v h = rw (read_text-sized s before rest v h)
decode_field-body (name s) before rest p v h = rw (read_text-sized s before rest v h)
decode_field-body (text s) before rest p v h = rw (read_text-sized s before rest v h)
decode_field-body (blob s) before rest p v h = rw (read_bytes-sized s before rest h)
decode_field-body (kind string_type) before rest p v h =
    rw (read_varint-groups 0 before rest (omega arith), length-append)
decode_field-body (kind binary_type) before rest p v h =
    rw (read_varint-groups 1 before rest (omega arith), length-append)
decode_field-body (other_number f n) before rest p v h =
    let number : f * 8 / 8 % 2 ^ 32 ≡ f = omega arith in
    let wire : f * 8 % 8 ≡ 0 = omega arith in
    rw (number, wire)
      (decode_field-unknown _ f 0 (length before) p v.0
        ∙ rw (read_varint-groups n before rest v.2, length-append))
decode_field-body (other_bytes f b) before rest p v h =
    let number : (f * 8 + 2) / 8 % 2 ^ 32 ≡ f = omega arith in
    let wire : (f * 8 + 2) % 8 ≡ 2 = omega arith in
    rw (number, wire)
      (decode_field-unknown _ f 2 (length before) p v.0 ∙ rw (read_bytes-sized b before rest h))

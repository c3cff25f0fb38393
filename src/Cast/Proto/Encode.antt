-- ===== src/Cast/Proto/Encode.antt =====
-- `CastMessage::encode` of src/cast/proto.rs as a sequence of fields, and the round trip.
use rockcast.Prelude.{
  ℕ, ◌+◌, ◌*◌, ◌%◌, bit_or, ◌^◌, ◌≤◌, ◌≡◌, refl, ◌∙◌, true, List, [], ◌∷◌, ◌++◌, append-nil,
  append_assoc, length, length-append, All, arith,
}
use rockcast.Prelude.Bytes.{IsU64}
use rockcast.Cast.Proto.{
  ok, CastMessage, Payload, string, binary, string_type, binary_type, blank, valid_utf8,
  write_varint, write_key, write_bytes, write_string, encode_payload, payload_type_code, encode,
  finish, finish_payload, decode,
}
use rockcast.Cast.Proto.Varint.{groups, length-groups, write_varint-groups}
use rockcast.Cast.Proto.Fields.{
  Item, version, source, destination, name, text, blob, kind, ItemIsValid, sized,
}
use rockcast.Cast.Proto.RoundTrip.{items_bytes, apply_items, decode-items}

-- The fields that `encode` writes.
payload_items : Payload → List Item
payload_items (string s) = kind string_type ∷ text s ∷ []
payload_items (binary b) = kind binary_type ∷ blob b ∷ []

-- What a payload holds, and when it can stand in a message.
unfoldable pub payload_bytes : Payload → List ℕ
payload_bytes (string s) = s
payload_bytes (binary b) = b

abbrev pub PayloadIsValid : Payload → Type 0
PayloadIsValid (string s) = valid_utf8 s ≡ true
PayloadIsValid (binary b) = Unit

message_items : CastMessage → List Item
message_items m =
    version 0
    ∷ source m.source_id
    ∷ destination m.destination_id
    ∷ name m.namespace
    ∷ payload_items m.payload

write_key-groups :
    (field wire key : ℕ) (out : List ℕ)
    → bit_or (field * 8 % 2 ^ 64) wire ≡ key
    → IsU64 key
    → write_key field wire out ≡ out ++ groups 9 key
unfolding write_key
write_key-groups field wire key out e h = rw e (write_varint-groups key out h)

write_bytes-groups :
    (field key : ℕ) (b out : List ℕ)
    → bit_or (field * 8 % 2 ^ 64) 2 ≡ key
    → IsU64 key
    → IsU64 (length b)
    → write_bytes field b out ≡ out ++ (groups 9 key ++ sized b)
unfolding write_bytes
write_bytes-groups field key b out e hk h =
    rw
      (
        write_key-groups field 2 key out e hk,
        write_varint-groups (length b) (out ++ groups 9 key) h,
      )
      (simp append_assoc)

encode_payload-items :
    (x : Payload) (out : List ℕ)
    → IsU64 (length (payload_bytes x))
    → encode_payload x out ≡ out ++ items_bytes (payload_items x)
unfolding encode_payload payload_items payload_bytes write_string payload_type_code
encode_payload-items (string s) out h =
    rw
      (
        write_bytes-groups 6 50 s (write_varint 0 (write_key 5 0 out)) refl (omega arith) h,
        write_varint-groups 0 (write_key 5 0 out) (omega arith),
        write_key-groups 5 0 40 out refl (omega arith),
      )
      (simp (append_assoc, append-nil))
encode_payload-items (binary b) out h =
    rw
      (
        write_bytes-groups 7 58 b (write_varint 1 (write_key 5 0 out)) refl (omega arith) h,
        write_varint-groups 1 (write_key 5 0 out) (omega arith),
        write_key-groups 5 0 40 out refl (omega arith),
      )
      (simp (append_assoc, append-nil))

-- The texts are UTF-8, as a Rust `String` is, and the sizes fit 64 bits together.
pub record MessageIsValid (m : CastMessage) : Type 0 where
  pub source_utf8 : valid_utf8 m.source_id ≡ true
  pub destination_utf8 : valid_utf8 m.destination_id ≡ true
  pub namespace_utf8 : valid_utf8 m.namespace ≡ true
  pub payload_utf8 : PayloadIsValid m.payload
  pub size : IsU64 (
      length m.source_id
      + length m.destination_id
      + length m.namespace
      + length (payload_bytes m.payload)
      + 128)

payload_items-valid : (x : Payload) → PayloadIsValid x → All ItemIsValid (payload_items x)
unfolding payload_items
payload_items-valid (string s) h = (tt, (h, tt))
payload_items-valid (binary b) h = (tt, (tt, tt))

-- A key, a length and the bytes.
length-sized_item : (key : ℕ) (b : List ℕ) → length (groups 9 key ++ sized b) ≤ length b + 20
length-sized_item key b = omega (
  arith,
  length-append (groups 9 key) (sized b),
  length-append (groups 9 (length b)) b,
  length-groups 9 key,
  length-groups 9 (length b),
)

length-number_item : (key n : ℕ) → length (groups 9 key ++ groups 9 n) ≤ 20
length-number_item key n =
    omega (arith, length-append (groups 9 key) (groups 9 n), length-groups 9 key, length-groups 9 n)

length-payload_items :
    (x : Payload) → length (items_bytes (payload_items x)) ≤ length (payload_bytes x) + 40
unfolding payload_items payload_bytes payload_type_code
length-payload_items (string s) =
    omega (arith, length-append {0}, length-number_item 40 0, length-sized_item 50 s)
length-payload_items (binary b) =
    omega (arith, length-append {0}, length-number_item 40 1, length-sized_item 58 b)

length-message_items :
    (m : CastMessage)
    → length (items_bytes (message_items m))
      ≤ length m.source_id
        + length m.destination_id
        + length m.namespace
        + length (payload_bytes m.payload)
        + 128
unfolding message_items
length-message_items m = omega (
  arith,
  length-append {0},
  length-number_item 8 0,
  length-sized_item 18 m.source_id,
  length-sized_item 26 m.destination_id,
  length-sized_item 34 m.namespace,
  length-payload_items m.payload,
)

finish-items : (m : CastMessage) → finish (apply_items (message_items m) blank) ≡ ok m
unfolding message_items
finish-items m = go m.payload
  where
    go :
        (x : Payload)
        → finish (
            apply_items
              (version 0
                ∷ source m.source_id
                ∷ destination m.destination_id
                ∷ name m.namespace
                ∷ payload_items x)
              blank)
          ≡ ok (record m { payload = x })
    go (string s) = unfold payload_items finish finish_payload in refl
    go (binary b) = unfold payload_items finish finish_payload in refl

module _ (m : CastMessage) (v : MessageIsValid m) where
  encode-items : encode m ≡ items_bytes (message_items m)
  unfolding encode write_string message_items
  encode-items =
      rw
        (
          encode_payload-items m.payload _ (omega (arith, v.size)),
          write_bytes-groups 4 34 m.namespace _ refl (omega arith) (omega (arith, v.size)),
          write_bytes-groups 3 26 m.destination_id _ refl (omega arith) (omega (arith, v.size)),
          write_bytes-groups 2 18 m.source_id _ refl (omega arith) (omega (arith, v.size)),
          write_varint-groups 0 _ (omega arith),
          write_key-groups 1 0 8 [] refl (omega arith),
        )
        (simp append_assoc)

  message_items-valid : All ItemIsValid (message_items m)
  unfolding message_items
  message_items-valid = (
    omega arith,
    (
      v.source_utf8,
      (v.destination_utf8, (v.namespace_utf8, payload_items-valid m.payload v.payload_utf8)),
    ),
  )

  -- `decode` gives back the message that `encode` wrote, if the texts of the message are UTF-8 and
  -- its fields have together at least 128 bytes fewer than 2 ^ 64.
  pub decode-encode : decode (encode m) ≡ ok m
  unfolding message_items
  decode-encode = rw encode-items (
      decode-items (message_items m) message_items-valid
        (omega (arith, v.size, length-message_items m))
      ∙ finish-items m)

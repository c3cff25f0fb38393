-- ===== src/Cast/Proto.antt =====
-- src/cast/proto.rs: the hand-written protobuf codec of CASTV2 messages. A buffer is a list of
-- bytes with an index into it, as in the source; a text is the list of its UTF-8 bytes.
mod Utf8
pub mod Varint
pub mod Fields
pub mod Advances
pub mod Totality
pub mod Overflow
pub mod RoundTrip
pub mod Encode
mod Tests
unfoldable pub use Utf8.{valid_utf8}
use mathlib.Core.WellFounded.{Acc}
use mathlib.Core.Logic.{dite}
use native.Mathlib.Decide.{dec_lt}
use rockcast.Prelude.{
  ℕ, zero, suc, ◌+◌, ◌*◌, ◌/◌, ◌%◌, ◌^◌, ◌<◌, ◌≤◌, bit_and, bit_or, Bool, ◌&&◌, ◌-◌, List, [], ◌∷◌,
  ◌++◌, Option, none, some, length, take, drop, leb, ltb, ◌==◌, if◌then◌else◌, arith,
}
use rockcast.Prelude.Bytes.{add64}
use rockcast.Prelude.Order.{lt_wf}

pub data ProtoError : Type 0 where
  truncated bad_varint utf8 missing_payload : ProtoError

-- `Result<_, ProtoError>`, a panic (an index out of range), and `stuck`, which is no value of the
-- program: a loop of the model that ran out of fuel.
pub data Outcome {ℓ} (A : Type ℓ) : Type ℓ where
  ok : A → Outcome A
  err : ProtoError → Outcome A
  panic : Outcome A
  stuck : Outcome A

infixl 5 ◌>>=◌
abbrev pub ◌>>=◌ {ℓ κ} : {A : Type ℓ} {B : Type κ} → Outcome A → (A → Outcome B) → Outcome B
ok a >>= f = f a
err e >>= f = err e
panic >>= f = panic
stuck >>= f = stuck

pub data PayloadType : Type 0 where
  string_type binary_type : PayloadType

pub data Payload : Type 0 where
  string : List ℕ → Payload
  binary : List ℕ → Payload

pub record CastMessage : Type 0 where
  pub source_id : List ℕ
  pub destination_id : List ℕ
  pub namespace : List ℕ
  pub payload : Payload

-- The writers append to `out`. The loop goes on while `v >= 0x80`.
pub shrinks : (v : ℕ) → 127 < v → v / 128 < v
shrinks v h = omega arith

unfoldable pub write_varint_loop : (v : ℕ) → Acc ◌<◌ v → List ℕ → List ℕ
write_varint_loop v (Acc.intro _ smaller) out =
    dite (dec_lt 127 v)
      (λ more.
        write_varint_loop (v / 128) (smaller _ (shrinks v more))
          (out ++ (bit_or (v % 256) 0x80 ∷ [])))
      (λ _. out ++ ((v % 256) ∷ []))

unfoldable pub write_varint : ℕ → List ℕ → List ℕ
write_varint v out = write_varint_loop v (lt_wf.apply v) out

-- `field << 3` of a 64-bit number, and the wire type in the low bits.
unfoldable pub write_key : ℕ → ℕ → List ℕ → List ℕ
write_key field wire out = write_varint (bit_or (field * 8 % 2 ^ 64) wire) out

unfoldable pub write_bytes : ℕ → List ℕ → List ℕ → List ℕ
write_bytes field bytes out = write_varint (length bytes) (write_key field 2 out) ++ bytes

unfoldable pub write_string : ℕ → List ℕ → List ℕ → List ℕ
write_string field s out = write_bytes field s out

unfoldable pub payload_type_code : PayloadType → ℕ
payload_type_code string_type = 0
payload_type_code binary_type = 1

unfoldable pub encode_payload : Payload → List ℕ → List ℕ
encode_payload (string s) out =
    write_string 6 s (write_varint (payload_type_code string_type) (write_key 5 0 out))
encode_payload (binary b) out =
    write_bytes 7 b (write_varint (payload_type_code binary_type) (write_key 5 0 out))

unfoldable pub encode : CastMessage → List ℕ
encode m =
    let version = write_varint 0 (write_key 1 0 []) in
    let source = write_string 2 m.source_id version in
    let destination = write_string 3 m.destination_id source in
    let named = write_string 4 m.namespace destination in encode_payload m.payload named

pub encode_auth_challenge : List ℕ
encode_auth_challenge = write_varint 0 (write_key 1 2 [])

-- `result |= u64::from(b & 0x7f) << shift`
abbrev pub add_group : ℕ → ℕ → ℕ → ℕ
add_group result b shift = bit_or result (bit_and b 0x7f * 2 ^ shift % 2 ^ 64)

-- The list is `buf[i..]`.
pub read_varint_loop : List ℕ → ℕ → ℕ → ℕ → Outcome (ℕ × ℕ)
read_varint_loop [] i result shift = err truncated
read_varint_loop (b ∷ rest) i result shift =
    let next = read_varint_loop rest (i + 1) (add_group result b shift) (shift + 7) in
    if bit_and b 0x80 == 0
    then ok (add_group result b shift, i + 1)
    else if ltb 63 (shift + 7)
    then err bad_varint
    else next

pub read_varint : List ℕ → ℕ → Outcome (ℕ × ℕ)
read_varint buf i = read_varint_loop (drop i buf) i 0 0

-- `i + len` wraps in a release build; the slice `buf[i..i + len]` panics where it ends before it
-- starts. (In a debug build the addition panics itself.)
pub read_bytes : List ℕ → ℕ → Outcome (List ℕ × ℕ)
read_bytes buf i = do
  (len, j) ← read_varint buf i
  if ltb (length buf) (add64 j len)
      then err truncated
      else if ltb (add64 j len) j
      then panic
      else ok (take len (drop j buf), add64 j len)

-- `read_bytes` and `String::from_utf8`.
pub read_text : List ℕ → ℕ → Outcome (List ℕ × ℕ)
read_text buf i = do (s, j) ← read_bytes buf i; if valid_utf8 s then ok (s, j) else err utf8

-- The local variables of `decode`.
pub record Partial : Type 0 where
  pub source_id : List ℕ
  pub destination_id : List ℕ
  pub namespace : List ℕ
  pub payload_type : PayloadType
  pub payload_utf8 : Option (List ℕ)
  pub payload_binary : Option (List ℕ)

abbrev pub blank : Partial
blank = record {
  source_id = [];
  destination_id = [];
  namespace = [];
  payload_type = string_type;
  payload_utf8 = none;
  payload_binary = none;
}

-- `i + n > buf.len()`: an index into a buffer is far below 2 ^ 64.
pub skip_fixed : List ℕ → ℕ → ℕ → Partial → Outcome (Partial × ℕ)
skip_fixed buf n i p = if ltb (length buf) (i + n) then err truncated else ok (p, i + n)

-- The arms of the `match` on a known field number, and those for any other field.
pub decode_unknown : List ℕ → ℕ → ℕ → Partial → Outcome (Partial × ℕ)
decode_unknown buf wire i p =
    if wire == 0
    then (do (v, j) ← read_varint buf i; ok (p, j))
    else if wire == 1
    then skip_fixed buf 8 i p
    else if wire == 2
    then (do (b, j) ← read_bytes buf i; ok (p, j))
    else if wire == 5
    then skip_fixed buf 4 i p
    else err bad_varint

pub decode_field : List ℕ → ℕ → ℕ → ℕ → Partial → Outcome (Partial × ℕ)
decode_field buf field wire i p =
    if field == 2 && wire == 2
    then (do (s, j) ← read_text buf i; ok (record p { source_id = s }, j))
    else if field == 3 && wire == 2
    then (do (s, j) ← read_text buf i; ok (record p { destination_id = s }, j))
    else if field == 4 && wire == 2
    then (do (s, j) ← read_text buf i; ok (record p { namespace = s }, j))
    else if field == 5 && wire == 0
    then (do
      (v, j) ← read_varint buf i
      ok (record p { payload_type = if v == 1 then binary_type else string_type }, j))
    else if field == 6 && wire == 2
    then (do (s, j) ← read_text buf i; ok (record p { payload_utf8 = some s }, j))
    else if field == 7 && wire == 2
    then (do (b, j) ← read_bytes buf i; ok (record p { payload_binary = some b }, j))
    else decode_unknown buf wire i p

-- One turn of the `while` loop: the key, then the field. `(key >> 3) as u32` keeps 32 bits.
pub decode_step : List ℕ → ℕ → Partial → Outcome (Partial × ℕ)
decode_step buf i p = do
  (key, j) ← read_varint buf i
  decode_field buf (key / 8 % 2 ^ 32) (key % 8) j p

-- Each turn takes a byte at least, so `buf.len()` turns are enough (`Totality`).
pub decode_loop : ℕ → List ℕ → ℕ → Partial → Outcome Partial
decode_loop zero buf i p = if ltb i (length buf) then stuck else ok p
decode_loop (suc fuel) buf i p =
    let next = (decode_step buf i p >>= λ r. decode_loop fuel buf r.1 r.0) in
    if ltb i (length buf) then next else ok p

pub finish_payload : Partial → PayloadType → Outcome Payload
finish_payload p string_type = elim p.payload_utf8 [
  | none ↦ err missing_payload
  | some s ↦ ok (string s)
]
finish_payload p binary_type = elim p.payload_binary [
  | none ↦ err missing_payload
  | some b ↦ ok (binary b)
]

pub finish : Partial → Outcome CastMessage
finish p = do
  payload ← finish_payload p p.payload_type
  ok (record {
    source_id = p.source_id;
    destination_id = p.destination_id;
    namespace = p.namespace;
    payload = payload;
  })

pub decode : List ℕ → Outcome CastMessage
decode buf = do p ← decode_loop (length buf) buf 0 blank; finish p

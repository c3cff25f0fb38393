-- ===== src/Cast/Proto/Tests.antt =====
-- Runs of the codec of src/cast/proto.rs.
use rockcast.Cast.Proto.{stuck}
use rockcast.Cast.Proto.Fields.{Item, source, other_number, other_bytes, ItemIsValid}
use rockcast.Cast.Proto.Encode.{payload_bytes, MessageIsValid, decode-encode}
use rockcast.Cast.Proto.Totality.{decode-ne-stuck}
use rockcast.Prelude.{◌≢◌, List, All}
use rockcast.Prelude.{arith}
use rockcast.Prelude.{◌≡◌, refl, [], ◌∷◌}
use native.Mathlib.Decide.{dec_lt}
use rockcast.Prelude.Order.{lt_wf}
use rockcast.Cast.Proto.{
  CastMessage, ok, err, truncated, utf8, string, encode, decode, encode_auth_challenge,
  write_varint, write_varint_loop, write_key, write_bytes, write_string, encode_payload,
  payload_type_code, valid_utf8, decode_loop, decode_step, decode_field, decode_unknown, read_text,
  read_bytes, read_varint, read_varint_loop, skip_fixed, finish, finish_payload,
}

abbrev ping : CastMessage
ping = record {
  source_id = b's' ∷ b'-' ∷ b'0' ∷ [];
  destination_id = b'r' ∷ [];
  namespace = b'n' ∷ b's' ∷ [];
  payload = string (b'P' ∷ b'I' ∷ []);
}

ping_bytes :
    encode ping
    ≡ 8 ∷ 0 ∷ 18 ∷ 3 ∷ b's' ∷ b'-' ∷ b'0' ∷ 26 ∷ 1 ∷ b'r' ∷ 34 ∷ 2 ∷ b'n' ∷ b's' ∷ 40 ∷ 0 ∷ 50 ∷ 2
      ∷ b'P' ∷ b'I' ∷ []
unfolding encode encode_payload write_string write_bytes write_key write_varint write_varint_loop
    payload_type_code lt_wf dec_lt
ping_bytes = refl

ping_back : decode (encode ping) ≡ ok ping
unfolding encode encode_payload write_string write_bytes write_key write_varint write_varint_loop
    payload_type_code lt_wf dec_lt decode decode_loop decode_step decode_field decode_unknown
    read_text read_bytes read_varint read_varint_loop skip_fixed finish finish_payload valid_utf8
ping_back = refl

challenge : encode_auth_challenge ≡ 10 ∷ 0 ∷ []
unfolding encode_auth_challenge write_key write_varint write_varint_loop lt_wf dec_lt
challenge = refl

varint_300 : write_varint 300 (7 ∷ []) ≡ 7 ∷ 172 ∷ 2 ∷ []
unfolding write_varint write_varint_loop lt_wf dec_lt
varint_300 = refl

bad_text : decode (18 ∷ 1 ∷ 0xff ∷ []) ≡ err utf8
unfolding decode decode_loop decode_step decode_field decode_unknown read_text read_bytes
    read_varint read_varint_loop skip_fixed finish finish_payload valid_utf8
bad_text = refl

cut_text : decode (18 ∷ 2 ∷ 0x41 ∷ []) ≡ err truncated
unfolding decode decode_loop decode_step decode_field decode_unknown read_text read_bytes
    read_varint read_varint_loop skip_fixed finish finish_payload valid_utf8
cut_text = refl

-- The theorems at concrete inputs.
ping-valid : MessageIsValid ping
unfolding valid_utf8 payload_bytes
ping-valid = record {
  source_utf8 = refl;
  destination_utf8 = refl;
  namespace_utf8 = refl;
  payload_utf8 = refl;
  size = omega arith;
}

decode-encode_example : decode (encode ping) ≡ ok ping
decode-encode_example = decode-encode ping ping-valid

-- A repeated field, an unknown one, and no payload.
abbrev stray : List Item
stray =
    source (b'a' ∷ []) ∷ other_number 300 7 ∷ source (b'b' ∷ []) ∷ other_bytes 9 (1 ∷ 2 ∷ []) ∷ []

stray-valid : All ItemIsValid stray
unfolding valid_utf8
stray-valid = (refl, (omega arith, (refl, (omega arith, tt))))

reads_300 : read_varint (172 ∷ 2 ∷ []) 0 ≡ ok (300, 2)
unfolding read_varint read_varint_loop
reads_300 = refl

decode-ne-stuck_example : decode (18 ∷ 255 ∷ []) ≢ stuck
decode-ne-stuck_example = decode-ne-stuck (18 ∷ 255 ∷ [])

-- ===== src/Cast/Channel/Tests.antt =====
-- Frames and the inbox of src/cast/channel at concrete messages.
use native.Mathlib.Decide.{dec_lt}
use rockcast.Prelude.{
  ℕ, zero, suc, ◌≤◌, ◌+◌, ◌%◌, Bool, true, false, Option, none, some, List, [], ◌∷◌, ◌++◌, All,
  length, ◌≡◌, ◌≢◌, refl, arith, ◌==◌, if◌then◌else◌,
}
use rockcast.Prelude.Order.{lt_wf}
use rockcast.Cast.Proto.{
  CastMessage, string, encode, encode_payload, payload_type_code, write_string, write_bytes,
  write_key, write_varint, write_varint_loop, valid_utf8,
}
use rockcast.Cast.Proto.Encode.{MessageIsValid, payload_bytes}
use rockcast.Cast.Channel.{
  timed_out, Got, got, error, lull, CastChannel, is_heartbeat, same_bytes, max_message, framed,
  frame_header, read_one, crashed, is_loggable, starts_character, next_request_id,
}
use rockcast.Cast.Channel.Framing.{wire, read_one-framed, read_one_torn}
use rockcast.Cast.Channel.Ids.{after_calls, next_request_id_lem}
use rockcast.Cast.Channel.Receive.{Look, receive_find}
use rockcast.Cast.Channel.Receive.Inbox.{
  Item, arrives, quiet, events_of, AllSendable, kept, Received,
}
use rockcast.Cast.Channel.Receive.Returns.{receive_find_lem}

abbrev message : List ℕ → CastMessage
message text = record {
  source_id = b'r' ∷ [];
  destination_id = b's' ∷ [];
  namespace = b'n' ∷ [];
  payload = string text;
}

abbrev first : CastMessage
first = message (b'1' ∷ [])

abbrev second : CastMessage
second = message (b'2' ∷ [])

first-valid : MessageIsValid first
unfolding valid_utf8 payload_bytes
first-valid = record {
  source_utf8 = refl;
  destination_utf8 = refl;
  namespace_utf8 = refl;
  payload_utf8 = refl;
  size = omega arith;
}

second-valid : MessageIsValid second
unfolding valid_utf8 payload_bytes
second-valid = record {
  source_utf8 = refl;
  destination_utf8 = refl;
  namespace_utf8 = refl;
  payload_utf8 = refl;
  size = omega arith;
}

first_small : length (encode first) ≤ max_message
unfolding encode encode_payload payload_type_code write_string write_bytes write_key write_varint
    write_varint_loop lt_wf dec_lt
first_small = omega arith

second_small : length (encode second) ≤ max_message
unfolding encode encode_payload payload_type_code write_string write_bytes write_key write_varint
    write_varint_loop lt_wf dec_lt
second_small = omega arith

read_one-framed_example :
    read_one (wire (framed first) ++ (lull ∷ []))
    ≡ ((if is_loggable first.payload then got first else crashed), lull ∷ [])
read_one-framed_example = read_one-framed first (lull ∷ []) first-valid first_small

first_bytes :
    encode first
    ≡ (8 ∷ 0 ∷ []) ++ (18 ∷ 1 ∷ b'r' ∷ 26 ∷ 1 ∷ b's' ∷ 34 ∷ 1 ∷ b'n' ∷ 40 ∷ 0 ∷ 50 ∷ 1 ∷ b'1' ∷ [])
unfolding encode encode_payload payload_type_code write_string write_bytes write_key write_varint
    write_varint_loop lt_wf dec_lt
first_bytes = refl

read_one_torn_example :
    read_one (
      wire (frame_header (length (encode first) % 4294967296))
      ++ (wire (8 ∷ 0 ∷ [])
          ++ (lull
              ∷ (wire (18 ∷ 1 ∷ b'r' ∷ 26 ∷ 1 ∷ b's' ∷ 34 ∷ 1 ∷ b'n' ∷ 40 ∷ 0 ∷ 50 ∷ 1 ∷ b'1' ∷ [])
                  ++ []))))
    ≡ (
      error timed_out,
      wire (18 ∷ 1 ∷ b'r' ∷ 26 ∷ 1 ∷ b's' ∷ 34 ∷ 1 ∷ b'n' ∷ 40 ∷ 0 ∷ 50 ∷ 1 ∷ b'1' ∷ []) ++ [],
    )
read_one_torn_example =
    read_one_torn first (8 ∷ 0 ∷ [])
      (18 ∷ 1 ∷ b'r' ∷ 26 ∷ 1 ∷ b's' ∷ 34 ∷ 1 ∷ b'n' ∷ 40 ∷ 0 ∷ 50 ∷ 1 ∷ b'1' ∷ []) [] first_small
      first_bytes (λ e. absurd cc)

-- The caller wants the second message.
wants : List ℕ → Bool
wants [] = false
wants (b ∷ text) = b == 0x32

abbrev choose : CastMessage → Got (Option ℕ)
choose m = got (if wants (payload_bytes m.payload) then some 2 else none)

abbrev items : List Item
items = quiet ∷ arrives first ∷ arrives second ∷ []

abbrev channel : CastChannel
channel = record {
  incoming = events_of items;
  outgoing = [];
  writable = true;
  inbox = [];
  request_id = 1;
}

abbrev look : Look
look = record { is_cancelled = false; is_over = false }

items_sendable : AllSendable items
unfolding AllSendable is_loggable
items_sendable = (
  record { valid = first-valid; small = first_small; loggable = refl },
  (record { valid = second-valid; small = second_small; loggable = refl }, tt),
)

second_wanted : All (λ (m : CastMessage). choose m ≡ got none) ([] ++ kept items) → ⊥
unfolding kept wants payload_bytes is_heartbeat same_bytes
second_wanted h = absurd cc

pong_loggable : is_loggable (string []) ≡ true
unfolding is_loggable
pong_loggable = refl

receive_find_lem_example :
    (c' : CastChannel) × (v : ℕ) × (receive_find
        (λ text. false)
        []
        choose
        (look ∷ look ∷ look ∷ look ∷ [])
        channel
      ≡ (c', some (got v)))
    × Received (λ text. false) [] choose channel.inbox items c' v
receive_find_lem_example =
    receive_find_lem (λ text. false) [] choose (look ∷ look ∷ look ∷ look ∷ []) items channel
      items_sendable refl refl pong_loggable
      (λ m. (if wants (payload_bytes m.payload) then some 2 else none, refl)) second_wanted
      ((refl, refl), ((refl, refl), ((refl, refl), ((refl, refl), tt)))) (omega arith)

next_request_id_lem_example :
    ((next_request_id (after_calls 4294967294 channel)).1 ≢ 0)
    × ((next_request_id (after_calls 4294967294 channel)).1
        ≢ (next_request_id (after_calls (4294967294 + 1) channel)).1)
next_request_id_lem_example =
    next_request_id_lem 4294967294 1 channel (omega arith) (omega arith) (omega arith) (omega arith)

-- A text of 119 letters and a character of two bytes.
abbrev letters : ℕ → List ℕ → List ℕ
letters zero text = text
letters (suc n) text = b'a' ∷ letters n text

cut_character : is_loggable (string (letters 119 (0xd0 ∷ 0xb0 ∷ []))) ≡ false
unfolding is_loggable starts_character
cut_character = refl

whole_characters : is_loggable (string (letters 120 (0xd0 ∷ 0xb0 ∷ []))) ≡ true
unfolding is_loggable starts_character
whole_characters = refl

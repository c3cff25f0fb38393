-- ===== src/Cast/Channel.antt =====
-- Messages on the wire and the inbox of a connection: src/cast/channel/mod.rs and src/cast/channel/recv.rs.
-- Bytes come in one at a time, with lulls in which a read times out; the end of the list is the end of the connection.
pub mod Framing
pub mod Receive
pub mod Ids
mod Tests
use rockcast.Prelude.{
  ℕ, zero, suc, ◌+◌, ◌*◌, ◌/◌, ◌%◌, max, Bool, true, false, not, ◌&&◌, Option, none, some, List, [],
  ◌∷◌, ◌++◌, map, length, ltb, leb, get_elem?, ◌||◌, ◌==◌, if◌then◌else◌,
}
use rockcast.Cast.Proto.{ProtoError, CastMessage, Payload, string, binary, encode, decode}
use rockcast.Cast.Proto as Proto

pub data ChannelError : Type 0 where
  timed_out : ChannelError
  connection_lost : ChannelError
  proto : ProtoError → ChannelError
  oversized : ℕ → ChannelError
  timeout : ChannelError
  cancelled : ChannelError
  message_error : List ℕ → ChannelError

-- `Result<_, ChannelError>`, or a panic.
pub data Got (A : Type 0) : Type 0 where
  got : A → Got A
  error : ChannelError → Got A
  crashed : Got A

pub data Event : Type 0 where
  byte : ℕ → Event
  lull : Event

-- `writable`: whether a write to the stream succeeds.
pub record CastChannel : Type 0 where
  pub incoming : List Event
  pub outgoing : List ℕ
  pub writable : Bool
  pub inbox : List CastMessage
  pub request_id : ℕ

-- `id.wrapping_add(1).max(1)`, of 32 bits, and the id before.
pub next_request_id : CastChannel → CastChannel × ℕ
next_request_id c =
    (record c { request_id = max 1 ((c.request_id + 1) % 4294967296) }, c.request_id)

-- `u32::to_be_bytes`
pub frame_header : ℕ → List ℕ
frame_header len = (len / 16777216) % 256 ∷ (len / 65536) % 256 ∷ (len / 256) % 256 ∷ len % 256 ∷ []

-- `u32::from_be_bytes`, of four bytes.
pub length_of_header : List ℕ → ℕ
length_of_header (a ∷ b ∷ c ∷ d ∷ _) = a * 16777216 + b * 65536 + c * 256 + d
length_of_header _ = 0

pub framed : CastMessage → List ℕ
framed m = let body = encode m in frame_header (length body % 4294967296) ++ body

-- `&s[..120]` panics when byte 120 continues a character.
pub starts_character : Option ℕ → Bool
starts_character none = true
starts_character (some b) = ltb b 128 || leb 192 b

-- Whether `short_payload` returns. It is run for each message, since `init_logging` of src/main.rs logs what the program
-- says at the level of debug, unless the environment sets another.
pub is_loggable : Payload → Bool
is_loggable (binary b) = true
is_loggable (string s) = if ltb 120 (length s) then starts_character (get_elem? s 120) else true

pub after_logging : {A : Type 0} → CastMessage → Got A → Got A
after_logging m r = if is_loggable m.payload then r else crashed

pub send : CastMessage → CastChannel → CastChannel × Got Unit
send m c =
    if c.writable
    then (record c { outgoing = c.outgoing ++ framed m }, after_logging m (got tt))
    else (c, error connection_lost)

-- `read_exact`: the bytes that it has read before an error are gone.
pub read_exact : ℕ → List Event → Got (List ℕ) × List Event
read_exact zero events = (got [], events)
read_exact (suc n) [] = (error connection_lost, [])
read_exact (suc n) (lull ∷ events) = (error timed_out, events)
read_exact (suc n) (byte b ∷ events) =
    let rest = read_exact n events in
    (elim rest.0 [ got bytes ↦ got (b ∷ bytes) | error e ↦ error e | crashed ↦ crashed ], rest.1)

abbrev pub max_message : ℕ
max_message = 2097152

-- `decode` is never stuck.
pub decoded : Proto.Outcome CastMessage → Got CastMessage
decoded (Proto.ok m) = after_logging m (got m)
decoded (Proto.err e) = error (proto e)
decoded Proto.panic = crashed
decoded Proto.stuck = crashed

pub body_read : Got (List ℕ) × List Event → Got CastMessage × List Event
body_read (got bytes, events) = (decoded (decode bytes), events)
body_read (error e, events) = (error e, events)
body_read (crashed, events) = (crashed, events)

pub head_read : Got (List ℕ) × List Event → Got CastMessage × List Event
head_read (got bytes, events) =
    if ltb max_message (length_of_header bytes)
    then (error (oversized (length_of_header bytes)), events)
    else body_read (read_exact (length_of_header bytes) events)
head_read (error e, events) = (error e, events)
head_read (crashed, events) = (crashed, events)

pub read_one : List Event → Got CastMessage × List Event
read_one events = head_read (read_exact 4 events)

abbrev pub sender_id : List ℕ
sender_id = b's' ∷ b'e' ∷ b'n' ∷ b'd' ∷ b'e' ∷ b'r' ∷ b'-' ∷ b'0' ∷ []

abbrev pub cast_receiver_id : List ℕ
cast_receiver_id = b'r' ∷ b'e' ∷ b'c' ∷ b'e' ∷ b'i' ∷ b'v' ∷ b'e' ∷ b'r' ∷ b'-' ∷ b'0' ∷ []

abbrev pub ns_heartbeat : List ℕ
ns_heartbeat =
    b'u' ∷ b'r' ∷ b'n' ∷ b':' ∷ b'x' ∷ b'-' ∷ b'c' ∷ b'a' ∷ b's' ∷ b't' ∷ b':' ∷ b'c' ∷ b'o' ∷ b'm'
    ∷ b'.' ∷ b'g' ∷ b'o' ∷ b'o' ∷ b'g' ∷ b'l' ∷ b'e' ∷ b'.' ∷ b'c' ∷ b'a' ∷ b's' ∷ b't' ∷ b'.'
    ∷ b't' ∷ b'p' ∷ b'.' ∷ b'h' ∷ b'e' ∷ b'a' ∷ b'r' ∷ b't' ∷ b'b' ∷ b'e' ∷ b'a' ∷ b't' ∷ []

pub same_bytes : List ℕ → List ℕ → Bool
same_bytes [] [] = true
same_bytes [] (b ∷ bs) = false
same_bytes (a ∷ as_) [] = false
same_bytes (a ∷ as_) (b ∷ bs) = (a == b) && same_bytes as_ bs

pub is_heartbeat : CastMessage → Bool
is_heartbeat m = same_bytes m.namespace ns_heartbeat

pub pinged : CastChannel × Got Unit → CastChannel × Got Bool
pinged (c, got _) = (c, got true)
pinged (c, error e) = (c, error e)
pinged (c, crashed) = (c, crashed)

-- After a message that is no heartbeat, it is kept.
pub pumped : CastMessage → CastChannel × Got Bool → CastChannel × Got Unit
pumped m (c, got true) = (c, got tt)
pumped m (c, got false) = (record c { inbox = c.inbox ++ (m ∷ []) }, got tt)
pumped m (c, error e) = (c, error e)
pumped m (c, crashed) = (c, crashed)

-- serde's reading of the text `{"type": "PING"}`, and its writing of `{"type": "PONG"}`.
module _ (is_ping : List ℕ → Bool) (pong : List ℕ) where
  pub pong_message : CastMessage
  pong_message = record {
    source_id = sender_id;
    destination_id = cast_receiver_id;
    namespace = ns_heartbeat;
    payload = string pong;
  }

  pub answer_ping : CastChannel → CastChannel × Got Bool
  answer_ping c = pinged (send pong_message c)

  pub heartbeat_payload : Payload → CastChannel → CastChannel × Got Bool
  heartbeat_payload (binary b) c = (c, got true)
  heartbeat_payload (string s) c =
      let sent = answer_ping c in if is_ping s then sent else (c, got true)

  pub handle_heartbeat : CastMessage → CastChannel → CastChannel × Got Bool
  handle_heartbeat m c =
      if not (is_heartbeat m) then (c, got false) else heartbeat_payload m.payload c

  -- `WouldBlock` and `TimedOut` are no errors here.
  pub pump_heartbeats : CastChannel → CastChannel × Got Unit
  pump_heartbeats c =
      let r = read_one c.incoming in
      let heard : CastChannel = record c { incoming = r.1 } in
      elim r.0 [
        | crashed ↦ (heard, crashed)
        | error timed_out ↦ (heard, got tt)
        | error e ↦ (heard, error e)
        | got m ↦ pumped m (handle_heartbeat m heard)
      ]

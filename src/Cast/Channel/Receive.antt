-- ===== src/Cast/Channel/Receive.antt =====
-- `receive_find` of src/cast/channel/recv.rs: the loop that waits for one message and keeps the others.
pub mod Inbox
pub mod First
pub mod Returns
use rockcast.Prelude.{Bool, true, false, Option, none, some, List, [], ◌∷◌, ◌++◌, if◌then◌else◌, ℕ}
use rockcast.Cast.Proto.{CastMessage}
use rockcast.Cast.Channel.{
  ChannelError, timed_out, timeout, cancelled, Got, got, error, crashed, CastChannel, Event,
  read_one, handle_heartbeat,
}

-- What a look at the flag and the clock shows: whether the operation is cancelled, and whether its time is over.
pub record Look : Type 0 where
  pub is_cancelled : Bool
  pub is_over : Bool

-- The caller's function `f`.
module _ {T : Type 0} (f : CastMessage → Got (Option T)) where
  -- The loop over the inbox: what was found, with the inbox without it.
  pub scan_inbox : List CastMessage → Got (Option (T × List CastMessage))
  scan_inbox [] = got none
  scan_inbox (m ∷ inbox) =
      let rest = scan_inbox inbox in
      elim (f m) [
        | error e ↦ error e
        | crashed ↦ crashed
        | got (some v) ↦ got (some (v, inbox))
        | got none ↦ elim rest [
          | error e ↦ error e
          | crashed ↦ crashed
          | got none ↦ got none
          | got (some (v, left)) ↦ got (some (v, m ∷ left))
        ]
      ]

-- How a round of the loop ends.
pub data ReceiveRound (T : Type 0) : Type 0 where
  over : CastChannel → Got T → ReceiveRound T
  again : CastChannel → ReceiveRound T

module _ (is_ping : List ℕ → Bool) (pong : List ℕ) {T : Type 0}
    (f : CastMessage → Got (Option T)) where
  -- A message that is no heartbeat.
  pub offer : CastMessage → CastChannel → ReceiveRound T
  offer m c = elim (f m) [
    | error e ↦ over c (error e)
    | crashed ↦ over c crashed
    | got (some v) ↦ over c (got v)
    | got none ↦ again (record c { inbox = c.inbox ++ (m ∷ []) })
  ]

  pub after_heartbeat : CastMessage → CastChannel × Got Bool → ReceiveRound T
  after_heartbeat m (c, error e) = over c (error e)
  after_heartbeat m (c, crashed) = over c crashed
  after_heartbeat m (c, got true) = again c
  after_heartbeat m (c, got false) = offer m c

  pub after_read : CastChannel → Got CastMessage × List Event → ReceiveRound T
  after_read c (got m, events) =
      after_heartbeat m (handle_heartbeat is_ping pong m (record c { incoming = events }))
  after_read c (error timed_out, events) = again (record c { incoming = events })
  after_read c (error e, events) = over (record c { incoming = events }) (error e)
  after_read c (crashed, events) = over (record c { incoming = events }) crashed

  pub read_round : CastChannel → ReceiveRound T
  read_round c = after_read c (read_one c.incoming)

  pub receive_round : CastChannel → ReceiveRound T
  receive_round c = elim (scan_inbox f c.inbox) [
    | error e ↦ over c (error e)
    | crashed ↦ over c crashed
    | got (some (v, left)) ↦ over (record c { inbox = left }) (got v)
    | got none ↦ read_round c
  ]

  -- With what the looks at the flag and the clock show, in turn; none is left when it has not ended.
  pub receive_find : List Look → CastChannel → CastChannel × Option (Got T)
  receive_find [] c = (c, none)
  receive_find (look ∷ looks) c =
      if look.is_cancelled
      then (c, some (error cancelled))
      else if look.is_over
      then (c, some (error timeout))
      else elim (receive_round c) [
        | over c' result ↦ (c', some result)
        | again c' ↦ receive_find looks c'
      ]

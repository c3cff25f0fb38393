-- ===== src/Cast/Channel/Receive/Returns.antt =====
-- `receive_find` of src/cast/channel/recv.rs comes to an end with a message that is wanted.
use rockcast.Prelude.{
  ℕ, ◌<◌, Bool, true, false, Option, none, some, List, [], ◌∷◌, ◌++◌, All, append-nil, append_assoc,
  length, ◌≡◌, refl, sym, ap, ◌∙◌, arith,
}
use mathlib.Core.Path.{subst}
use rockcast.Cast.Proto.{CastMessage, string}
use rockcast.Cast.Channel.{Got, got, CastChannel, is_loggable}
use rockcast.Cast.Channel.Receive.{Look, ReceiveRound, over, again, receive_round, receive_find}
use rockcast.Cast.Channel.Receive.Inbox.{
  Item, events_of, AllSendable, kept, Received, refused, unwritable, unlogged, ended, Turned,
  failed, found, onward,
}
use rockcast.Cast.Channel.Receive.First.{
  kept-append, AllSendable-ahead, receive_round-Turned, Received-onward,
}

-- The operation is not cancelled and its time is not over.
abbrev pub GoesOn : Look → Type 0
GoesOn look = (look.is_cancelled ≡ false) × (look.is_over ≡ false)

module _ (is_ping : List ℕ → Bool) (pong : List ℕ) {T : Type 0}
    (f : CastMessage → Got (Option T)) where
  -- What a round leads to.
  followed : List Look → ReceiveRound T → CastChannel × Option (Got T)
  followed looks r = elim r [
    | over d result ↦ (d, some result)
    | again d ↦ receive_find is_ping pong f looks d
  ]

  first_look :
      (look : Look) (looks : List Look) (c : CastChannel)
      → GoesOn look
      → receive_find is_ping pong f (look ∷ looks) c
        ≡ followed looks (receive_round is_ping pong f c)
  unfolding receive_find followed
  first_look look looks c g = rw (receive_find, g.0, g.1) refl

  abbrev Ends : List CastMessage → List Item → CastChannel × Option (Got T) → Type 0
  Ends inbox items end =
      (c' : CastChannel) × (v : T) × (end ≡ (c', some (got v)))
      × Received is_ping pong f inbox items c' v

  -- When messages come in that are UTF-8, take at most 2 MiB and have no text of more than 120 bytes whose byte
  -- 120 continues a character, the connection can be written to, the answer to a ping has no such text either, reads
  -- time out only between messages, the caller's function fails on no message, a wanted
  -- message is in the inbox or among those that come in and are no heartbeats, and the operation goes on for
  -- more rounds than messages and lulls come in, then the loop returns the value of the first one that is wanted and
  -- keeps the others.
  pub receive_find_lem :
      (looks : List Look) (items : List Item) (c : CastChannel)
      → AllSendable items
      → c.incoming ≡ events_of items
      → c.writable ≡ true
      → is_loggable (string pong) ≡ true
      → ((m : CastMessage) → (o : Option T) × (f m ≡ got o))
      → (All (λ (m : CastMessage). f m ≡ got none) (c.inbox ++ kept items) → ⊥)
      → All GoesOn looks
      → length items < length looks
      → (c' : CastChannel) × (v : T) × (receive_find is_ping pong f looks c ≡ (c', some (got v)))
        × Received is_ping pong f c.inbox items c' v
  unfolding kept followed
  receive_find_lem [] items c s h w log total wanted on long = absurd (omega arith)
  receive_find_lem (look ∷ looks) items c s h w log total wanted on long =
      subst (Ends c.inbox items) (sym (first_look look looks c on.0)) (
        go (receive_round is_ping pong f c) (receive_round-Turned is_ping pong f items c s h)
          (λ ahead d s' h' w' wanted' long'.
            receive_find_lem looks ahead d s' h' w' log total wanted' on.1 long'))
    where
      go :
          (r : ReceiveRound T)
          → Turned is_ping pong f c.inbox c.writable items r
          → ((ahead : List Item) (d : CastChannel)
              → AllSendable ahead
              → d.incoming ≡ events_of ahead
              → d.writable ≡ true
              → (All (λ (m : CastMessage). f m ≡ got none) (d.inbox ++ kept ahead) → ⊥)
              → length ahead < length looks
              → Ends d.inbox ahead (receive_find is_ping pong f looks d))
          → Ends c.inbox items (followed looks r)
      go _ (failed d r bad (refused m _ never)) later = absurd (never (total m).0 (total m).1)
      go _ (failed d r bad (unwritable _ closed)) later = absurd cc
      go _ (failed d r bad (unlogged _ cut)) later = absurd cc
      go _ (failed d r bad (ended _ none_left passed)) later = absurd (
          wanted (
            subst (All (λ (m : CastMessage). f m ≡ got none))
              (sym (append-nil c.inbox) ∙ ap (λ (l : List Item). c.inbox ++ kept l) (sym none_left))
              passed))
      go _ (found d v rcv) later = (d, v, refl, rcv)
      go _ (onward d used ahead split fewer inc held writable) later =
          let same : (d.inbox ++ kept ahead) ≡ (c.inbox ++ kept items) =
            ap (λ (l : List CastMessage). l ++ kept ahead) held
            ∙ (append_assoc c.inbox (kept used) (kept ahead)
                ∙ ap (λ (l : List CastMessage). c.inbox ++ l)
                    (sym (kept-append used ahead) ∙ ap kept (sym split))) in
          let (c', v, e, rcv) =
            later ahead d (AllSendable-ahead used ahead (subst AllSendable split s)) inc
              (writable ∙ w)
              (λ a. wanted (subst (All (λ (m : CastMessage). f m ≡ got none)) same a))
              (omega arith) in
          (c', v, e, Received-onward is_ping pong f c.inbox items used ahead d c' v split held rcv)

-- ===== src/Cast/Channel/Receive/Inbox.antt =====
-- `receive_find` of src/cast/channel/recv.rs takes the first message that is wanted, and loses none of the others.
use rockcast.Prelude.{
  ℕ, ◌≤◌, ◌<◌, Bool, true, false, Option, none, some, List, [], ◌∷◌, ◌++◌, All, append-nil, length,
  ◌≡◌, ◌≢◌, ◌⊎◌, refl, sym, ap, ◌∙◌, inl, inr, Bool-cases, arith, if◌then◌else◌,
}
use rockcast.Cast.Proto.{CastMessage, Payload, encode, string, binary}
use rockcast.Cast.Proto.Encode.{MessageIsValid}
use rockcast.Cast.Channel.{
  ChannelError, connection_lost, Got, got, error, crashed, Event, lull, CastChannel, framed,
  max_message, is_heartbeat, handle_heartbeat, heartbeat_payload, answer_ping, pinged, pong_message,
  send, is_loggable, after_logging,
}
use rockcast.Cast.Channel.Framing.{wire}
use rockcast.Cast.Channel.Receive.{scan_inbox, ReceiveRound, over, again, offer, after_heartbeat}

-- What comes in when reads time out only between frames.
pub data Item : Type 0 where
  arrives : CastMessage → Item
  quiet : Item

unfoldable pub events_of : List Item → List Event
events_of [] = []
events_of (arrives m ∷ items) = wire (framed m) ++ events_of items
events_of (quiet ∷ items) = lull ∷ events_of items

pub record Sendable (m : CastMessage) : Type 0 where
  pub valid : MessageIsValid m
  pub small : length (encode m) ≤ max_message
  pub loggable : is_loggable m.payload ≡ true

unfoldable pub AllSendable : List Item → Type 0
AllSendable [] = Unit
AllSendable (arrives m ∷ items) = Sendable m × AllSendable items
AllSendable (quiet ∷ items) = AllSendable items

-- The messages that are no heartbeats.
unfoldable pub kept : List Item → List CastMessage
kept [] = []
kept (quiet ∷ items) = kept items
kept (arrives m ∷ items) = let rest = kept items in if is_heartbeat m then rest else m ∷ rest

Got-cases : {A : Type 0} (g : Got A) → ((a : A) × (g ≡ got a)) ⊎ ((a : A) → g ≢ got a)
Got-cases (got a) = inl (a, refl)
Got-cases (error e) = inr (λ a p. absurd cc)
Got-cases crashed = inr (λ a p. absurd cc)

module _ (is_ping : List ℕ → Bool) (pong : List ℕ) {T : Type 0}
    (f : CastMessage → Got (Option T)) where
  PassedOver : List CastMessage → Type 0
  PassedOver ms = All (λ (m : CastMessage). f m ≡ got none) ms

  -- Of these messages the first that is wanted is taken and the others are left, in their order.
  pub record FirstTaken (ms left : List CastMessage) (v : T) : Type 0 where
    pub before : List CastMessage
    pub taken : CastMessage
    pub after : List CastMessage
    pub all : ms ≡ before ++ (taken ∷ after)
    pub rest : left ≡ before ++ after
    pub wanted : f taken ≡ got (some v)
    pub passed : All (λ (m : CastMessage). f m ≡ got none) before

  pub scan-FirstTaken :
      (ms left : List CastMessage) (v : T)
      → scan_inbox f ms ≡ got (some (v, left))
      → FirstTaken ms left v
  unfolding scan_inbox
  scan-FirstTaken [] left v = λ e. absurd cc
  scan-FirstTaken (m ∷ ms) left v = go (f m) (scan_inbox f ms) refl refl (scan-FirstTaken ms)
    where
      go :
          (g : Got (Option T)) (r : Got (Option (T × List CastMessage)))
          → f m ≡ g
          → scan_inbox f ms ≡ r
          → ((l : List CastMessage) (w : T)
              → scan_inbox f ms ≡ got (some (w, l))
              → FirstTaken ms l w)
          → scan_inbox f (m ∷ ms) ≡ got (some (v, left))
          → FirstTaken (m ∷ ms) left v
      go (error e) r a b ih = rw (scan_inbox, a) (λ h. absurd cc)
      go crashed r a b ih = rw (scan_inbox, a) (λ h. absurd cc)
      go (got (some w)) r a b ih =
          rw (scan_inbox, a)
            (λ h. record {
              before = [];
              taken = m;
              after = ms;
              all = refl;
              rest = cc;
              wanted = cc;
              passed = tt;
            })
      go (got none) (error e) a b ih = rw (scan_inbox, a, b) (λ h. absurd cc)
      go (got none) crashed a b ih = rw (scan_inbox, a, b) (λ h. absurd cc)
      go (got none) (got none) a b ih = rw (scan_inbox, a, b) (λ h. absurd cc)
      go (got none) (got (some (w, l))) a b ih =
          rw (scan_inbox, a, b)
            (λ h.
              let d : FirstTaken ms l w = ih l w b in
              let same : w ≡ v = cc in
              let kept_same : (m ∷ l) ≡ left = cc in
              record {
                before = m ∷ d.before;
                taken = d.taken;
                after = d.after;
                all = ap (λ (x : List CastMessage). m ∷ x) d.all;
                rest = sym kept_same ∙ ap (λ (x : List CastMessage). m ∷ x) d.rest;
                wanted = d.wanted ∙ ap (λ (x : T). got (some x)) same;
                passed = (a, d.passed);
              })

  pub scan_nothing :
      (ms : List CastMessage)
      → scan_inbox f ms ≡ got none
      → All (λ (m : CastMessage). f m ≡ got none) ms
  unfolding scan_inbox
  scan_nothing [] = λ e. tt
  scan_nothing (m ∷ ms) = go (f m) (scan_inbox f ms) refl refl (scan_nothing ms)
    where
      go :
          (g : Got (Option T)) (r : Got (Option (T × List CastMessage)))
          → f m ≡ g
          → scan_inbox f ms ≡ r
          → (scan_inbox f ms ≡ got none → All (λ (x : CastMessage). f x ≡ got none) ms)
          → scan_inbox f (m ∷ ms) ≡ got none
          → All (λ (x : CastMessage). f x ≡ got none) (m ∷ ms)
      go (error e) r a b ih = rw (scan_inbox, a) (λ h. absurd cc)
      go crashed r a b ih = rw (scan_inbox, a) (λ h. absurd cc)
      go (got (some w)) r a b ih = rw (scan_inbox, a) (λ h. absurd cc)
      go (got none) (error e) a b ih = rw (scan_inbox, a, b) (λ h. absurd cc)
      go (got none) crashed a b ih = rw (scan_inbox, a, b) (λ h. absurd cc)
      go (got none) (got (some w)) a b ih = rw (scan_inbox, a, b) (λ h. absurd cc)
      go (got none) (got none) a b ih = rw (scan_inbox, a, b) (λ h. (refl, ih b))

  -- A scan that fails has come to a message that the caller's function fails on.
  pub scan_refused :
      (ms : List CastMessage)
      → ((o : Option (T × List CastMessage)) → scan_inbox f ms ≢ got o)
      → (m : CastMessage) × ((o : Option T) → f m ≢ got o)
  unfolding scan_inbox
  scan_refused [] h = absurd (h none refl)
  scan_refused (m ∷ ms) h = go (f m) (scan_inbox f ms) refl refl h (scan_refused ms)
    where
      go :
          (g : Got (Option T)) (r : Got (Option (T × List CastMessage)))
          → f m ≡ g
          → scan_inbox f ms ≡ r
          → ((o : Option (T × List CastMessage)) → scan_inbox f (m ∷ ms) ≢ got o)
          → (((o : Option (T × List CastMessage)) → scan_inbox f ms ≢ got o)
              → (x : CastMessage) × ((o : Option T) → f x ≢ got o))
          → (x : CastMessage) × ((o : Option T) → f x ≢ got o)
      go (error e) r a b h ih = (m, λ o p. absurd cc)
      go crashed r a b h ih = (m, λ o p. absurd cc)
      go (got (some w)) r a b h ih = absurd (h (some (w, ms)) (rw (scan_inbox, a) refl))
      go (got none) (error e) a b h ih = ih (λ o p. absurd cc)
      go (got none) crashed a b h ih = ih (λ o p. absurd cc)
      go (got none) (got none) a b h ih = absurd (h none (rw (scan_inbox, a, b) refl))
      go (got none) (got (some (w, l))) a b h ih =
          absurd (h (some (w, m ∷ l)) (rw (scan_inbox, a, b) refl))

  -- What has been used of the items, and what has been taken of the inbox and of the messages among them.
  pub record Received (inbox : List CastMessage) (items : List Item) (c : CastChannel) (v : T)
      : Type 0 where
    pub used : List Item
    pub ahead : List Item
    pub split : items ≡ used ++ ahead
    pub incoming : c.incoming ≡ events_of ahead
    pub first : FirstTaken (inbox ++ kept used) c.inbox v

  -- Why the loop may end without a value: the caller's function fails on a message, a write fails, the answer to a
  -- ping cannot be logged, or the connection ends.
  pub data Trouble (writable : Bool) (inbox : List CastMessage) : List Item → Type 0 where
    refused :
        (m : CastMessage) (items : List Item)
        → ((o : Option T) → f m ≢ got o)
        → Trouble writable inbox items
    unwritable : (items : List Item) → writable ≡ false → Trouble writable inbox items
    unlogged :
        (items : List Item) → is_loggable (string pong) ≡ false → Trouble writable inbox items
    ended :
        (items : List Item)
        → items ≡ []
        → All (λ (m : CastMessage). f m ≡ got none) inbox
        → Trouble writable inbox items

  -- How a round ends, seen from what it has used of the items.
  pub data Turned (inbox : List CastMessage) (writable : Bool) (items : List Item)
      : ReceiveRound T → Type 0 where
    failed :
        (c : CastChannel) (r : Got T)
        → ((v : T) → r ≢ got v)
        → Trouble writable inbox items
        → Turned inbox writable items (over c r)
    found :
        (c : CastChannel) (v : T)
        → Received inbox items c v
        → Turned inbox writable items (over c (got v))
    onward :
        (c : CastChannel) (used ahead : List Item)
        → items ≡ used ++ ahead
        → length ahead < length items
        → c.incoming ≡ events_of ahead
        → c.inbox ≡ inbox ++ kept used
        → c.writable ≡ writable
        → Turned inbox writable items (again c)

  kept_one : (m : CastMessage) → is_heartbeat m ≡ false → kept (arrives m ∷ []) ≡ m ∷ []
  unfolding kept
  kept_one m h = rw (kept, h) refl

  kept_beat : (m : CastMessage) → is_heartbeat m ≡ true → kept (arrives m ∷ []) ≡ []
  unfolding kept
  kept_beat m h = rw (kept, h) refl

  -- A heartbeat leaves the inbox and what is to be read as they are, or ends the loop.
  data Beaten (c : CastChannel) : CastChannel × Got Bool → Type 0 where
    answered_beat :
        (d : CastChannel)
        → d.inbox ≡ c.inbox
        → d.incoming ≡ c.incoming
        → d.writable ≡ c.writable
        → Beaten c (d, got true)
    broken : (d : CastChannel) (e : ChannelError) → c.writable ≡ false → Beaten c (d, error e)
    unlogged_beat : (d : CastChannel) → is_loggable (string pong) ≡ false → Beaten c (d, crashed)

  answer_ping-Beaten : (c : CastChannel) → Beaten c (answer_ping is_ping pong c)
  unfolding answer_ping send pinged after_logging pong_message
  answer_ping-Beaten c = go c.writable (is_loggable (string pong)) refl refl
    where
      written : CastChannel
      written = record c { outgoing = c.outgoing ++ framed (pong_message is_ping pong) }

      go :
          (w l : Bool)
          → c.writable ≡ w
          → is_loggable (string pong) ≡ l
          → Beaten c (
              pinged (
                if w
                then (
                  record c { outgoing = c.outgoing ++ framed (pong_message is_ping pong) },
                  if l then got tt else crashed,
                )
                else (c, error connection_lost)))
      go true true w l = answered_beat written refl refl refl
      go true false w l = unlogged_beat written l
      go false _ w l = broken c connection_lost w

  heartbeat_payload-Beaten :
      (p : Payload) (c : CastChannel) → Beaten c (heartbeat_payload is_ping pong p c)
  unfolding heartbeat_payload
  heartbeat_payload-Beaten (binary b) c = answered_beat c refl refl refl
  heartbeat_payload-Beaten (string s) c = elim (Bool-cases (is_ping s)) [
    | inl ping ↦ rw (heartbeat_payload, ping) (answer_ping-Beaten c)
    | inr other ↦ rw (heartbeat_payload, other) (answered_beat c refl refl refl)
  ]

  offer-Turned :
      (m : CastMessage) (items : List Item) (c : CastChannel)
      → is_heartbeat m ≡ false
      → c.incoming ≡ events_of items
      → All (λ (x : CastMessage). f x ≡ got none) c.inbox
      → Turned c.inbox c.writable (arrives m ∷ items) (offer is_ping pong f m c)
  unfolding offer
  offer-Turned m items c plain h passed = go (f m) refl
    where
      go :
          (g : Got (Option T))
          → f m ≡ g
          → Turned c.inbox c.writable (arrives m ∷ items) (offer is_ping pong f m c)
      go (error e) a =
          rw (offer, a)
            (failed c (error e) (λ v p. absurd cc)
              (refused m (arrives m ∷ items) (λ o p. absurd cc)))
      go crashed a =
          rw (offer, a)
            (failed c crashed (λ v p. absurd cc) (refused m (arrives m ∷ items) (λ o p. absurd cc)))
      go (got none) a =
          rw (offer, a)
            (onward _ (arrives m ∷ []) items refl (omega arith) h
              (ap (λ (l : List CastMessage). c.inbox ++ l) (sym (kept_one m plain))) refl)
      go (got (some v)) a =
          rw (offer, a)
            (found c v (record {
              used = arrives m ∷ [];
              ahead = items;
              split = refl;
              incoming = h;
              first = record {
                before = c.inbox;
                taken = m;
                after = [];
                all = ap (λ (l : List CastMessage). c.inbox ++ l) (kept_one m plain);
                rest = sym (append-nil c.inbox);
                wanted = a;
                passed = passed;
              };
            }))

  pub after_heartbeat-Turned :
      (m : CastMessage) (items : List Item) (c : CastChannel)
      → c.incoming ≡ events_of items
      → All (λ (x : CastMessage). f x ≡ got none) c.inbox
      → Turned c.inbox c.writable
          (arrives m ∷ items)
          (after_heartbeat is_ping pong f m (handle_heartbeat is_ping pong m c))
  unfolding after_heartbeat handle_heartbeat
  after_heartbeat-Turned m items c h passed = elim (Bool-cases (is_heartbeat m)) [
    | inr plain ↦ rw (handle_heartbeat, plain) (offer-Turned m items c plain h passed)
    | inl beat ↦
        rw (handle_heartbeat, beat)
          (go (heartbeat_payload is_ping pong m.payload c) (heartbeat_payload-Beaten m.payload c)
            beat)
  ]
    where
      go :
          (r : CastChannel × Got Bool)
          → Beaten c r
          → is_heartbeat m ≡ true
          → Turned c.inbox c.writable (arrives m ∷ items) (after_heartbeat is_ping pong f m r)
      go _ (answered_beat d same_inbox same_incoming same_writable) beat =
          onward d (arrives m ∷ []) items refl (omega arith) (same_incoming ∙ h)
            (same_inbox
              ∙ (sym (append-nil c.inbox)
                  ∙ ap (λ (l : List CastMessage). c.inbox ++ l) (sym (kept_beat m beat))))
            same_writable
      go _ (broken d e closed) beat =
          failed d (error e) (λ v p. absurd cc) (unwritable (arrives m ∷ items) closed)
      go _ (unlogged_beat d cut) beat =
          failed d crashed (λ v p. absurd cc) (unlogged (arrives m ∷ items) cut)

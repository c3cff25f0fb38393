-- ===== src/Cast/Channel/Receive/First.antt =====
-- `receive_find` of src/cast/channel/recv.rs as a whole.
use rockcast.Prelude.{
  ℕ, Bool, Option, none, some, List, [], ◌∷◌, ◌++◌, All, append-nil, append_assoc, ◌≡◌, ◌≢◌, refl,
  sym, ap, ◌∙◌, inl, inr, Bool-cases, arith,
}
use mathlib.Core.Path.{subst}
use rockcast.Cast.Proto.{CastMessage}
use rockcast.Cast.Channel.{
  timed_out, connection_lost, Got, got, error, crashed, CastChannel, read_one, read_exact,
  head_read, is_heartbeat,
}
use rockcast.Cast.Channel.Framing.{read_one-framed}
use rockcast.Cast.Channel.Receive.{
  Look, scan_inbox, ReceiveRound, over, again, after_read, read_round, receive_round, receive_find,
}
use rockcast.Cast.Channel.Receive.Inbox.{
  Item, arrives, quiet, events_of, Sendable, AllSendable, kept, FirstTaken, scan-FirstTaken,
  scan_nothing, Received, Trouble, refused, ended, scan_refused, Turned, failed, found, onward,
  after_heartbeat-Turned,
}

pub kept-append : (xs ys : List Item) → kept (xs ++ ys) ≡ kept xs ++ kept ys
unfolding kept
kept-append [] ys = refl
kept-append (quiet ∷ xs) ys = kept-append xs ys
kept-append (arrives m ∷ xs) ys = elim (Bool-cases (is_heartbeat m)) [
  | inl beat ↦ rw (kept, beat) (kept-append xs ys)
  | inr plain ↦ rw (kept, plain) (ap (λ (l : List CastMessage). m ∷ l) (kept-append xs ys))
]

pub AllSendable-ahead : (xs ys : List Item) → AllSendable (xs ++ ys) → AllSendable ys
unfolding AllSendable
AllSendable-ahead [] ys h = h
AllSendable-ahead (quiet ∷ xs) ys h = AllSendable-ahead xs ys h
AllSendable-ahead (arrives m ∷ xs) ys h = AllSendable-ahead xs ys h.1

module _ (is_ping : List ℕ → Bool) (pong : List ℕ) {T : Type 0}
    (f : CastMessage → Got (Option T)) where
  -- A read that finds nothing wanted in the inbox.
  read_round-Turned :
      (items : List Item) (c : CastChannel)
      → AllSendable items
      → c.incoming ≡ events_of items
      → All (λ (x : CastMessage). f x ≡ got none) c.inbox
      → Turned is_ping pong f c.inbox c.writable items (read_round is_ping pong f c)
  unfolding read_round after_read events_of read_one head_read read_exact kept AllSendable
  read_round-Turned [] c s h passed =
      let e : read_one c.incoming ≡ (error connection_lost, []) = ap read_one h in
      subst (λ r. Turned is_ping pong f c.inbox c.writable [] (after_read is_ping pong f c r))
        (sym e)
        (failed (record c { incoming = [] }) (error connection_lost) (λ v p. absurd cc)
          (ended [] refl passed))
  read_round-Turned (quiet ∷ items) c s h passed =
      let e : read_one c.incoming ≡ (error timed_out, events_of items) = ap read_one h in
      subst
        (λ r.
          Turned is_ping pong f c.inbox c.writable (quiet ∷ items) (after_read is_ping pong f c r))
        (sym e)
        (onward (record c { incoming = events_of items }) (quiet ∷ []) items refl (omega arith) refl
          (sym (append-nil c.inbox)) refl)
  read_round-Turned (arrives m ∷ items) c s h passed =
      let sendable : Sendable m = s.0 in
      let e : read_one c.incoming ≡ (got m, events_of items) =
        ap read_one h
        ∙ (read_one-framed m (events_of items) sendable.valid sendable.small
            ∙ rw sendable.loggable refl) in
      subst
        (λ r.
          Turned is_ping pong f c.inbox c.writable (arrives m ∷ items)
            (after_read is_ping pong f c r))
        (sym e)
        (after_heartbeat-Turned is_ping pong f m items (record c { incoming = events_of items })
          refl passed)

  pub receive_round-Turned :
      (items : List Item) (c : CastChannel)
      → AllSendable items
      → c.incoming ≡ events_of items
      → Turned is_ping pong f c.inbox c.writable items (receive_round is_ping pong f c)
  unfolding receive_round kept
  receive_round-Turned items c s h = go (scan_inbox f c.inbox) refl
    where
      trouble :
          ((o : Option (T × List CastMessage)) → scan_inbox f c.inbox ≢ got o)
          → Trouble is_ping pong f c.writable c.inbox items
      trouble h = let m = scan_refused is_ping pong f c.inbox h in refused m.0 items m.1

      go :
          (r : Got (Option (T × List CastMessage)))
          → scan_inbox f c.inbox ≡ r
          → Turned is_ping pong f c.inbox c.writable items (receive_round is_ping pong f c)
      go (error e) a =
          rw (receive_round, a) (failed c (error e) (λ v p. absurd cc) (trouble (λ o p. absurd cc)))
      go crashed a =
          rw (receive_round, a) (failed c crashed (λ v p. absurd cc) (trouble (λ o p. absurd cc)))
      go (got none) a =
          rw (receive_round, a)
            (read_round-Turned items c s h (scan_nothing is_ping pong f c.inbox a))
      go (got (some (v, left))) a =
          rw (receive_round, a)
            (found (record c { inbox = left }) v
              (record {
                used = [];
                ahead = items;
                split = refl;
                incoming = h;
                first =
                    subst (λ (l : List CastMessage). FirstTaken is_ping pong f l left v)
                      (sym (append-nil c.inbox)) (scan-FirstTaken is_ping pong f c.inbox left v a);
              }))

  -- What is received later is received.
  pub Received-onward :
      (inbox : List CastMessage) (items used ahead : List Item) (d c : CastChannel) (v : T)
      → items ≡ used ++ ahead
      → d.inbox ≡ inbox ++ kept used
      → Received is_ping pong f d.inbox ahead c v
      → Received is_ping pong f inbox items c v
  Received-onward inbox items used ahead d c v split held r =
      let same : (d.inbox ++ kept r.used) ≡ (inbox ++ kept (used ++ r.used)) =
        ap (λ (l : List CastMessage). l ++ kept r.used) held
        ∙ (append_assoc inbox (kept used) (kept r.used)
            ∙ ap (λ (l : List CastMessage). inbox ++ l) (sym (kept-append used r.used))) in
      record {
        used = used ++ r.used;
        ahead = r.ahead;
        split =
            split
            ∙ (ap (λ (l : List Item). used ++ l) r.split ∙ sym (append_assoc used r.used r.ahead));
        incoming = r.incoming;
        first =
            subst (λ (l : List CastMessage). FirstTaken is_ping pong f l c.inbox v) same r.first;
      }

  -- When messages whose texts are UTF-8 and which take at most 2 MiB and can be logged come in, and reads time out only between them, and
  -- the loop returns a value, then it is that of the first wanted message among those in the inbox
  -- and those that came in and are no heartbeats, the others of these stand in the inbox in the order in which they
  -- came, and all the rest is still to be read.
  pub receive_find-Received :
      (looks : List Look) (items : List Item) (c c' : CastChannel) (v : T)
      → AllSendable items
      → c.incoming ≡ events_of items
      → receive_find is_ping pong f looks c ≡ (c', some (got v))
      → Received is_ping pong f c.inbox items c' v
  unfolding receive_find
  receive_find-Received [] items c c' v s h = λ e. absurd cc
  receive_find-Received (look ∷ looks) items c c' v s h = elim (Bool-cases look.is_cancelled) [
    | inl stop ↦ rw (receive_find, stop) (λ e. absurd cc)
    | inr on ↦ elim (Bool-cases look.is_over) [
      | inl late ↦ rw (receive_find, on, late) (λ e. absurd cc)
      | inr early ↦
          rw (receive_find, on, early)
            (go (receive_round is_ping pong f c) (receive_round-Turned items c s h)
              (λ ahead d. receive_find-Received looks ahead d c' v))
    ]
  ]
    where
      next : ReceiveRound T → CastChannel × Option (Got T)
      next r = elim r [
        | over d result ↦ (d, some result)
        | again d ↦ receive_find is_ping pong f looks d
      ]

      go :
          (r : ReceiveRound T)
          → Turned is_ping pong f c.inbox c.writable items r
          → ((ahead : List Item) (d : CastChannel)
              → AllSendable ahead
              → d.incoming ≡ events_of ahead
              → receive_find is_ping pong f looks d ≡ (c', some (got v))
              → Received is_ping pong f d.inbox ahead c' v)
          → next r ≡ (c', some (got v))
          → Received is_ping pong f c.inbox items c' v
      go _ (failed d r bad why) later e = absurd (bad v (cc))
      go _ (found d w rcv) later e =
          let a : d ≡ c' = cc in
          let b : w ≡ v = cc in
          subst (λ (x : CastChannel). Received is_ping pong f c.inbox items x v) a
            (subst (λ (y : T). Received is_ping pong f c.inbox items d y) b rcv)
      go _ (onward d used ahead split fewer inc held writable) later e =
          Received-onward c.inbox items used ahead d c' v split held
            (later ahead d (AllSendable-ahead used ahead (subst AllSendable split s)) inc e)

-- ===== src/DeviceControl/State/Latest.antt =====
-- The server's view of the player against the state last published through src/device_control.rs.
use Prim.Native.String.{String, len}
use text.Mathlib.TextEquality.{eq_iff}
use rockcast.Prelude.{
  ℕ, suc, ◌+◌, ◌≤◌, ◌<◌, max, Bool, true, false, not, ◌&&◌, Option, none, some, List, [], ◌∷◌, ◌++◌,
  length, ltb, ◌==◌, ◌≡◌, refl, sym, ap, ◌∙◌, inl, inr, Bool-cases, arith,
}
use rockcast.Prelude.Results.{Result, ok}
use rockcast.DeviceControl.Protocol.{ControlError}
use rockcast.DeviceControl.State.{
  PlayerState, same_text, same_state, PublishedState, max_revision, next_revision,
  advance_published_state, state_is_newer_than, StateSnapshot, Connection, Event, published, ticked,
  resynced, push_full, step, run, open_connection,
}
use rockcast.DeviceControl.State.Steps.{newest, with_revision, push-send, run-step, run-empty}

same_text_sound : (a b : Option String) → same_text a b ≡ true → a ≡ b
unfolding same_text
same_text_sound none none h = refl
same_text_sound (some a) (some b) h = ap some ((eq_iff a b).0 h)
same_text_sound none (some b) h = absurd cc
same_text_sound (some a) none h = absurd cc

same_state_sound : (a b : PlayerState) → same_state a b ≡ true → a ≡ b
unfolding same_state
same_state_sound a b h =
    let p : a.playback_status ≡ b.playback_status =
      (eq_iff a.playback_status b.playback_status).0 (ground arith) in
    let q : a.station_id ≡ b.station_id =
      same_text_sound a.station_id b.station_id (ground arith) in
    let r : a.track_title ≡ b.track_title =
      same_text_sound a.track_title b.track_title (ground arith) in
    let s : a.volume ≡ b.volume = ground arith in
    let t : a.output_mode ≡ b.output_mode = (eq_iff a.output_mode b.output_mode).0 (ground arith) in
    let u : a.receiver_id ≡ b.receiver_id =
      same_text_sound a.receiver_id b.receiver_id (ground arith) in
    cc

-- The state last published, if any was since `state`.
pub latest : List Event → PlayerState → PlayerState
latest [] state = state
latest (published next now ∷ events) state = latest events next
latest (_ ∷ events) state = latest events state

-- No resync, no error of the socket, and the clock can be written.
unfoldable pub is_calm : List Event → Bool
is_calm [] = true
is_calm (published next now ∷ events) = not (len now == 0) && is_calm events
is_calm (ticked none ∷ events) = is_calm events
is_calm (_ ∷ events) = false

record Synced (s : PlayerState) (n : ℕ) (c : Connection) : Type 0 where
  current : PublishedState
  slot_is : c.slot ≡ some current
  stated : current.state ≡ s
  stamped : (len current.observed_at == 0) ≡ false
  positive : 0 < current.revision
  room : current.revision + n ≤ max_revision
  behind : c.sent_revision ≤ current.revision
  shown : c.sent_revision ≡ current.revision → newest c.sent ≡ some s

record Shows (s : PlayerState) (n : ℕ) (r : Result ControlError Connection) : Type 0 where
  after : Connection
  result : r ≡ ok after
  synced : Synced s n after
  newest_is : newest after.sent ≡ some s

push-Shows :
    (s : PlayerState) (n : ℕ) (current : PublishedState) (sent_revision : ℕ)
    (sent : List StateSnapshot)
    → current.state ≡ s
    → (len current.observed_at == 0) ≡ false
    → sent_revision < current.revision
    → current.revision + n ≤ max_revision
    → Shows s n (
        push_full (record { slot = some current; sent_revision = sent_revision; sent = sent }) none)
push-Shows s n current sent_revision sent p stamped less room =
    let exact : max current.revision (next_revision sent_revision) ≡ current.revision =
      omega arith in
    rw (push-send current current.revision sent_revision sent stamped (omega arith) exact) (record {
      after = record {
        slot = some current;
        sent_revision = current.revision;
        sent = with_revision current.revision current ∷ sent;
      };
      result = refl;
      synced = record {
        current = current;
        slot_is = refl;
        stated = p;
        stamped = stamped;
        positive = omega arith;
        room = room;
        behind = omega arith;
        shown = λ e. ap some p;
      };
      newest_is = ap some p;
    })

tick-Shows :
    (s : PlayerState) (n : ℕ) (c : Connection) → Synced s n c → Shows s n (step (ticked none) c)
unfolding step state_is_newer_than
tick-Shows s n c k = elim (Bool-cases (ltb c.sent_revision k.current.revision)) [
  | inl newer ↦
      rw (k.slot_is, newer)
        (push-Shows s n k.current c.sent_revision c.sent k.stated k.stamped (ground arith) k.room)
  | inr old ↦
      rw (k.slot_is, old)
        (record {
          after = record c { slot = some k.current };
          result = refl;
          synced = record {
            current = k.current;
            slot_is = refl;
            stated = k.stated;
            stamped = k.stamped;
            positive = k.positive;
            room = k.room;
            behind = k.behind;
            shown = k.shown;
          };
          newest_is = k.shown (ground (arith, k.behind));
        })
]

publish-Synced :
    (s next : PlayerState) (now : String) (n : ℕ) (c : Connection)
    → (len now == 0) ≡ false
    → Synced s (suc n) c
    → Synced next n (record c { slot = (advance_published_state c.slot next now).0 })
unfolding advance_published_state
publish-Synced s next now n c h k = elim (Bool-cases (same_state k.current.state next)) [
  | inl same ↦
      let unchanged : s ≡ next = sym k.stated ∙ same_state_sound k.current.state next same in
      rw (k.slot_is, same, k.stamped)
        (record {
          current = k.current;
          slot_is = refl;
          stated = same_state_sound k.current.state next same;
          stamped = k.stamped;
          positive = k.positive;
          room = omega (arith, k.room);
          behind = k.behind;
          shown = λ e. k.shown e ∙ ap some unchanged;
        })
  | inr other ↦
      rw (k.slot_is, other)
        (record {
          current = record {
            revision = max (next_revision k.current.revision) 1;
            observed_at = now;
            state = next;
          };
          slot_is = refl;
          stated = refl;
          stamped = h;
          positive = omega arith;
          room = omega (arith, k.room);
          behind = omega (arith, k.behind, k.room);
          shown = λ e. absurd (omega (arith, k.behind, k.room));
        })
]

Synced-fewer : (s : PlayerState) (n : ℕ) (c : Connection) → Synced s (suc n) c → Synced s n c
Synced-fewer s n c k = record {
  current = k.current;
  slot_is = k.slot_is;
  stated = k.stated;
  stamped = k.stamped;
  positive = k.positive;
  room = omega (arith, k.room);
  behind = k.behind;
  shown = k.shown;
}

publish-step :
    (next : PlayerState) (now : String) (c : Connection)
    → step (published next now) c
      ≡ ok (record c { slot = (advance_published_state c.slot next now).0 })
unfolding step
publish-step next now c = refl

-- A run that is calm, then one more tick.
run-Shows :
    (events : List Event) (s : PlayerState) (c : Connection)
    → is_calm events ≡ true
    → Synced s (length events) c
    → Shows (latest events s) 0 (run (events ++ (ticked none ∷ [])) c)
unfolding is_calm latest
run-Shows [] s c h k =
    let t = tick-Shows s 0 c k in
    rw (run-step (ticked none) [] c t.after t.result) (record {
      after = t.after;
      result = run-empty t.after;
      synced = t.synced;
      newest_is = t.newest_is;
    })
run-Shows (published next now ∷ events) s c h k =
    let d : Connection = record c { slot = (advance_published_state c.slot next now).0 } in
    rw (run-step (published next now) (events ++ (ticked none ∷ [])) c d (publish-step next now c))
      (run-Shows events next d (ground arith)
        (publish-Synced s next now (length events) c (ground arith) k))
run-Shows (ticked none ∷ events) s c h k =
    let t = tick-Shows s (length events) c (Synced-fewer s (length events) c k) in
    rw (run-step (ticked none) (events ++ (ticked none ∷ [])) c t.after t.result)
      (run-Shows events s t.after h t.synced)
run-Shows (ticked (some e) ∷ events) s c h k = absurd cc
run-Shows (resynced outcome ∷ events) s c h k = absurd cc

-- A connection opens, and while the clock can be written, the `u64` is not used up, the socket makes no error and
-- the server asks for no resync, however publishing and ticks follow one another, none of it fails, and
-- after one more tick the newest snapshot that was sent holds the state last published.
pub catches_up :
    (current : PublishedState) (events : List Event)
    → (len current.observed_at == 0) ≡ false
    → 0 < current.revision
    → current.revision + length events ≤ max_revision
    → is_calm events ≡ true
    → (c d : Connection) × (open_connection (some current) none ≡ ok c)
      × (run (events ++ (ticked none ∷ [])) c ≡ ok d)
      × (newest d.sent ≡ some (latest events current.state))
unfolding open_connection
catches_up current events stamped positive room calm =
    let o = push-Shows current.state (length events) current 0 [] refl stamped positive room in
    let r = run-Shows events current.state o.after calm o.synced in
    (o.after, r.after, o.result, r.result, r.newest_is)

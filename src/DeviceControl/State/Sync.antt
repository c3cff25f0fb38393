-- ===== src/DeviceControl/State/Sync.antt =====
-- What the server sees of the states that src/device_control.rs publishes.
use mathlib.Core.Path.{subst}
use Prim.Native.String.{String, len}
use rockcast.Prelude.{
  ℕ, suc, ◌+◌, ◌≤◌, ◌<◌, max, not, ◌&&◌, ◌||◌, Option, none, some, List, [], ◌∷◌, length, ◌==◌, ◌≡◌,
  refl, ap, inl, inr, Bool-cases, arith,
}
use rockcast.Prelude.Results.{Result, err, ok}
use rockcast.DeviceControl.Protocol.{ControlError}
use rockcast.DeviceControl.State.{
  PlayerState, same_state, PublishedState, max_revision, next_revision, advance_published_state,
  state_is_newer_than, StateSnapshot, send_full, Connection, Event, published, ticked, resynced,
  deliver, push_full, step, run, open_connection,
}

-- The revisions of what was sent, each above those before it. The index is the newest.
pub data Ascending : ℕ → List StateSnapshot → Type 0 where
  nothing : Ascending 0 []
  another :
      {n : ℕ} (s : StateSnapshot) (sent : List StateSnapshot)
      → n < s.state_revision
      → Ascending n sent
      → Ascending s.state_revision (s ∷ sent)

abbrev IfOk : (Connection → Type 0) → Result ControlError Connection → Type 0
IfOk P (err e) = Unit
IfOk P (ok c) = P c

abbrev pub slot_revision : Option PublishedState → ℕ
slot_revision none = 0
slot_revision (some current) = current.revision

-- Neither the slot nor what was sent is beyond `n`, and what was sent ascends.
record Keeps (n : ℕ) (c : Connection) : Type 0 where
  slot_bound : slot_revision c.slot ≤ n
  sent_bound : c.sent_revision ≤ n
  order : Ascending c.sent_revision c.sent

push-Keeps :
    (n : ℕ) (c : Connection) (outcome : Option ControlError)
    → n < max_revision
    → Keeps n c
    → IfOk (Keeps (suc n)) (push_full c outcome)
unfolding push_full send_full deliver
push-Keeps n c outcome h k = go c.slot refl outcome
  where
    go :
        (slot : Option PublishedState)
        → c.slot ≡ slot
        → (outcome : Option ControlError)
        → let r : Result ControlError Connection = elim (send_full slot c.sent_revision) [
          | err e ↦ err e
          | ok snapshot ↦ deliver c outcome snapshot
        ] in
          IfOk (Keeps (suc n)) r
    go none e outcome = tt
    go (some current) e outcome =
        elim (Bool-cases (current.revision == 0 || len current.observed_at == 0)) [
          | inl bad ↦ rw bad tt
          | inr good ↦ rw good (sends current e outcome)
        ]
      where
        sends :
            (current : PublishedState)
            → c.slot ≡ some current
            → (outcome : Option ControlError)
            → IfOk (Keeps (suc n)) (
                deliver c outcome (record {
                  state_revision = max current.revision (next_revision c.sent_revision);
                  observed_at = current.observed_at;
                  state = current.state;
                }))
        sends current e (some x) = tt
        sends current e none =
            let bound : current.revision ≤ n = omega (arith, k.slot_bound, ap slot_revision e) in
            record {
              slot_bound = omega (arith, k.slot_bound);
              sent_bound = omega (arith, k.sent_bound);
              order =
                  another
                    (record {
                      state_revision = max current.revision (next_revision c.sent_revision);
                      observed_at = current.observed_at;
                      state = current.state;
                    })
                    c.sent (omega (arith, k.sent_bound)) k.order;
            }

publish-le :
    (n : ℕ) (slot : Option PublishedState) (next : PlayerState) (now : String)
    → slot_revision slot ≤ n
    → slot_revision (advance_published_state slot next now).0 ≤ suc n
unfolding advance_published_state
publish-le n none next now h = omega arith
publish-le n (some current) next now h =
    elim (Bool-cases (same_state current.state next && not (len current.observed_at == 0))) [
      | inl same ↦ rw same (omega arith)
      | inr other ↦ rw other (omega arith)
    ]

step-Keeps :
    (e : Event) (n : ℕ) (c : Connection)
    → n < max_revision
    → Keeps n c
    → IfOk (Keeps (suc n)) (step e c)
unfolding step
step-Keeps (published next now) n c h k = record {
  slot_bound = publish-le n c.slot next now k.slot_bound;
  sent_bound = omega (arith, k.sent_bound);
  order = k.order;
}
step-Keeps (ticked outcome) n c h k =
    elim (Bool-cases (state_is_newer_than c.slot c.sent_revision)) [
      | inl newer ↦ rw newer (push-Keeps n c outcome h k)
      | inr old ↦ rw old (record {
        slot_bound = omega (arith, k.slot_bound);
        sent_bound = omega (arith, k.sent_bound);
        order = k.order;
      })
    ]
step-Keeps (resynced outcome) n c h k = push-Keeps n c outcome h k

run-Keeps :
    (events : List Event) (n : ℕ) (c : Connection)
    → n + length events ≤ max_revision
    → Keeps n c
    → IfOk (λ d. Ascending d.sent_revision d.sent) (run events c)
unfolding run
run-Keeps [] n c h k = k.order
run-Keeps (e ∷ events) n c h k =
    go (step e c) (step-Keeps e n c (omega arith) k)
      (λ d j. run-Keeps events (suc n) d (omega arith) j)
  where
    go :
        (r : Result ControlError Connection)
        → IfOk (Keeps (suc n)) r
        → ((d : Connection)
            → Keeps (suc n) d
            → IfOk (λ d. Ascending d.sent_revision d.sent) (run events d))
        → let next : Result ControlError Connection = elim r [
          | err x ↦ err x
          | ok d ↦ run events d
        ] in
          IfOk (λ d. Ascending d.sent_revision d.sent) next
    go (err x) j rest = tt
    go (ok d) j rest = rest d j

-- Over a connection, however publishing, ticks and resyncs follow one another, each snapshot that was sent has a
-- revision above the one before it, and the client's record of the last revision sent is right; while the
-- `u64` is not used up.
pub revisions_ascend :
    (slot : Option PublishedState) (outcome : Option ControlError) (events : List Event)
    (c d : Connection)
    → slot_revision slot + suc (length events) ≤ max_revision
    → open_connection slot outcome ≡ ok c
    → run events c ≡ ok d
    → Ascending d.sent_revision d.sent
unfolding open_connection
revisions_ascend slot outcome events c d h p q =
    let start : Connection = record { slot = slot; sent_revision = 0; sent = [] } in
    let opened : IfOk (Keeps (suc (slot_revision slot))) (ok c) =
      subst (IfOk (Keeps (suc (slot_revision slot)))) p (
        push-Keeps (slot_revision slot) start outcome (omega arith)
          (record { slot_bound = omega arith; sent_bound = omega arith; order = nothing })) in
    subst (IfOk (λ d. Ascending d.sent_revision d.sent)) q
      (run-Keeps events (suc (slot_revision slot)) c (omega arith) opened)

-- ===== src/DeviceControl/State/Resync.antt =====
-- A resync in src/device_control.rs and the state that is published after it.
use Prim.Native.String.{String, len}
use rockcast.Prelude.{
  suc, ◌<◌, max, false, none, some, List, [], ◌∷◌, ltb, ◌==◌, ◌≡◌, refl, ◌∙◌, arith,
}
use rockcast.Prelude.Results.{ok}
use rockcast.DeviceControl.State.{
  PlayerState, same_state, PublishedState, max_revision, next_revision, advance_published_state,
  state_is_newer_than, StateSnapshot, Connection, published, ticked, resynced, step, run,
}
use rockcast.DeviceControl.State.Steps.{newest, push-send, run-step, run-empty}

-- A state that is new, published right after a resync that found everything sent, is not sent by the next tick: the
-- resync has used the revision that it gets. This holds of any state of the slot in which all was sent.
pub resync_hides_change :
    (current : PublishedState) (sent : List StateSnapshot) (next : PlayerState) (now : String)
    → (len current.observed_at == 0) ≡ false
    → 0 < current.revision
    → current.revision < max_revision
    → same_state current.state next ≡ false
    → (d : Connection) × (run
          (resynced none ∷ published next now ∷ ticked none ∷ [])
          (record { slot = some current; sent_revision = current.revision; sent = sent })
        ≡ ok d)
      × (newest d.sent ≡ some current.state)
      × (d.slot
          ≡ some (record { revision = suc current.revision; observed_at = now; state = next }))
unfolding step state_is_newer_than advance_published_state
resync_hides_change current sent next now stamped positive room changed =
    let c : Connection = record {
      slot = some current;
      sent_revision = current.revision;
      sent = sent;
    } in
    let used : max current.revision (next_revision current.revision) ≡ suc current.revision =
      omega arith in
    let given : max (next_revision current.revision) 1 ≡ suc current.revision = omega arith in
    let old : ltb (suc current.revision) (suc current.revision) ≡ false = ground arith in
    let d : Connection = record {
      slot = some current;
      sent_revision = suc current.revision;
      sent =
          record {
            state_revision = suc current.revision;
            observed_at = current.observed_at;
            state = current.state;
          }
          ∷ sent;
    } in
    let e : Connection = record d {
      slot = some (record { revision = suc current.revision; observed_at = now; state = next });
    } in
    let resync : step (resynced none) c ≡ ok d =
      push-send current (suc current.revision) current.revision sent stamped positive used in
    let publish : step (published next now) d ≡ ok e = rw (changed, given) refl in
    let tick : step (ticked none) e ≡ ok e = rw old refl in
    (
      e,
      run-step (resynced none) (published next now ∷ ticked none ∷ []) c d resync
          ∙ run-step (published next now) (ticked none ∷ []) d e publish
          ∙ run-step (ticked none) [] e e tick
          ∙ run-empty e,
      refl,
      refl,
    )

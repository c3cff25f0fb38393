-- ===== src/DeviceControl/State/Steps.antt =====
-- Single steps of a connection in src/device_control.rs.
use Prim.Native.String.{len}
use rockcast.Prelude.{ℕ, ◌<◌, max, false, Option, none, some, List, [], ◌∷◌, ◌==◌, ◌≡◌, refl, arith}
use rockcast.Prelude.Results.{ok}
use rockcast.DeviceControl.State.{
  PlayerState, PublishedState, next_revision, StateSnapshot, send_full, Connection, Event, deliver,
  push_full, step, run,
}

abbrev pub newest : List StateSnapshot → Option PlayerState
newest [] = none
newest (snapshot ∷ sent) = some snapshot.state

abbrev pub with_revision : ℕ → PublishedState → StateSnapshot
with_revision revision current = record {
  state_revision = revision;
  observed_at = current.observed_at;
  state = current.state;
}

pub send_as :
    (current : PublishedState) (revision previous : ℕ)
    → (len current.observed_at == 0) ≡ false
    → 0 < current.revision
    → max current.revision (next_revision previous) ≡ revision
    → send_full (some current) previous ≡ ok (with_revision revision current)
unfolding send_full
send_as current revision previous stamped positive exact =
    let nonzero : (current.revision == 0) ≡ false = ground arith in
    rw (nonzero, stamped, exact) refl

pub push-send :
    (current : PublishedState) (revision sent_revision : ℕ) (sent : List StateSnapshot)
    → (len current.observed_at == 0) ≡ false
    → 0 < current.revision
    → max current.revision (next_revision sent_revision) ≡ revision
    → push_full (record { slot = some current; sent_revision = sent_revision; sent = sent }) none
      ≡ ok (record {
        slot = some current;
        sent_revision = revision;
        sent = with_revision revision current ∷ sent;
      })
unfolding push_full deliver
push-send current revision sent_revision sent stamped positive exact =
    rw (push_full, send_as current revision sent_revision stamped positive exact) refl

pub run-step :
    (e : Event) (events : List Event) (c d : Connection)
    → step e c ≡ ok d
    → run (e ∷ events) c ≡ run events d
unfolding run
run-step e events c d h = rw (run, h) refl

pub run-empty : (c : Connection) → run [] c ≡ ok c
unfolding run
run-empty c = refl

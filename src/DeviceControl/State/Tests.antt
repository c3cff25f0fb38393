-- ===== src/DeviceControl/State/Tests.antt =====
-- States published to a connection of src/device_control.rs.
use rockcast.Prelude.{false, none, some, List, [], ◌∷◌, ◌++◌, ◌≡◌, refl, arith}
use rockcast.Prelude.Results.{ok}
use rockcast.DeviceControl.State.{
  idle_player, starting, same_text, same_state, PublishedState, advance_published_state,
  state_is_newer_than, send_full, Connection, Event, published, ticked, resynced, deliver,
  push_full, step, run, open_connection,
}
use rockcast.DeviceControl.State.Sync.{Ascending, revisions_ascend}
use rockcast.DeviceControl.State.Steps.{newest}
use rockcast.DeviceControl.State.Latest.{is_calm, latest, catches_up}
use rockcast.DeviceControl.State.Resync.{resync_hides_change}

abbrev at_start : PublishedState
at_start = record { revision = 5; observed_at = "t0"; state = idle_player 10 }

abbrev story : List Event
story = published (idle_player 20) "t1" ∷ ticked none ∷ resynced none ∷ []

abbrev opened : Connection
opened = record {
  slot = some at_start;
  sent_revision = 5;
  sent = record { state_revision = 5; observed_at = "t0"; state = idle_player 10 } ∷ [];
}

abbrev told : Connection
told = record {
  slot = some (record { revision = 6; observed_at = "t1"; state = idle_player 20 });
  sent_revision = 7;
  sent =
      record { state_revision = 7; observed_at = "t1"; state = idle_player 20 }
      ∷ record { state_revision = 6; observed_at = "t1"; state = idle_player 20 }
      ∷ record { state_revision = 5; observed_at = "t0"; state = idle_player 10 }
      ∷ [];
}

opens : open_connection (some at_start) none ≡ ok opened
unfolding open_connection push_full send_full deliver
opens = refl

plays : run story opened ≡ ok told
unfolding run step state_is_newer_than push_full send_full deliver advance_published_state
    same_state same_text
plays = refl

-- The first state after a start takes the revision after the one that was stored.
first_state : (advance_published_state (some (starting 41)) (idle_player 0) "t0").1 ≡ some 42
unfolding advance_published_state same_state same_text
first_state = refl

changed : same_state (idle_player 10) (idle_player 20) ≡ false
unfolding same_state same_text
changed = refl

revisions_ascend_example : Ascending told.sent_revision told.sent
revisions_ascend_example =
    revisions_ascend (some at_start) none story opened told (omega arith) opens plays

catches_up_example :
    (c d : Connection) × (open_connection (some at_start) none ≡ ok c)
    × (run
          ((published (idle_player 20) "t1" ∷ ticked none ∷ published (idle_player 30) "t2" ∷ [])
            ++ (ticked none ∷ []))
          c
        ≡ ok d)
    × (newest d.sent
        ≡ some (
            latest
              (published (idle_player 20) "t1" ∷ ticked none ∷ published (idle_player 30) "t2" ∷ [])
              (idle_player 10)))
unfolding is_calm
catches_up_example =
    catches_up at_start
      (published (idle_player 20) "t1" ∷ ticked none ∷ published (idle_player 30) "t2" ∷ []) refl
      (omega arith) (omega arith) refl

resync_hides_change_example :
    (d : Connection) × (run
        (resynced none ∷ published (idle_player 20) "t1" ∷ ticked none ∷ [])
        opened
      ≡ ok d)
    × (newest d.sent ≡ some (idle_player 10))
    × (d.slot ≡ some (record { revision = 6; observed_at = "t1"; state = idle_player 20 }))
resync_hides_change_example =
    resync_hides_change at_start opened.sent (idle_player 20) "t1" refl (omega arith) (omega arith)
      changed

-- ===== src/DeviceControl/Book/Tests.antt =====
-- Commands in the book of src/device_control.rs.
use rockcast.Prelude.{none, [], ◌∷◌, ◌≡◌, ◌≢◌, refl, arith}
use rockcast.Prelude.Maps.{mem, lookup, insert, remove, keys}
use rockcast.DeviceControl.Protocol.{stop, pause, DeviceCommand, CommandResult, failed}
use rockcast.DeviceControl.Book.{
  new, evict, complete, take_command, resend, refused, accepted, silent, command_is_advertised,
  admit, recall, receive, mark, mark_delivered, pending, received, taken, ended, delivered, turn,
  run,
}
use rockcast.DeviceControl.Book.Shape.{IsWellFormed, new-IsWellFormed, run-IsWellFormed}
use rockcast.DeviceControl.Book.Window.{completions, accepted_once}

abbrev halt : DeviceCommand
halt = record { id = 7; command = stop }

abbrev done : CommandResult
done = record { error = none; output = none }

first : (receive halt new).1 ≡ accepted
unfolding new receive command_is_advertised recall admit mem lookup keys
first = refl

repeated : (receive halt (run (received halt ∷ taken ∷ ended 7 done ∷ []) new)).1 ≡ resend done
unfolding new receive command_is_advertised recall admit run turn take_command complete evict mem
    lookup keys insert remove
repeated = refl

told : (receive halt (run (received halt ∷ taken ∷ ended 7 done ∷ delivered 7 ∷ []) new)).1 ≡ silent
unfolding new receive command_is_advertised recall admit run turn take_command complete evict
    mark_delivered mark mem lookup keys insert remove
told = refl

still_pending :
    pending (run (received halt ∷ taken ∷ ended 7 done ∷ []) new).completed ≡ (7, done) ∷ []
unfolding new receive command_is_advertised recall admit run turn take_command complete evict
    pending mem lookup keys insert remove
still_pending = refl

not_advertised :
    (receive (record { id = 8; command = pause }) new).1
    ≡ refused (failed "capability_not_supported" "Command is not supported by this player")
unfolding receive command_is_advertised
not_advertised = refl

run-IsWellFormed_example : IsWellFormed (run (received halt ∷ taken ∷ ended 7 done ∷ []) new)
run-IsWellFormed_example =
    run-IsWellFormed (received halt ∷ taken ∷ ended 7 done ∷ []) new new-IsWellFormed

accepted_once_example :
    (receive halt (run (taken ∷ ended 7 done ∷ delivered 7 ∷ []) (receive halt new).0)).1 ≢ accepted
unfolding completions
accepted_once_example =
    accepted_once halt halt (taken ∷ ended 7 done ∷ delivered 7 ∷ []) new new-IsWellFormed first
      (omega arith) refl

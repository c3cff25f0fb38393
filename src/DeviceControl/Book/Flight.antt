-- ===== src/DeviceControl/Book/Flight.antt =====
-- Which commands of src/device_control.rs are taken and not yet completed.
use rockcast.Prelude.{
  ℕ, true, false, not, ◌&&◌, ◌||◌, some, ◌≡◌, refl, inl, inr, List-cases, Option-cases, Bool-cases,
  arith, ◌==◌,
}
use rockcast.Prelude.Maps.{mem, lookup, keys, mem-keys-insert, mem-keys-remove}
use rockcast.DeviceControl.Protocol.{DeviceCommand, CommandResult}
use rockcast.DeviceControl.Book.{
  CommandBook, complete, take_command, receive, recall, admit, mark, mark_delivered,
}

pub mem-complete :
    (k id : ℕ) (result : CommandResult) (b : CommandBook)
    → mem k (keys (complete id result b).in_flight) ≡ (not (id == k) && mem k (keys b.in_flight))
unfolding complete
mem-complete k id result b = elim (Bool-cases (mem id (keys b.in_flight))) [
  | inl there ↦ rw (complete, there) (mem-keys-remove id k b.in_flight)
  | inr absent ↦
      rw (complete, absent)
        (elim (Bool-cases (id == k)) [
          | inl same ↦
              let e : id ≡ k = ground (arith, same) in
              let away : mem k (keys b.in_flight) ≡ false = cc in rw (same, away) refl
          | inr other ↦ rw other refl
        ])
]

pub mem-take :
    (k : ℕ) (command : DeviceCommand) (b : CommandBook)
    → (take_command b).1 ≡ some command
    → mem k (keys (take_command b).0.in_flight) ≡ (command.id == k || mem k (keys b.in_flight))
unfolding take_command
mem-take k command b = elim (List-cases b.queued) [
  | inl nothing ↦ rw (take_command, nothing) (λ e. absurd cc)
  | inr (c, rest, there) ↦
      rw (take_command, there)
        (λ e. let y : command ≡ c = cc in rw y (mem-keys-insert c.id k c b.in_flight))
]

pub in_flight-receive :
    (command : DeviceCommand) (b : CommandBook) → (receive command b).0.in_flight ≡ b.in_flight
unfolding receive recall admit
in_flight-receive command b = elim (Option-cases (lookup command.id b.completed)) [
  | inl new ↦ rw (receive, new) (ground arith)
  | inr ((result, true), old) ↦ rw (receive, old) (ground arith)
  | inr ((result, false), old) ↦ rw (receive, old) (ground arith)
]

pub in_flight-mark : (id : ℕ) (b : CommandBook) → (mark_delivered id b).in_flight ≡ b.in_flight
unfolding mark_delivered mark
in_flight-mark id b = elim (Option-cases (lookup id b.completed)) [
  | inl none_kept ↦ rw (mark_delivered, none_kept) refl
  | inr ((result, sent), kept) ↦ rw (mark_delivered, kept) refl
]

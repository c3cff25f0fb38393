-- ===== src/DeviceControl/Book/Window.antt =====
-- How long src/device_control.rs remembers a command that it accepted.
use rockcast.Prelude.{
  ℕ, suc, ◌+◌, ◌≤◌, Bool, true, false, ◌||◌, Option, none, some, List, [], ◌∷◌, ◌++◌, length, leb,
  ◌≡◌, ◌≢◌, ◌⊎◌, refl, inl, inr, Bool-cases, arith,
}
use rockcast.Prelude.Maps.{mem, lookup, keys, mem-append, mem-keys-lookup}
use rockcast.DeviceControl.Protocol.{DeviceCommand, CommandResult}
use rockcast.DeviceControl.Book.{
  CommandBook, ids, complete, take_command, accepted, command_is_advertised, admit, recall, receive,
  mark_delivered, Turn, received, taken, ended, delivered, turn, run, max_deduped_commands,
  max_pending_commands,
}
use rockcast.DeviceControl.Book.Shape.{
  IsWellFormed, ids-append, receive-IsWellFormed, take-IsWellFormed, complete-IsWellFormed,
  mark-IsWellFormed, run-IsWellFormed,
}
use rockcast.DeviceControl.Book.Kept.{
  Held, waiting, working, kept, Held-complete, Held-receive, Held-take, Held-mark, Held-fewer,
}

-- The completions among some turns.
unfoldable pub completions : List Turn → ℕ
completions [] = 0
completions (ended id r ∷ turns) = suc (completions turns)
completions (_ ∷ turns) = completions turns

Held-run :
    (id n : ℕ) (turns : List Turn) (b : CommandBook)
    → IsWellFormed b
    → Held id (completions turns + n) b
    → Held id n (run turns b)
unfolding run turn completions
Held-run id n [] b w held = Held-fewer id (completions [] + n) n b (omega arith) held
Held-run id n (received c ∷ turns) b w held =
    Held-run id n turns (receive c b).0 (receive-IsWellFormed c b w)
      (Held-receive id (completions turns + n) c b held)
Held-run id n (taken ∷ turns) b w held =
    Held-run id n turns (take_command b).0 (take-IsWellFormed b w)
      (Held-take id (completions turns + n) b held)
Held-run id n (ended j r ∷ turns) b w held =
    Held-run id n turns (complete j r b) (complete-IsWellFormed j r b w)
      (Held-complete id (completions turns + n) j r b w (rw (← suc_sum (completions turns)) held))
  where
    suc_sum : (m : ℕ) → suc m + n ≡ suc (m + n)
    suc_sum m = omega arith
Held-run id n (delivered j ∷ turns) b w held =
    Held-run id n turns (mark_delivered j b) (mark-IsWellFormed j b w)
      (Held-mark id (completions turns + n) j b held)

mem-middle : (id : ℕ) (older newer : List ℕ) → mem id (older ++ (id ∷ newer)) ≡ true
unfolding mem
mem-middle id [] newer = ground arith
mem-middle id (x ∷ older) newer = ground (arith, mem-middle id older newer)

places_present :
    (id n : ℕ) (b : CommandBook)
    → IsWellFormed b
    → Held id n b
    → ((mem id (keys b.in_flight) || mem id (ids b.queued)) ≡ true)
      ⊎ (mem id (keys b.completed) ≡ true)
places_present id n b w (waiting q h) = inl (ground arith)
places_present id n b w (working f h) = inl (ground arith)
places_present id n b w (kept r) = inr (rw (w.same_ids, r.place) (mem-middle id r.older r.newer))

Held-refuses :
    (again : DeviceCommand) (b : CommandBook)
    → IsWellFormed b
    → Held again.id 0 b
    → (receive again b).1 ≢ accepted
unfolding receive recall admit mem
Held-refuses again b w held = elim (Bool-cases (command_is_advertised again.command)) [
  | inr other ↦ rw other (λ e. cc)
  | inl known ↦ elim (Bool-cases (mem again.id (keys b.in_flight) || mem again.id (ids b.queued))) [
    | inl present ↦ rw (known, present) (λ e. cc)
    | inr absent ↦
        let there : mem again.id (keys b.completed) ≡ true =
          elim (places_present again.id 0 b w held) [
            | inl present ↦ absurd (ground arith)
            | inr completed ↦ completed
          ] in
        rw (known, absent) (recalled (lookup again.id b.completed) refl there)
  ]
]
  where
    recalled :
        (o : Option (CommandResult × Bool))
        → lookup again.id b.completed ≡ o
        → mem again.id (keys b.completed) ≡ true
        → (recall again o b).1 ≢ accepted
    recalled none e there = absurd (ground (arith, mem-keys-lookup again.id b.completed e))
    recalled (some (r, true)) e there = λ x. cc
    recalled (some (r, false)) e there = λ x. cc

Held-accepted :
    (command : DeviceCommand) (b : CommandBook)
    → (receive command b).1 ≡ accepted
    → Held command.id max_deduped_commands (receive command b).0
unfolding receive recall admit mem
Held-accepted command b = elim (Bool-cases (command_is_advertised command.command)) [
  | inr other ↦ rw other (λ e. absurd cc)
  | inl known ↦
      elim (Bool-cases (mem command.id (keys b.in_flight) || mem command.id (ids b.queued))) [
        | inl present ↦ rw (known, present) (λ e. absurd cc)
        | inr absent ↦ rw (known, absent) (recalled (lookup command.id b.completed))
      ]
]
  where
    queue : Held command.id max_deduped_commands (record b { queued = b.queued ++ (command ∷ []) })
    queue =
        waiting
          (rw
            (
              ids-append b.queued (command ∷ []),
              mem-append command.id (ids b.queued) (command.id ∷ []),
            )
            (mem-end (mem command.id (ids b.queued))))
          (omega arith)
      where
        mem-end : (x : Bool) → (x || mem command.id (command.id ∷ [])) ≡ true
        mem-end x = ground arith

    recalled :
        (o : Option (CommandResult × Bool))
        → (recall command o b).1 ≡ accepted
        → Held command.id max_deduped_commands (recall command o b).0
    recalled (some (r, true)) = λ x. absurd cc
    recalled (some (r, false)) = λ x. absurd cc
    recalled none =
        elim (Bool-cases (leb max_pending_commands (length b.queued + length b.in_flight))) [
          | inl full ↦ rw full (λ e. absurd cc)
          | inr room ↦ rw room (λ e. queue)
        ]

-- After a well-formed book accepted a command, and however the threads took turns since then, no command
-- with that id is accepted, until more than 64 commands were completed.
pub accepted_once :
    (command again : DeviceCommand) (turns : List Turn) (b : CommandBook)
    → IsWellFormed b
    → (receive command b).1 ≡ accepted
    → completions turns ≤ max_deduped_commands
    → again.id ≡ command.id
    → (receive again (run turns (receive command b).0)).1 ≢ accepted
accepted_once command again turns b w h few same =
    let start : IsWellFormed (receive command b).0 = receive-IsWellFormed command b w in
    let held : Held command.id (completions turns + 0) (receive command b).0 =
      Held-fewer command.id max_deduped_commands (completions turns + 0) (receive command b).0
        (omega arith) (Held-accepted command b h) in
    Held-refuses again (run turns (receive command b).0)
      (run-IsWellFormed turns (receive command b).0 start)
      (rw same (Held-run command.id 0 turns (receive command b).0 start held))

-- ===== src/DeviceControl/Book/Kept.antt =====
-- A command that src/device_control.rs accepted stays in the book through each turn.
use rockcast.Prelude.{
  ℕ, suc, ◌+◌, ◌-◌, ◌≤◌, ◌<◌, Bool, true, false, ◌||◌, Option, none, some, List, [], ◌∷◌, ◌++◌,
  append_assoc, length, length-append, drop, ltb, leb, ◌==◌, ◌≡◌, refl, ap, ◌∙◌, inl, inr,
  Bool-cases, arith,
}
use rockcast.Prelude.Maps.{
  mem, lookup, insert, remove, keys, mem-append, mem-keys-insert, mem-keys-remove,
}
use rockcast.DeviceControl.Protocol.{DeviceCommand, CommandResult}
use rockcast.DeviceControl.Book.{
  CommandBook, ids, evict, complete, take_command, command_is_advertised, admit, recall, receive,
  mark, mark_delivered, max_deduped_commands, max_pending_commands,
}
use rockcast.DeviceControl.Book.Shape.{IsWellFormed, ids-append, evict-drop}

-- Among the results kept, with room for `n` more completions before it is the one let go.
pub record Recent (id n : ℕ) (order : List ℕ) : Type 0 where
  pub older : List ℕ
  pub newer : List ℕ
  pub place : order ≡ older ++ (id ∷ newer)
  pub room : length newer + n < max_deduped_commands

-- Still in the book, and so for `n` more completions.
pub data Held (id n : ℕ) (b : CommandBook) : Type 0 where
  waiting : mem id (ids b.queued) ≡ true → n ≤ max_deduped_commands → Held id n b
  working : mem id (keys b.in_flight) ≡ true → n ≤ max_deduped_commands → Held id n b
  kept : Recent id n b.completed_order → Held id n b

drop_one :
    (id n j : ℕ) (older newer : List ℕ)
    → max_deduped_commands ≤ length (older ++ (id ∷ newer))
    → length newer + suc n < max_deduped_commands
    → Recent id n (drop 1 ((older ++ (id ∷ newer)) ++ (j ∷ [])))
drop_one id n j [] newer full h = absurd (omega arith)
drop_one id n j (o ∷ older) newer full h = record {
  older = older;
  newer = newer ++ (j ∷ []);
  place = append_assoc older (id ∷ newer) (j ∷ []);
  room = omega (arith, length-append newer (j ∷ []));
}

-- One more result is kept; the oldest goes if there is no room.
Recent-push :
    (id n j : ℕ) (order : List ℕ)
    → length order ≤ max_deduped_commands
    → Recent id (suc n) order
    → Recent id n (drop (length (order ++ (j ∷ [])) - max_deduped_commands) (order ++ (j ∷ [])))
Recent-push id n j order fits r = elim (Bool-cases (ltb (length order) max_deduped_commands)) [
  | inl less ↦
      let none_over : length (order ++ (j ∷ [])) - max_deduped_commands ≡ 0 =
        ground (arith, length-append order (j ∷ [])) in
      rw none_over (record {
        older = r.older;
        newer = r.newer ++ (j ∷ []);
        place = ap (λ xs. xs ++ (j ∷ [])) r.place ∙ append_assoc r.older (id ∷ r.newer) (j ∷ []);
        room = omega (arith, r.room, length-append r.newer (j ∷ []));
      })
  | inr full ↦
      let one_over : length (order ++ (j ∷ [])) - max_deduped_commands ≡ 1 =
        ground (arith, length-append order (j ∷ [])) in
      let long : max_deduped_commands ≤ length (r.older ++ (id ∷ r.newer)) =
        ground (arith, ap length r.place) in
      rw (one_over, r.place) (drop_one id n j r.older r.newer long r.room)
]

Recent-new :
    (id n : ℕ) (order : List ℕ)
    → length order ≤ max_deduped_commands
    → n < max_deduped_commands
    → Recent id n (drop (length (order ++ (id ∷ [])) - max_deduped_commands) (order ++ (id ∷ [])))
Recent-new id n order fits h = elim (Bool-cases (ltb (length order) max_deduped_commands)) [
  | inl less ↦
      let none_over : length (order ++ (id ∷ [])) - max_deduped_commands ≡ 0 =
        ground (arith, length-append order (id ∷ [])) in
      rw none_over (record { older = order; newer = []; place = refl; room = omega arith })
  | inr full ↦
      let one_over : length (order ++ (id ∷ [])) - max_deduped_commands ≡ 1 =
        ground (arith, length-append order (id ∷ [])) in
      rw one_over (drop_last order (ground arith))
]
  where
    drop_last :
        (xs : List ℕ) → max_deduped_commands ≤ length xs → Recent id n (drop 1 (xs ++ (id ∷ [])))
    drop_last [] e = absurd (omega arith)
    drop_last (x ∷ xs) e = record { older = xs; newer = []; place = refl; room = omega arith }

pub Held-complete :
    (id n j : ℕ) (r : CommandResult) (b : CommandBook)
    → IsWellFormed b
    → Held id (suc n) b
    → Held id n (complete j r b)
unfolding complete
Held-complete id n j r b w held = elim (Bool-cases (mem j (keys b.in_flight))) [
  | inr unknown ↦ rw unknown (idle held)
  | inl known ↦ rw known (busy held)
]
  where
    idle : Held id (suc n) b → Held id n b
    idle (waiting q h) = waiting q (omega arith)
    idle (working f h) = working f (omega arith)
    idle (kept c) =
        kept (record {
          older = c.older;
          newer = c.newer;
          place = c.place;
          room = omega (arith, c.room);
        })

    after : CommandBook
    after =
        let result = evict (b.completed_order ++ (j ∷ [])) (insert j (r, false) b.completed) in
        record b {
          in_flight = remove j b.in_flight;
          completed = result.1;
          completed_order = result.0;
        }

    busy : Held id (suc n) b → Held id n after
    busy (waiting q h) = waiting q (omega arith)
    busy (working f h) = elim (Bool-cases (j == id)) [
      | inl same ↦
          let is : j ≡ id = ground arith in
          kept (
            rw (evict-drop (b.completed_order ++ (j ∷ [])) (insert j (r, false) b.completed), is)
              (Recent-new id n b.completed_order w.kept_bound (omega arith)))
      | inr other ↦ working (ground (arith, mem-keys-remove j id b.in_flight)) (omega arith)
    ]
    busy (kept c) = kept (
        rw (evict-drop (b.completed_order ++ (j ∷ [])) (insert j (r, false) b.completed))
          (Recent-push id n j b.completed_order w.kept_bound c))

pub Held-receive :
    (id n : ℕ) (command : DeviceCommand) (b : CommandBook)
    → Held id n b
    → Held id n (receive command b).0
unfolding receive recall admit
Held-receive id n command b held = elim (Bool-cases (command_is_advertised command.command)) [
  | inr other ↦ rw other held
  | inl known ↦
      elim (Bool-cases (mem command.id (keys b.in_flight) || mem command.id (ids b.queued))) [
        | inl present ↦ rw (known, present) held
        | inr absent ↦ rw (known, absent) (recalled (lookup command.id b.completed))
      ]
]
  where
    queue : Held id n b → Held id n (record b { queued = b.queued ++ (command ∷ []) })
    queue (waiting q h) =
        waiting
          (rw (ids-append b.queued (command ∷ []))
            (ground (arith, mem-append id (ids b.queued) (command.id ∷ []))))
          h
    queue (working f h) = working f h
    queue (kept c) = kept c

    recalled : (o : Option (CommandResult × Bool)) → Held id n (recall command o b).0
    recalled (some (r, true)) = held
    recalled (some (r, false)) = held
    recalled none =
        elim (Bool-cases (leb max_pending_commands (length b.queued + length b.in_flight))) [
          | inl full ↦ rw full held
          | inr room ↦ rw room (queue held)
        ]

pub Held-take : (id n : ℕ) (b : CommandBook) → Held id n b → Held id n (take_command b).0
unfolding take_command mem
Held-take id n b held = go b.queued refl
  where
    moved : (c : DeviceCommand) (rest : List DeviceCommand) → CommandBook
    moved c rest = record b { queued = rest; in_flight = insert c.id c b.in_flight }

    move :
        (c : DeviceCommand) (rest : List DeviceCommand)
        → b.queued ≡ c ∷ rest
        → Held id n b
        → Held id n (moved c rest)
    move c rest e (waiting q h) = elim (Bool-cases (c.id == id)) [
      | inl here ↦ working (ground (arith, mem-keys-insert c.id id c b.in_flight)) h
      | inr there ↦ waiting (ground (arith, ap (λ t. mem id (ids t)) e)) h
    ]
    move c rest e (working f h) = working (ground (arith, mem-keys-insert c.id id c b.in_flight)) h
    move c rest e (kept r) = kept r

    go :
        (q : List DeviceCommand)
        → b.queued ≡ q
        → let result : CommandBook × Option DeviceCommand = elim q [
          | [] ↦ (b, none)
          | command ∷ rest ↦ (
            record b { queued = rest; in_flight = insert command.id command b.in_flight },
            some command,
          )
        ] in
          Held id n result.0
    go [] e = held
    go (c ∷ rest) e = move c rest e held

pub Held-mark : (id n j : ℕ) (b : CommandBook) → Held id n b → Held id n (mark_delivered j b)
unfolding mark_delivered mark
Held-mark id n j b held = go (lookup j b.completed)
  where
    go : (o : Option (CommandResult × Bool)) → Held id n (mark o j b)
    go none = held
    go (some (r, d)) = elim held [
      | waiting q h ↦ waiting q h
      | working f h ↦ working f h
      | kept c ↦ kept c
    ]

pub Held-fewer : (id n m : ℕ) (b : CommandBook) → m ≤ n → Held id n b → Held id m b
Held-fewer id n m b h (waiting q k) = waiting q (omega arith)
Held-fewer id n m b h (working f k) = working f (omega arith)
Held-fewer id n m b h (kept c) =
    kept
      (record { older = c.older; newer = c.newer; place = c.place; room = omega (arith, c.room) })

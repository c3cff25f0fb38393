-- ===== src/DeviceControl/Book/Shape.antt =====
-- The command book of src/device_control.rs: each id in one place, and the bounds.
use rockcast.Prelude.{
  ℕ, zero, suc, ◌+◌, ◌-◌, ◌≤◌, ◌<◌, Bool, true, false, ◌||◌, Option, none, some, List, [], ◌∷◌,
  ◌++◌, length, length-append, length-drop, drop, ltb, leb, ◌==◌, if◌then◌else◌, ◌≡◌, refl, ap, ◌∙◌,
  inl, inr, Bool-cases, arith,
}
use rockcast.Prelude.Maps.{
  mem, lookup, insert, remove, keys, count, count-append, count-mem, count_absent, mem_absent,
  keys-insert_new, keys-insert_old, remove_absent, mem-keys-lookup, mem-keys-lookup-some,
  count-keys-remove, length-insert_new, length-remove,
}
use rockcast.DeviceControl.Protocol.{DeviceCommand, CommandResult}
use rockcast.DeviceControl.Book.{
  CommandBook, new, ids, evict, complete, take_command, command_is_advertised, admit, recall,
  receive, mark, mark_delivered, Turn, received, taken, ended, delivered, turn, run,
  max_deduped_commands, max_pending_commands,
}

-- How often an id stands in the book.
pub places : ℕ → CommandBook → ℕ
places k b = count k (ids b.queued) + count k (keys b.in_flight) + count k b.completed_order

pub record IsWellFormed (b : CommandBook) : Type 0 where
  pub pending_bound : length b.queued + length b.in_flight ≤ max_pending_commands
  pub kept_bound : length b.completed_order ≤ max_deduped_commands
  pub same_ids : keys b.completed ≡ b.completed_order
  pub once : (k : ℕ) → places k b ≤ 1

pub ids-append : (xs ys : List DeviceCommand) → ids (xs ++ ys) ≡ ids xs ++ ids ys
ids-append [] ys = refl
ids-append (x ∷ xs) ys = ap (λ t. x.id ∷ t) (ids-append xs ys)

-- The loop lets go what is over the bound, at the old end, of the order and of the map alike.
pub evict-drop :
    (order : List ℕ) (m : List (ℕ × (CommandResult × Bool)))
    → (evict order m).0 ≡ drop (length order - max_deduped_commands) order
unfolding evict
evict-drop [] m = refl
evict-drop (o ∷ order) m = elim (Bool-cases (ltb max_deduped_commands (suc (length order)))) [
  | inl over ↦
      let down : suc (length order) - max_deduped_commands
          ≡ suc (length order - max_deduped_commands) =
        ground arith in
      rw (over, down) (evict-drop order (remove o m))
  | inr fits ↦
      let none_over : suc (length order) - max_deduped_commands ≡ 0 = ground arith in
      rw (fits, none_over) refl
]

keys-remove_head :
    {R : Type 0} (o : ℕ) (order : List ℕ) (m : List (ℕ × R))
    → keys m ≡ o ∷ order
    → count o order ≡ 0
    → keys (remove o m) ≡ order
unfolding keys remove
keys-remove_head o order [] e c = cc
keys-remove_head o order ((k, r) ∷ m) e c =
    let rest : keys m ≡ order = cc in
    let absent : mem o (keys m) ≡ false = mem_absent o (keys m) (ap (count o) rest ∙ c) in
    let head : k == o ≡ true = ground arith in rw (head, remove_absent o m absent) rest

pub evict-keys :
    (order : List ℕ) (m : List (ℕ × (CommandResult × Bool)))
    → keys m ≡ order
    → ((k : ℕ) → count k order ≤ 1)
    → keys (evict order m).1 ≡ (evict order m).0
unfolding evict count
evict-keys [] m e d = e
evict-keys (o ∷ order) m e d = elim (Bool-cases (ltb max_deduped_commands (suc (length order)))) [
  | inl over ↦ rw over (
      evict-keys order (remove o m) (keys-remove_head o order m e (ground (arith, d o)))
        (λ k. ground (arith, d k)))
  | inr fits ↦ rw fits e
]

length-drop_over : (n : ℕ) (xs : List ℕ) → length (drop (length xs - n) xs) ≤ n
length-drop_over n xs = omega (arith, length-drop (length xs - n) xs)

count-drop-le : (k n : ℕ) (xs : List ℕ) → count k (drop n xs) ≤ count k xs
unfolding count
count-drop-le k zero xs = omega arith
count-drop-le k (suc n) [] = omega arith
count-drop-le k (suc n) (x ∷ xs) = omega (arith, count-drop-le k n xs)

-- A command that is not in the book may join the queue.
pub accept-IsWellFormed :
    (command : DeviceCommand) (b : CommandBook)
    → IsWellFormed b
    → places command.id b ≡ 0
    → length b.queued + length b.in_flight < max_pending_commands
    → IsWellFormed (record b { queued = b.queued ++ (command ∷ []) })
unfolding places count
accept-IsWellFormed command b w free room = record {
  pending_bound = omega (arith, length-append b.queued (command ∷ []));
  kept_bound = w.kept_bound;
  same_ids = w.same_ids;
  once = λ k.
      rw (ids-append b.queued (command ∷ []))
        (ground (arith, count-append k (ids b.queued) (command.id ∷ []), w.once k));
}

absent_places :
    (id : ℕ) (b : CommandBook)
    → IsWellFormed b
    → mem id (keys b.in_flight) ≡ false
    → mem id (ids b.queued) ≡ false
    → lookup id b.completed ≡ none
    → places id b ≡ 0
unfolding places
absent_places id b w f q c = omega (
  arith,
  count_absent id (ids b.queued) q,
  count_absent id (keys b.in_flight) f,
  count_absent id (keys b.completed) (mem-keys-lookup id b.completed c),
  ap (count id) w.same_ids,
)

recall-IsWellFormed :
    (command : DeviceCommand) (o : Option (CommandResult × Bool)) (b : CommandBook)
    → IsWellFormed b
    → (o ≡ none → places command.id b ≡ 0)
    → IsWellFormed (recall command o b).0
unfolding recall admit
recall-IsWellFormed command none b w free =
    elim (Bool-cases (leb max_pending_commands (length b.queued + length b.in_flight))) [
      | inl full ↦ rw full w
      | inr room ↦ rw room (accept-IsWellFormed command b w (free refl) (ground arith))
    ]
recall-IsWellFormed command (some (r, true)) b w free = w
recall-IsWellFormed command (some (r, false)) b w free = w

pub receive-IsWellFormed :
    (command : DeviceCommand) (b : CommandBook)
    → IsWellFormed b
    → IsWellFormed (receive command b).0
unfolding receive
receive-IsWellFormed command b w = elim (Bool-cases (command_is_advertised command.command)) [
  | inr other ↦ rw other w
  | inl known ↦
      elim (Bool-cases (mem command.id (keys b.in_flight) || mem command.id (ids b.queued))) [
        | inl present ↦ rw (known, present) w
        | inr absent ↦
            rw (known, absent)
              (recall-IsWellFormed command (lookup command.id b.completed) b w
                (λ e. absent_places command.id b w (ground arith) (ground arith) e))
      ]
]

pub take-IsWellFormed : (b : CommandBook) → IsWellFormed b → IsWellFormed (take_command b).0
unfolding take_command places count
take-IsWellFormed b w = go b.queued refl
  where
    go :
        (q : List DeviceCommand)
        → b.queued ≡ q
        → let result : CommandBook × Option DeviceCommand = elim q [
          | [] ↦ (b, none)
          | command ∷ rest ↦ (
            record b { queued = rest; in_flight = insert command.id command b.in_flight },
            some command,
          )
        ] in
          IsWellFormed result.0
    go [] e = w
    go (c ∷ rest) e =
        let absent : mem c.id (keys b.in_flight) ≡ false =
          mem_absent c.id (keys b.in_flight)
            (ground (arith, w.once c.id, ap (λ q. count c.id (ids q)) e)) in
        record {
          pending_bound =
              omega
                (arith, w.pending_bound, ap length e, length-insert_new c.id c b.in_flight absent);
          kept_bound = w.kept_bound;
          same_ids = w.same_ids;
          once = λ k. rw (keys-insert_new c.id c b.in_flight absent) (
              ground (
                arith,
                count-append k (keys b.in_flight) (c.id ∷ []),
                w.once k,
                ap (λ q. count k (ids q)) e,
              ));
        }

pub complete-IsWellFormed :
    (id : ℕ) (r : CommandResult) (b : CommandBook) → IsWellFormed b → IsWellFormed (complete id r b)
unfolding complete places count
complete-IsWellFormed id r b w = elim (Bool-cases (mem id (keys b.in_flight))) [
  | inr unknown ↦ rw unknown w
  | inl known ↦
      let there = count-mem id (keys b.in_flight) known in
      let absent : mem id (keys b.completed) ≡ false =
        mem_absent id (keys b.completed)
          (omega (arith, w.once id, there, ap (count id) w.same_ids)) in
      let order : List ℕ = b.completed_order ++ (id ∷ []) in
      let m : List (ℕ × (CommandResult × Bool)) = insert id (r, false) b.completed in
      let same : keys m ≡ order =
        keys-insert_new id (r, false) b.completed absent ∙ ap (λ t. t ++ (id ∷ [])) w.same_ids in
      let counted : (k : ℕ)
          → count k order ≡ count k b.completed_order + (if id == k then 1 else 0) =
        λ k. ground (arith, count-append k b.completed_order (id ∷ [])) in
      rw known (record {
        pending_bound = omega (arith, w.pending_bound, length-remove id b.in_flight);
        kept_bound = rw (evict-drop order m) (length-drop_over max_deduped_commands order);
        same_ids =
            evict-keys order m same (λ k. ground (arith, counted k, w.once k, there, w.once id));
        once = λ k. rw (evict-drop order m) (
            ground (
              arith,
              count-drop-le k (length order - max_deduped_commands) order,
              counted k,
              count-keys-remove id k b.in_flight,
              w.once k,
              there,
              w.once id,
            ));
      })
]

pub mark-IsWellFormed :
    (id : ℕ) (b : CommandBook) → IsWellFormed b → IsWellFormed (mark_delivered id b)
unfolding mark_delivered mark places
mark-IsWellFormed id b w = go (lookup id b.completed) refl
  where
    go :
        (o : Option (CommandResult × Bool)) → lookup id b.completed ≡ o → IsWellFormed (mark o id b)
    go none e = w
    go (some (r, d)) e = record {
      pending_bound = w.pending_bound;
      kept_bound = w.kept_bound;
      same_ids =
          keys-insert_old id (r, true) b.completed (mem-keys-lookup-some id (r, d) b.completed e)
          ∙ w.same_ids;
      once = w.once;
    }

pub turn-IsWellFormed : (t : Turn) (b : CommandBook) → IsWellFormed b → IsWellFormed (turn t b)
unfolding turn
turn-IsWellFormed (received command) b w = receive-IsWellFormed command b w
turn-IsWellFormed taken b w = take-IsWellFormed b w
turn-IsWellFormed (ended id r) b w = complete-IsWellFormed id r b w
turn-IsWellFormed (delivered id) b w = mark-IsWellFormed id b w

-- However the two threads take turns on a well-formed book, as a new one is, at most 64 commands are queued or in flight, at most
-- 64 results are kept, the results are those that the order of completion names, and no id stands in two
-- places or twice in one.
pub run-IsWellFormed :
    (turns : List Turn) (b : CommandBook) → IsWellFormed b → IsWellFormed (run turns b)
unfolding run
run-IsWellFormed [] b w = w
run-IsWellFormed (t ∷ turns) b w = run-IsWellFormed turns (turn t b) (turn-IsWellFormed t b w)

pub new-IsWellFormed : IsWellFormed new
unfolding new places count keys
new-IsWellFormed = record {
  pending_bound = omega arith;
  kept_bound = omega arith;
  same_ids = refl;
  once = λ k. omega arith;
}

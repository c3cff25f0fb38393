-- ===== src/Remote/Answered.antt =====
-- No command of device control that the user interface has taken is forgotten: src/app/actions/playback.rs and
-- src/app/actions/poll.
use rockcast.Prelude.{
  ℕ, zero, suc, Bool, true, false, ◌||◌, Option, none, some, List, [], ◌==◌, ◌≡◌, ap, ◌∙◌, inl, inr,
  Bool-cases, Option-cases, arith, ==_iff, if◌then◌else◌,
}
use rockcast.Prelude.Maps.{mem, keys}
use rockcast.Prelude.Results.{Result-cases}
use rockcast.DeviceControl.Protocol.{DeviceCommand, CommandResult, ChromecastReceiver, failed}
use rockcast.DeviceControl.Receivers.{CachedReceiver}
use rockcast.DeviceControl.Book.{CommandBook, take_command}
use rockcast.DeviceControl.Book.Flight.{mem-complete, mem-take}
use rockcast.Remote.Plan.{plan_remote_command, cannot_apply}
use rockcast.Remote.Carry.{carry_out}
use rockcast.Remote.Controls.{
  CastDevice, succeeded, RemoteOutput, Moment, Reply, answered, started, discovering,
}
use rockcast.Remote.{
  PendingRemoteCommand, interruption, Desk, App, settle_command, track, discover_chromecasts,
  conclude, handle, poll_rounds, finish_remote_command, finish_stale_remote_command,
  handle_remote_chromecast_discovery,
}

-- The command waits for a playback or for a scan.
awaits_playback : ℕ → Option PendingRemoteCommand → Bool
awaits_playback k none = false
awaits_playback k (some p) = p.id == k

awaits_scan : ℕ → Option ℕ → Bool
awaits_scan k none = false
awaits_scan k (some id) = id == k

awaits : ℕ → Desk → Bool
awaits k d = awaits_playback k d.pending_command || awaits_scan k d.pending_discovery

in_hand : ℕ → Desk → Bool
in_hand k d = mem k (keys d.book.in_flight)

-- Every command that is taken and not answered waits for a playback or a scan, but perhaps the one with this id.
AccountedBut : ℕ → Desk → Type 0
AccountedBut id d = (k : ℕ) → in_hand k d ≡ true → (awaits k d || (id == k)) ≡ true

pub Accounted : Desk → Type 0
Accounted d = (k : ℕ) → in_hand k d ≡ true → awaits k d ≡ true

settle_command-Accounted :
    (id : ℕ) (result : CommandResult) (d : Desk)
    → AccountedBut id d
    → Accounted (settle_command id result d)
unfolding Accounted AccountedBut settle_command awaits in_hand
settle_command-Accounted id result d h k e = ground (arith, h k, mem-complete k id result d.book)

track-Accounted :
    (id generation : ℕ) (output : Option RemoteOutput) (d : Desk)
    → AccountedBut id d
    → Accounted (track id generation output d)
unfolding Accounted AccountedBut track settle_command awaits awaits_playback in_hand
track-Accounted id generation output d h k = elim (Option-cases d.pending_command) [
  | inl free ↦ rw (in_hand, awaits, track, free) (λ e. ground (arith, h k, free))
  | inr (p, held) ↦
      rw (in_hand, awaits, track, held)
        (λ e. ground (arith, h k, held, mem-complete k p.id interruption d.book))
]

discover-Accounted :
    (id : ℕ) (spawned : Bool) (d : Desk)
    → AccountedBut id d
    → Accounted (discover_chromecasts id spawned d)
unfolding Accounted AccountedBut discover_chromecasts settle_command awaits awaits_scan in_hand
discover-Accounted id spawned d h k = elim (Option-cases d.pending_discovery) [
  | inr (other, held) ↦
      rw (in_hand, awaits, discover_chromecasts, held)
        (λ e. ground (
          arith,
          h k,
          held,
          mem-complete k id (failed "command_timeout" "Chromecast discovery is already running")
              d.book,
        ))
  | inl free ↦ elim (Bool-cases spawned) [
    | inl on ↦ rw (in_hand, awaits, discover_chromecasts, free, on) (λ e. ground (arith, h k, free))
    | inr off ↦
        rw (in_hand, awaits, discover_chromecasts, free, off)
          (λ e. ground (
            arith,
            h k,
            free,
            mem-complete k id (failed "command_timeout" "Chromecast discovery could not start")
                d.book,
          ))
  ]
]

-- The pending command is taken off the desk.
let_go :
    (d : Desk) (p : PendingRemoteCommand)
    → d.pending_command ≡ some p
    → Accounted d
    → AccountedBut p.id (record d { pending_command = none })
unfolding Accounted AccountedBut awaits awaits_playback in_hand
let_go d p held h k = ground (arith, h k, held)

scan_over :
    (d : Desk) (id : ℕ)
    → d.pending_discovery ≡ some id
    → Accounted d
    → AccountedBut id (record d { pending_discovery = none })
unfolding Accounted AccountedBut awaits awaits_scan in_hand
scan_over d id held h k = ground (arith, h k, held)

conclude-Accounted :
    (id : ℕ) (spawned : Bool) (reply : Reply) (d : Desk)
    → AccountedBut id d
    → Accounted (conclude id spawned reply d)
unfolding conclude
conclude-Accounted id spawned (answered result) d h = settle_command-Accounted id result d h
conclude-Accounted id spawned (started none output) d h =
    settle_command-Accounted id cannot_apply d h
conclude-Accounted id spawned (started (some generation) output) d h =
    track-Accounted id generation output d h
conclude-Accounted id spawned discovering d h = discover-Accounted id spawned d h

handle-Accounted :
    (m : Moment) (command : DeviceCommand) (a : App)
    → AccountedBut command.id a.desk
    → Accounted (handle m command a).desk
unfolding handle
handle-Accounted m command a h =
    elim (Result-cases (
      plan_remote_command command.command a.player.stations a.player.selected_station
        a.player.volume)) [
          | inl (result, refused) ↦
              rw (handle, refused) (settle_command-Accounted command.id result a.desk h)
          | inr (plan, planned) ↦
              rw (handle, planned)
                (conclude-Accounted command.id m.spawned (carry_out m plan a.player).1 a.desk h)
        ]

taken-AccountedBut :
    (d : Desk) (command : DeviceCommand)
    → (take_command d.book).1 ≡ some command
    → Accounted d
    → AccountedBut command.id (record d { book = (take_command d.book).0 })
unfolding Accounted AccountedBut awaits in_hand
taken-AccountedBut d command e h k = ground (arith, h k, mem-take k command d.book e)

pub poll_rounds-Accounted :
    (n : ℕ) (moments : ℕ → Moment) (a : App)
    → Accounted a.desk
    → Accounted (poll_rounds n moments a).desk
unfolding poll_rounds
poll_rounds-Accounted zero moments a h = h
poll_rounds-Accounted (suc n) moments a h =
    let next : CommandBook = (take_command a.desk.book).0 in
    let open_desk : App = record a { desk = record a.desk { book = next } } in
    elim (Option-cases (take_command a.desk.book).1) [
      | inl nothing ↦ rw (poll_rounds, nothing) h
      | inr (command, taken) ↦
          rw (poll_rounds, taken)
            (poll_rounds-Accounted n moments (handle (moments n) command open_desk) (
              handle-Accounted (moments n) command open_desk
                (taken-AccountedBut a.desk command taken h)))
    ]

pub finish-Accounted :
    (generation : ℕ) (ended_well : Bool) (a : App)
    → Accounted a.desk
    → Accounted (finish_remote_command generation ended_well a).desk
unfolding finish_remote_command
finish-Accounted generation ended_well a h = elim (Option-cases a.desk.pending_command) [
  | inl free ↦ rw (finish_remote_command, free) h
  | inr (p, held) ↦ elim (Bool-cases (p.generation == generation)) [
    | inr other ↦ rw (finish_remote_command, held, other) h
    | inl same ↦
        rw (finish_remote_command, held, same)
          (settle_command-Accounted p.id
            (if ended_well
              then succeeded
              else failed "command_timeout" "Playback failed or was interrupted")
            (record a.desk { pending_command = none }) (let_go a.desk p held h))
  ]
]

pub stale-Accounted : (a : App) → Accounted a.desk → Accounted (finish_stale_remote_command a).desk
unfolding finish_stale_remote_command
stale-Accounted a h = elim (Option-cases a.desk.pending_command) [
  | inl free ↦ rw (finish_stale_remote_command, free) h
  | inr (p, held) ↦ elim (Bool-cases (p.generation == a.player.playback.generation)) [
    | inl same ↦ rw (finish_stale_remote_command, held, same) h
    | inr other ↦
        rw (finish_stale_remote_command, held, other)
          (settle_command-Accounted p.id interruption (record a.desk { pending_command = none })
            (let_go a.desk p held h))
  ]
]

pub scanned-Accounted :
    (id : ℕ) (found : Option (List (CachedReceiver CastDevice) × List ChromecastReceiver)) (a : App)
    → Accounted a.desk
    → Accounted (handle_remote_chromecast_discovery id found a).desk
unfolding handle_remote_chromecast_discovery
scanned-Accounted id found a h = elim (Option-cases a.desk.pending_discovery) [
  | inl free ↦ rw (handle_remote_chromecast_discovery, free) h
  | inr (waiting, held) ↦ elim (Bool-cases (waiting == id)) [
    | inr other ↦ rw (handle_remote_chromecast_discovery, held, other) h
    | inl same ↦
        let e : waiting ≡ id = (==_iff waiting id).0 same in
        let but : AccountedBut id (record a.desk { pending_discovery = none }) =
          scan_over a.desk id (held ∙ ap some e) h in
        elim (Option-cases found) [
          | inl failed_scan ↦
              rw (handle_remote_chromecast_discovery, held, same, failed_scan)
                (settle_command-Accounted id
                  (failed "command_timeout" "Chromecast discovery failed")
                  (record a.desk { pending_discovery = none }) but)
          | inr ((receivers, reported), there) ↦
              rw (handle_remote_chromecast_discovery, held, same, there)
                (settle_command-Accounted id (record { error = none; output = some reported })
                  (record a.desk { pending_discovery = none }) but)
        ]
  ]
]

pub same_flight :
    (d : Desk) (b : CommandBook)
    → b.in_flight ≡ d.book.in_flight
    → Accounted d
    → Accounted (record d { book = b })
unfolding Accounted awaits in_hand
same_flight d b e h k = rw e (h k)

pub fresh_Accounted : (d : Desk) → d.book.in_flight ≡ [] → Accounted d
unfolding Accounted in_hand mem keys
fresh_Accounted d e k = rw (in_hand, e) (λ h. absurd cc)

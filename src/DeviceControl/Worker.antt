-- ===== src/DeviceControl/Worker.antt =====
-- The reconnecting loop of src/device_control.rs, `run_worker`, round by round: what it asks of the credentials
-- and how long it waits.
mod Tests
use rockcast.Prelude.{
  ℕ, zero, suc, ◌+◌, ◌*◌, ◌-◌, ◌^◌, ◌%◌, ◌≤◌, min, Bool, true, false, Option, none, some, List, [],
  ◌∷◌, length, if◌then◌else◌, ◌≡◌, refl, arith,
}
use rockcast.DeviceControl.Protocol.{ControlError, unavailable, authentication, protocol, backoff}
use rockcast.DeviceControl.Protocol.Safety.{backoff_bounds}

-- What `access_token` returned.
pub data Access : Type 0 where
  granted : Access
  no_credentials : Access
  unauthorized : Access
  rejected : Access
  unreachable : Access

-- How connecting, or else the connection, ended.
pub data Connected : Type 0 where
  refused : ControlError → Connected
  closed : Connected
  broken : ControlError → Connected

pub record Worker : Type 0 where
  pub forced_renewal : Bool
  pub retry : ℕ

pub fresh : Worker
fresh = record { forced_renewal = false; retry = 0 }

abbrev pub no_identity_delay : ℕ
no_identity_delay = 2000

-- `saturating_add(1)` of a `u32`.
abbrev pub next_retry : ℕ → ℕ
next_retry retry = min (retry + 1) (2 ^ 32 - 1)

-- A round that waits `backoff(retry)`.
pub back_off : Bool → ℕ → Worker × ℕ
back_off forced retry =
    (record { forced_renewal = forced; retry = next_retry retry }, backoff retry)

-- A round with a token: the worker after it, and the milliseconds it waited.
pub session : Connected → Worker → Worker × ℕ
session closed w = (record { forced_renewal = false; retry = 0 }, 0)
session (broken authentication) w = (record { forced_renewal = true; retry = 0 }, 0)
session (broken unavailable) w = back_off false w.retry
session (broken protocol) w = back_off false w.retry
session (refused authentication) w = (record { forced_renewal = true; retry = w.retry }, 0)
session (refused unavailable) w = back_off false w.retry
session (refused protocol) w = back_off false w.retry

pub round : Access → Connected → Worker → Worker × ℕ
round granted connected w = session connected w
round no_credentials connected w = (record w { forced_renewal = false }, no_identity_delay)
round unauthorized connected w = (record w { forced_renewal = false }, no_identity_delay)
round rejected connected w = (record w { forced_renewal = false }, no_identity_delay)
round unreachable connected w = back_off w.forced_renewal w.retry

-- The milliseconds waited in some rounds, and the renewals that they forced.
pub waited : List (Access × Connected) → Worker → ℕ
waited [] w = 0
waited ((access, connected) ∷ rounds) w =
    let after = round access connected w in after.1 + waited rounds after.0

pub renewals : List (Access × Connected) → Worker → ℕ
renewals [] w = 0
renewals ((access, connected) ∷ rounds) w =
    (if w.forced_renewal then 1 else 0) + renewals rounds (round access connected w).0

-- Neither a rejection of the token nor the client's own stop.
pub is_failure : Access → Connected → Bool
is_failure granted closed = false
is_failure granted (broken authentication) = false
is_failure granted (refused authentication) = false
is_failure _ _ = true

pub failures : List (Access × Connected) → ℕ
failures [] = 0
failures ((access, connected) ∷ rounds) =
    (if is_failure access connected then 1 else 0) + failures rounds

-- Rounds in which the server turned down a token that was just granted.
pub turned_down : ℕ → List (Access × Connected)
turned_down zero = []
turned_down (suc n) = (granted, refused authentication) ∷ turned_down n

round_wait :
    (access : Access) (connected : Connected) (w : Worker)
    → let wait : ℕ = (round access connected w).1 in
      (1000 * (if is_failure access connected then 1 else 0) ≤ wait) × (wait ≤ 30000)
unfolding is_failure round session back_off
round_wait granted closed w = (omega arith, omega arith)
round_wait granted (broken authentication) w = (omega arith, omega arith)
round_wait granted (broken unavailable) w = ((backoff_bounds w.retry).0, (backoff_bounds w.retry).1)
round_wait granted (broken protocol) w = ((backoff_bounds w.retry).0, (backoff_bounds w.retry).1)
round_wait granted (refused authentication) w = (omega arith, omega arith)
round_wait granted (refused unavailable) w =
    ((backoff_bounds w.retry).0, (backoff_bounds w.retry).1)
round_wait granted (refused protocol) w = ((backoff_bounds w.retry).0, (backoff_bounds w.retry).1)
round_wait no_credentials connected w = (omega arith, omega arith)
round_wait unauthorized connected w = (omega arith, omega arith)
round_wait rejected connected w = (omega arith, omega arith)
round_wait unreachable connected w = ((backoff_bounds w.retry).0, (backoff_bounds w.retry).1)

-- A worker waits at least a second for each round that failed otherwise than by a rejected token, whatever
-- happens in what order; no single wait is longer than thirty seconds.
pub waited-failures :
    (rounds : List (Access × Connected)) (w : Worker)
    → (1000 * failures rounds ≤ waited rounds w) × (waited rounds w ≤ 30000 * length rounds)
unfolding waited failures
waited-failures [] w = (omega arith, omega arith)
waited-failures ((access, connected) ∷ rounds) w =
    let now = round_wait access connected w in
    let rest = waited-failures rounds (round access connected w).0 in
    (omega (arith, now.0, rest.0), omega (arith, now.1, rest.1))

-- A server that refuses the token each time is asked again without any wait, and after the first time each
-- round forces a renewal of the session.
renewals_unpaced :
    (n retry : ℕ)
    → let w : Worker = record { forced_renewal = true; retry = retry } in
      (waited (turned_down n) w ≡ 0) × (renewals (turned_down n) w ≡ n)
unfolding waited renewals round session turned_down
renewals_unpaced zero retry = (refl, refl)
renewals_unpaced (suc n) retry =
    let rest = renewals_unpaced n retry in (omega (arith, rest.0), omega (arith, rest.1))

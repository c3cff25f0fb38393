-- ===== src/DeviceControl/Worker/Tests.antt =====
-- Rounds of the reconnecting loop of src/device_control.rs.
use rockcast.Prelude.{List, [], ◌∷◌, ◌≡◌, refl}
use rockcast.DeviceControl.Protocol.{unavailable, authentication, backoff}
use rockcast.DeviceControl.Worker.{
  Access, granted, unreachable, no_credentials, Connected, refused, closed, broken, fresh, back_off,
  session, round, waited,
}

abbrev outage : List (Access × Connected)
outage =
    (granted, refused unavailable)
    ∷ (unreachable, closed)
    ∷ (no_credentials, closed)
    ∷ (granted, broken authentication)
    ∷ []

-- 1 second, 2.137 seconds and the 2 seconds without credentials.
outage_waits : waited outage fresh ≡ 5137
unfolding waited round session back_off fresh backoff
outage_waits = refl

-- ===== src/DeviceControl/Receivers/Tests.antt =====
-- Receivers in the cache of src/device_control/output.rs.
use Prim.Native.String.{String}
use rockcast.Prelude.{ℕ, ◌+◌, List, [], ◌∷◌, map, ◌≡◌, refl}
use rockcast.Prelude.Texts.{is_blank}
use rockcast.Prelude.Sorting.{put, sort_by}
use rockcast.DeviceControl.Protocol.{ChromecastReceiver}
use rockcast.DeviceControl.Receivers.{
  Found, is_control, printable, safe_display_name, precedes, dedup_after, dedup, live_handle,
  receivers_at, cache_one, cache_all, replace_at,
}

abbrev format_time : ℕ → String
format_time n = "time"

abbrev uuid : ℕ → ℕ
uuid n = 100 + n

abbrev found : String → String → ℕ → Found ℕ
found key name device = record { key = key; display_name = name; device = device }

abbrev devices : List (Found ℕ)
devices = found "k2" "Kitchen" 2 ∷ found "k1" "Bedroom" 1 ∷ []

abbrev receiver_ids : List ChromecastReceiver → List ℕ
receiver_ids rs = map (λ (r : ChromecastReceiver). r.receiver_id) rs

-- The entries are in the order of the names.
first_scan : receiver_ids (replace_at format_time devices [] uuid 0).1 ≡ 100 ∷ 101 ∷ []
unfolding replace_at sort_by put precedes dedup dedup_after cache_all cache_one live_handle
    receivers_at
first_scan = refl

-- A device that a scan finds under two names is told twice, and the next scan gives both of them one handle.
abbrev twice : List (Found ℕ)
twice = found "k1" "Attic" 1 ∷ found "k2" "Bath" 2 ∷ found "k1" "Cellar" 3 ∷ []

told_twice :
    receiver_ids
      (replace_at format_time twice (replace_at format_time twice [] uuid 0).0 (λ n. 200 + n) 1).1
    ≡ 100 ∷ 101 ∷ 100 ∷ []
unfolding replace_at sort_by put precedes dedup dedup_after cache_all cache_one live_handle
    receivers_at
told_twice = refl

nameless : safe_display_name "\n" ≡ "Chromecast"
unfolding safe_display_name printable is_control is_blank
nameless = refl

-- ===== src/DeviceControl/Receivers.antt =====
-- src/device_control/output.rs: the cache of Chromecast receivers, whose handles the server gets in place of addresses.
-- Times are seconds.
pub mod Handles
mod Tests
use Prim.Native.Nat.{Ordering}
use Prim.Native.Char.{Char, code}
use Prim.Native.String.{String, compare, [] as empty, ◌∷◌ as ◌+c◌}
use text.Mathlib.Text.{◌==◌ as str_eq}
use rockcast.Prelude.{
  ℕ, zero, suc, ◌+◌, Bool, true, false, not, ◌&&◌, ◌||◌, Option, none, some, List, [], ◌∷◌, take,
  ltb, leb, ◌==◌, if◌then◌else◌,
}
use rockcast.Prelude.Sorting.{sort_by}
use rockcast.Prelude.Texts.{is_blank}
use rockcast.DeviceControl.Protocol.{ChromecastReceiver}

abbrev pub discovery_ttl_seconds : ℕ
discovery_ttl_seconds = 60

abbrev pub max_receivers : ℕ
max_receivers = 32

-- `char::is_control`: the category Cc of Unicode.
pub is_control : Char → Bool
is_control c = leb (code c) 0x1f || (leb 0x7f (code c) && leb (code c) 0x9f)

-- The first characters that are no control characters.
pub printable : ℕ → String → String
printable n empty = empty
printable zero (c +c s) = empty
printable (suc n) (c +c s) =
    let rest = printable n s in
    let skipped = printable (suc n) s in if is_control c then skipped else c +c rest

pub safe_display_name : String → String
safe_display_name value =
    let shown = printable 128 value in if is_blank shown then "Chromecast" else shown

-- What a scan found: `T` is opaque to the cache.
pub record Found {ℓ} (T : Type ℓ) : Type ℓ where
  pub key : String
  pub display_name : String
  pub device : T

pub record CachedReceiver {ℓ} (T : Type ℓ) : Type ℓ where
  pub receiver_id : ℕ
  pub key : String
  pub device : T
  pub receiver : ChromecastReceiver
  pub expires_at : ℕ

-- `left.1.cmp(&right.1).then_with(|| left.0.cmp(&right.0))` is not `Greater`.
pub precedes {ℓ} : {T : Type ℓ} → Found T → Found T → Bool
precedes left right = elim (compare left.display_name right.display_name) [
  | Ordering.lt ↦ true
  | Ordering.gt ↦ false
  | Ordering.eq ↦ elim (compare left.key right.key) [ Ordering.gt ↦ false | _ ↦ true ]
]

pub dedup_after {ℓ} : {T : Type ℓ} → String → List (Found T) → List (Found T)
dedup_after key [] = []
dedup_after key (x ∷ xs) =
    let same = dedup_after key xs in
    let other = dedup_after x.key xs in if str_eq x.key key then same else x ∷ other

-- `dedup_by` on the keys: of neighbours with the same key, the first.
pub dedup {ℓ} : {T : Type ℓ} → List (Found T) → List (Found T)
dedup [] = []
dedup (x ∷ xs) = x ∷ dedup_after x.key xs

pub live_handle {ℓ} : {T : Type ℓ} → String → ℕ → List (CachedReceiver T) → Option ℕ
live_handle key now [] = none
live_handle key now (cached ∷ entries) =
    if str_eq cached.key key && ltb now cached.expires_at
    then some cached.receiver_id
    else live_handle key now entries

pub receivers_at {ℓ} : {T : Type ℓ} → List (CachedReceiver T) → ℕ → List ChromecastReceiver
receivers_at [] now = []
receivers_at (cached ∷ entries) now =
    if ltb now cached.expires_at
    then cached.receiver ∷ receivers_at entries now
    else receivers_at entries now

-- For an id that parses as a uuid.
pub get_fresh_at {ℓ} : {T : Type ℓ} → List (CachedReceiver T) → ℕ → ℕ → Option T
get_fresh_at [] receiver_id now = none
get_fresh_at (cached ∷ entries) receiver_id now =
    if cached.receiver_id == receiver_id && ltb now cached.expires_at
    then some cached.device
    else get_fresh_at entries receiver_id now

-- `format_time` is the time crate's; `uuid` the ids that `Uuid::new_v4` would return, in turn.
module _ {ℓ} {T : Type ℓ} (format_time : ℕ → String) where
  pub cache_one : Found T → ℕ → ℕ → CachedReceiver T
  cache_one found receiver_id now = record {
    receiver_id = receiver_id;
    key = found.key;
    device = found.device;
    receiver = record {
      receiver_id = receiver_id;
      display_name = safe_display_name found.display_name;
      discovered_at = format_time now;
      expires_at = format_time (now + discovery_ttl_seconds);
    };
    expires_at = now + discovery_ttl_seconds;
  }

  pub cache_all : List (Found T) → List (CachedReceiver T) → (ℕ → ℕ) → ℕ → List (CachedReceiver T)
  cache_all [] entries uuid now = []
  cache_all (found ∷ incoming) entries uuid now = elim (live_handle found.key now entries) [
    | some receiver_id ↦ cache_one found receiver_id now ∷ cache_all incoming entries uuid now
    | none ↦ cache_one found (uuid 0) now ∷ cache_all incoming entries (λ n. uuid (suc n)) now
  ]

  -- The new entries; `receivers_at` of them is returned.
  pub replace_at :
      List (Found T)
      → List (CachedReceiver T)
      → (ℕ → ℕ)
      → ℕ
      → List (CachedReceiver T) × List ChromecastReceiver
  replace_at devices entries uuid now =
      let incoming = take max_receivers (dedup (sort_by precedes devices)) in
      let next = cache_all incoming entries uuid now in (next, receivers_at next now)

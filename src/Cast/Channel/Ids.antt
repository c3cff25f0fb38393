-- ===== src/Cast/Channel/Ids.antt =====
-- The request ids of src/cast/channel/mod.rs.
use rockcast.Prelude.{ℕ, zero, suc, ◌+◌, ◌-◌, ◌%◌, ◌<◌, ◌≤◌, ◌≡◌, ◌≢◌, arith}
use rockcast.Cast.Channel.{CastChannel, next_request_id}

-- The channel after that many calls.
pub after_calls : ℕ → CastChannel → CastChannel
after_calls zero c = c
after_calls (suc n) c = after_calls n (next_request_id c).0

after_calls-request_id :
    (n : ℕ) (c : CastChannel)
    → 1 ≤ c.request_id
    → c.request_id < 4294967296
    → (after_calls n c).request_id ≡ (c.request_id - 1 + n) % 4294967295 + 1
unfolding after_calls next_request_id
after_calls-request_id zero c a b = omega arith
after_calls-request_id (suc n) c a b =
    let d : CastChannel = (next_request_id c).0 in
    let next : d.request_id ≡ (c.request_id - 1 + 1) % 4294967295 + 1 = omega arith in
    omega (arith, after_calls-request_id n d (omega (arith, next)) (omega (arith, next)), next)

-- From any id between 1 and 2 ^ 32 - 1 on, no call returns 0, and two calls with fewer than 2 ^ 32 - 1
-- calls from one to the other return different ids.
pub next_request_id_lem :
    (i n : ℕ) (c : CastChannel)
    → 1 ≤ c.request_id
    → c.request_id < 4294967296
    → 0 < n
    → n < 4294967295
    → ((next_request_id (after_calls i c)).1 ≢ 0)
      × ((next_request_id (after_calls i c)).1 ≢ (next_request_id (after_calls (i + n) c)).1)
unfolding next_request_id
next_request_id_lem i n c a b more fewer = (
  λ e. absurd (omega (arith, e, after_calls-request_id i c a b)),
  λ e.
      absurd
        (omega (arith, e, after_calls-request_id i c a b, after_calls-request_id (i + n) c a b)),
)

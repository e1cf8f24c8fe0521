-- ===== src/RateLimiter/Limits.antt =====
-- What the limits of include/security/rate_limiter.hpp promise over a run of calls.
use hft_trading_system.Prelude.{
  ℕ, ◌+◌, ◌-◌, ◌≤◌, ◌<◌, ◌≡◌, true, ◌&&◌, not, List, [], ◌∷◌, ◌==◌, ltb, if◌then◌else◌, arith, All,
  length,
}
use hft_trading_system.Types.{no_trader}
use hft_trading_system.RateLimiter.{
  RateLimiter, Config, second_of, is_tracked, check_global_rate, check_trader_rate, allow_order,
  on_order_added, on_order_removed, new,
}

-- How many orders of a trader a run of `allow_order` calls lets pass.
abbrev pub accepted_of : ℕ → RateLimiter → List (ℕ × ℕ) → ℕ
accepted_of trader r [] = 0
accepted_of trader r ((t, time) ∷ calls) =
    let (r', ok) = allow_order r t time in
    (if ok && t == trader then 1 else 0) + accepted_of trader r' calls

-- How many orders of any trader but the anonymous one pass.
abbrev pub accepted_all : RateLimiter → List (ℕ × ℕ) → ℕ
accepted_all r [] = 0
accepted_all r ((t, time) ∷ calls) =
    let (r', ok) = allow_order r t time in
    (if ok && not (t == no_trader) then 1 else 0) + accepted_all r' calls

-- What the limit of a trader leaves for a second.
abbrev pub room_of : RateLimiter → ℕ → ℕ → ℕ
room_of r trader second =
    if ltb (r.traders trader).last_reset second
    then r.config.orders_per_second
    else r.config.orders_per_second - (r.traders trader).orders_this_second

abbrev pub room_all : RateLimiter → ℕ → ℕ
room_all r second =
    if ltb r.global_last_reset second
    then r.config.global_rate_limit
    else r.config.global_rate_limit - r.global_orders_this_second

module _ (r : RateLimiter) (t time second : ℕ) (now : second_of time ≡ second)
    (on : r.config.enabled ≡ true) where
  abbrev after : RateLimiter
  after = (allow_order r t time).0

  kept : after.config ≡ r.config
  unfolding allow_order check_global_rate check_trader_rate
  kept = ground arith

  trader_step :
      (trader : ℕ)
      → is_tracked trader ≡ true
      → (r.traders trader).orders_this_second + 1 < 4294967296
      → ((after.traders trader).orders_this_second ≤ (r.traders trader).orders_this_second + 1)
        × ((if (allow_order r t time).1 && t == trader then 1 else 0) + room_of after trader second
            ≤ room_of r trader second)
  unfolding allow_order check_global_rate check_trader_rate
  trader_step trader tracked small = ground arith

  global_step :
      r.global_orders_this_second + 1 < 4294967296
      → (after.global_orders_this_second ≤ r.global_orders_this_second + 1)
        × ((if (allow_order r t time).1 && not (t == no_trader) then 1 else 0)
              + room_all after second
            ≤ room_all r second)
  unfolding allow_order check_global_rate check_trader_rate
  global_step small = ground arith

accepted_of_bounded :
    (trader second : ℕ) (r : RateLimiter) (calls : List (ℕ × ℕ))
    → is_tracked trader ≡ true
    → r.config.enabled ≡ true
    → All (λ (c : ℕ × ℕ). second_of c.1 ≡ second) calls
    → (r.traders trader).orders_this_second + length calls < 4294967296
    → accepted_of trader r calls ≤ room_of r trader second
accepted_of_bounded trader second r [] tracked on now small = omega arith
accepted_of_bounded trader second r ((t, time) ∷ calls) tracked on now small =
    let (count, room) =
      trader_step r t time second now.0 on trader tracked (omega (arith, small)) in
    let still_on : (allow_order r t time).0.config.enabled ≡ true =
      rw (kept r t time second now.0 on) on in
    omega (
      arith,
      room,
      accepted_of_bounded trader second (allow_order r t time).0 calls tracked still_on now.1
          (omega (arith, count, small)),
    )

accepted_all_bounded :
    (second : ℕ) (r : RateLimiter) (calls : List (ℕ × ℕ))
    → r.config.enabled ≡ true
    → All (λ (c : ℕ × ℕ). second_of c.1 ≡ second) calls
    → r.global_orders_this_second + length calls < 4294967296
    → accepted_all r calls ≤ room_all r second
accepted_all_bounded second r [] on now small = omega arith
accepted_all_bounded second r ((t, time) ∷ calls) on now small =
    let (count, room) = global_step r t time second now.0 on (omega (arith, small)) in
    let still_on : (allow_order r t time).0.config.enabled ≡ true =
      rw (kept r t time second now.0 on) on in
    omega (
      arith,
      room,
      accepted_all_bounded second (allow_order r t time).0 calls still_on now.1
          (omega (arith, count, small)),
    )

-- For a limiter that is enabled, a trader whose id is below MAX_TRADERS, and calls within one second
-- that do not wrap the counters around: the orders of this trader pass at most as often as the limit
-- of a trader leaves room for at its start, and the orders of all traders together, the anonymous one
-- aside, at most as often as the global limit does; that is the whole limit if the counter is of an
-- earlier second.
pub accepted_bounded :
    (trader second : ℕ) (r : RateLimiter) (calls : List (ℕ × ℕ))
    → is_tracked trader ≡ true
    → r.config.enabled ≡ true
    → All (λ (c : ℕ × ℕ). second_of c.1 ≡ second) calls
    → (r.traders trader).orders_this_second + length calls < 4294967296
    → r.global_orders_this_second + length calls < 4294967296
    → (accepted_of trader r calls ≤ room_of r trader second)
      × (accepted_all r calls ≤ room_all r second)
accepted_bounded trader second r calls tracked on now small small_all = (
  accepted_of_bounded trader second r calls tracked on now small,
  accepted_all_bounded second r calls on now small_all,
)

-- The states that clients reach which never change the configuration, report an order as added only
-- after it was allowed, and as removed only while it is active.
pub data Reaches (config : Config) : RateLimiter → Type 0 where
  started : Reaches config (new config)
  ordered :
      {r : RateLimiter}
      → Reaches config r
      → (trader time : ℕ) → (allow_order r trader time).1 ≡ true
      → Reaches config (on_order_added (allow_order r trader time).0 trader)
  refused :
      {r : RateLimiter}
      → Reaches config r
      → (trader time : ℕ) → Reaches config (allow_order r trader time).0
  removed :
      {r : RateLimiter}
      → Reaches config r
      → (trader : ℕ) → 0 < (r.traders trader).active_orders
      → Reaches config (on_order_removed r trader)

-- The configuration is this one, and no trader has more active orders than it says. Only traders with
-- an id below MAX_TRADERS have a count of active orders.
abbrev pub IsLimited : Config → RateLimiter → Type 0
IsLimited config r =
    (r.config ≡ config)
    × ((trader : ℕ) → (r.traders trader).active_orders ≤ config.max_active_orders)

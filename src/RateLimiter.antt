-- ===== src/RateLimiter.antt =====
-- include/security/rate_limiter.hpp, called from one thread at a time: an atomic operation is one
-- step. `traders` is the array of `MAX_TRADERS` entries, which is only accessed in bounds.
pub mod Limits
mod Tests
use hft_trading_system.Prelude.{
  ℕ, ◌+◌, ◌/◌, ◌%◌, Bool, true, false, ◌&&◌, not, ◌==◌, ltb, if◌then◌else◌, u32, sub32,
}
use hft_trading_system.Types.{no_trader}

abbrev pub max_traders : ℕ
max_traders = 10000

pub record TraderStats : Type 0 where
  pub orders_this_second : ℕ
  pub active_orders : ℕ
  pub last_reset : ℕ

pub record Config : Type 0 where
  pub orders_per_second : ℕ
  pub max_active_orders : ℕ
  pub global_rate_limit : ℕ
  pub enabled : Bool

abbrev pub default_config : Config
default_config = record {
  orders_per_second = 1000;
  max_active_orders = 10000;
  global_rate_limit = 100000;
  enabled = true;
}

pub record RateLimiter : Type 0 where
  pub config : Config
  pub traders : ℕ → TraderStats
  pub global_orders_this_second : ℕ
  pub global_last_reset : ℕ

abbrev pub reset : TraderStats
reset = record { orders_this_second = 0; active_orders = 0; last_reset = 0 }

unfoldable pub new : Config → RateLimiter
new config = record {
  config = config;
  traders = λ _. reset;
  global_orders_this_second = 0;
  global_last_reset = 0;
}

-- A write to one entry of `traders_`.
abbrev pub set_stats : RateLimiter → ℕ → TraderStats → RateLimiter
set_stats r trader stats = record r {
  traders = λ (t : ℕ). if t == trader then stats else r.traders t;
}

-- The timestamp is in nanoseconds.
abbrev pub second_of : ℕ → ℕ
second_of time = time / 1000000000

unfoldable pub check_global_rate : RateLimiter → ℕ → RateLimiter × Bool
check_global_rate r time =
    let fresh = ltb r.global_last_reset (second_of time) in
    let count = if fresh then 0 else r.global_orders_this_second in
    (
      record r {
        global_orders_this_second = u32 (count + 1);
        global_last_reset = if fresh then second_of time else r.global_last_reset;
      },
      ltb count r.config.global_rate_limit,
    )

unfoldable pub check_trader_rate : RateLimiter → ℕ → ℕ → RateLimiter × Bool
check_trader_rate r trader time =
    let stats = r.traders trader in
    let fresh = ltb stats.last_reset (second_of time) in
    let count = if fresh then 0 else stats.orders_this_second in
    (
      set_stats r trader (record stats {
        orders_this_second = u32 (count + 1);
        last_reset = if fresh then second_of time else stats.last_reset;
      }),
      ltb count r.config.orders_per_second && ltb stats.active_orders r.config.max_active_orders,
    )

unfoldable pub allow_order : RateLimiter → ℕ → ℕ → RateLimiter × Bool
unfolding check_global_rate check_trader_rate
allow_order r trader time =
    if not r.config.enabled
    then (r, true)
    else if trader == no_trader
    then (r, true)
    else let (r', ok) = check_global_rate r time in
      if not ok
      then (r', false)
      else if ltb trader max_traders
      then check_trader_rate r' trader time
      else (r', true)

abbrev pub is_tracked : ℕ → Bool
is_tracked trader = not (trader == no_trader) && ltb trader max_traders

unfoldable pub on_order_added : RateLimiter → ℕ → RateLimiter
on_order_added r trader =
    let stats = r.traders trader in
    if is_tracked trader
    then set_stats r trader (record stats { active_orders = u32 (stats.active_orders + 1) })
    else r

unfoldable pub on_order_removed : RateLimiter → ℕ → RateLimiter
on_order_removed r trader =
    let stats = r.traders trader in
    if is_tracked trader
    then set_stats r trader (record stats { active_orders = sub32 stats.active_orders 1 })
    else r

unfoldable pub get_active_orders : RateLimiter → ℕ → ℕ
get_active_orders r trader = if ltb trader max_traders then (r.traders trader).active_orders else 0

unfoldable pub get_orders_this_second : RateLimiter → ℕ → ℕ
get_orders_this_second r trader =
    if ltb trader max_traders then (r.traders trader).orders_this_second else 0

unfoldable pub set_enabled : RateLimiter → Bool → RateLimiter
set_enabled r enabled = record r { config = record (r.config) { enabled = enabled } }

unfoldable pub set_rate_limit : RateLimiter → ℕ → RateLimiter
set_rate_limit r limit = record r { config = record (r.config) { orders_per_second = limit } }

unfoldable pub set_max_active_orders : RateLimiter → ℕ → RateLimiter
set_max_active_orders r limit = record r {
  config = record (r.config) { max_active_orders = limit };
}

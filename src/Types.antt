-- ===== src/Types.antt =====
-- include/types.hpp: prices, quantities, ids and times are native numbers; where the code computes
-- on a uint32_t the wrap-around is written out at the place.
use hft_trading_system.Prelude.{ℕ, Bool, ◌&&◌, not, ltb, ◌==◌, List, sub32}

-- `std::numeric_limits<uint32_t>::max()`
abbrev pub invalid_price : ℕ
invalid_price = 4294967295

abbrev pub invalid_order_id : ℕ
invalid_order_id = 0

abbrev pub no_trader : ℕ
no_trader = 0

abbrev pub max_orders : ℕ
max_orders = 1000000

abbrev pub max_price_levels : ℕ
max_price_levels = 100000

unfoldable pub is_valid_order_id : ℕ → Bool
is_valid_order_id id = not (id == invalid_order_id) && ltb id max_orders

pub data Side : Type 0 where
  buy sell : Side

pub data OrderResult : Type 0 where
  success pool_exhausted invalid_id invalid_order_price invalid_quantity order_not_found :
      OrderResult
  system_halted duplicate_order_id rate_limit_exceeded max_orders_exceeded : OrderResult

-- The intrusive pointers `prev` and `next` are not fields: an order stands in the queue of its level.
pub record Order : Type 0 where
  pub id : ℕ
  pub trader_id : ℕ
  pub timestamp : ℕ
  pub symbol : ℕ
  pub price : ℕ
  pub quantity : ℕ
  pub side : Side

-- `Order::reduce_quantity`
unfoldable pub reduce_quantity : Order → ℕ → Order
reduce_quantity o amount = record o { quantity = sub32 o.quantity amount }

unfoldable pub is_fully_filled : Order → Bool
is_fully_filled o = o.quantity == 0

pub record Trade : Type 0 where
  pub aggressive_order_id : ℕ
  pub passive_order_id : ℕ
  pub aggressive_trader_id : ℕ
  pub passive_trader_id : ℕ
  pub price : ℕ
  pub quantity : ℕ
  pub aggressor_side : Side
  pub timestamp : ℕ

-- `head`, `tail` and the orders' `prev`/`next` are the list `orders`, oldest first.
pub record PriceLevel : Type 0 where
  pub price : ℕ
  pub total_quantity : ℕ
  pub orders : List Order

-- ===== src/OrderBook.antt =====
-- include/orderbook.hpp: the book with individual orders. The pools are the numbers of their free
-- entries. A pointer to an order is the order's id together with the fields that locate it, its
-- side and price, which never change while it lives; its quantity stands in the queue of its level.
pub mod Invariant
pub mod Edits
pub mod Preserve
pub mod Add
pub mod Locate
pub mod Remove
pub mod Undo
pub mod RoundTrip
pub mod Reach
pub mod Queries
pub mod Spec
pub mod View
pub mod Refine
pub mod Observe
mod Tests
use hft_trading_system.Prelude.{
  ℕ, ◌+◌, ◌-◌, ◌≤◌, Bool, true, false, ◌||◌, not, Option, none, some, List, ◌==◌, ltb, leb,
  if◌then◌else◌,
}
use hft_trading_system.Types.{
  Side, buy, sell, Order, PriceLevel, OrderResult, success, pool_exhausted, invalid_id,
  invalid_order_price, invalid_quantity, duplicate_order_id, invalid_price, max_orders,
  max_price_levels, no_trader, is_valid_order_id,
}
use hft_trading_system.Book.Level
use hft_trading_system.Book.{
  BookSide, new_side, bid_compare, ask_compare, find_level, quantity_at, best_price, for_each_level,
  insert_level, update_level, remove_level_if_empty,
}

pub record OrderRef : Type 0 where
  pub side : Side
  pub price : ℕ

pub record OrderBook : Type 0 where
  pub order_index : ℕ → Option OrderRef
  pub free_orders : ℕ
  pub free_levels : ℕ
  pub bids : BookSide
  pub asks : BookSide

-- The constructor `OrderBook(base_price, price_range)`.
unfoldable pub new : ℕ → ℕ → OrderBook
unfolding new_side
new base range = record {
  order_index = λ _. none;
  free_orders = max_orders;
  free_levels = max_price_levels;
  bids = new_side bid_compare base range;
  asks = new_side ask_compare base range;
}

-- The side of the book that `(side == Side::Buy) ? bids_ : asks_` selects.
abbrev pub book_side : OrderBook → Side → BookSide
book_side b buy = b.bids
book_side b sell = b.asks

abbrev pub with_side : OrderBook → Side → BookSide → OrderBook
with_side b buy s = record b { bids = s }
with_side b sell s = record b { asks = s }

-- A write to one cell of `order_index_`.
abbrev pub index_order : OrderBook → ℕ → Option OrderRef → OrderBook
index_order b id r = record b { order_index = λ (j : ℕ). if j == id then r else b.order_index j }

unfoldable pub clear_order_index : OrderBook → ℕ → OrderBook
clear_order_index b id = if ltb id max_orders then index_order b id none else b

-- `none` is the null pointer.
unfoldable pub allocate_order : OrderBook → Option OrderBook
allocate_order b =
    if b.free_orders == 0 then none else some (record b { free_orders = b.free_orders - 1 })

unfoldable pub deallocate_order : OrderBook → OrderBook
deallocate_order b = record b { free_orders = b.free_orders + 1 }

unfoldable pub allocate_level : OrderBook → Option OrderBook
allocate_level b =
    if b.free_levels == 0 then none else some (record b { free_levels = b.free_levels - 1 })

unfoldable pub deallocate_level : OrderBook → OrderBook
deallocate_level b = record b { free_levels = b.free_levels + 1 }

-- `order->init(…)`
abbrev pub new_order : ℕ → ℕ → ℕ → Side → ℕ → ℕ → Order
new_order id trader time side price quantity = record {
  id = id;
  trader_id = trader;
  timestamp = time;
  symbol = 0;
  price = price;
  quantity = quantity;
  side = side;
}

-- The second half of `add_order`: get or create the level, and queue the order there. `none` says
-- that no level was left.
unfoldable pub place : OrderBook → Order → Option OrderBook
unfolding allocate_level insert_level update_level
place b o =
    let s = book_side b o.side in
    elim (find_level s o.price) [
      | some l ↦ some (with_side b o.side (update_level s o.price (Level.add_order o)))
      | none ↦ elim (allocate_level b) [
        | none ↦ none
        | some b' ↦ some (
            with_side b' o.side
              (update_level (insert_level s (Level.fresh o.price)) o.price (Level.add_order o)))
      ]
    ]

-- What `add_order` does once its arguments have passed the checks.
unfoldable pub admit : OrderBook → Order → OrderBook × OrderResult
unfolding allocate_order clear_order_index deallocate_order
admit b o = elim (allocate_order b) [
  | none ↦ (b, pool_exhausted)
  | some b1 ↦
      let b2 = index_order b1 o.id (some (record { side = o.side; price = o.price })) in
      elim (place b2 o) [
        | none ↦ (deallocate_order (clear_order_index b2 o.id), pool_exhausted)
        | some b3 ↦ (b3, success)
      ]
]

abbrev pub is_indexed : OrderBook → ℕ → Bool
is_indexed b id = elim (b.order_index id) [ none ↦ false | some _ ↦ true ]

unfoldable pub add_order : OrderBook → ℕ → Side → ℕ → ℕ → OrderBook × OrderResult
add_order b id side price quantity =
    if not (is_valid_order_id id)
    then (b, invalid_id)
    else if price == invalid_price || price == 0
    then (b, invalid_order_price)
    else if quantity == 0
    then (b, invalid_quantity)
    else if is_indexed b id
    then (b, duplicate_order_id)
    else admit b (new_order id no_trader 0 side price quantity)

-- `remove_order_from_level` and `remove_level_if_empty`, with the level's return to the pool.
unfoldable pub unlink : OrderBook → Side → PriceLevel → Order → OrderBook
unfolding update_level deallocate_level
unlink b side l o =
    let s = update_level (book_side b side) l.price (Level.remove_order o) in
    let (s', removed) = remove_level_if_empty s (Level.remove_order o l) in
    if removed then deallocate_level (with_side b side s') else with_side b side s'

-- The order that an index entry points at, with the level that `find_level` gives for it.
unfoldable pub locate : OrderBook → ℕ → OrderRef → Option (PriceLevel × Order)
locate b id r = elim (find_level (book_side b r.side) r.price) [
  | none ↦ none
  | some l ↦ elim (Level.find id l.orders) [ none ↦ none | some o ↦ some (l, o) ]
]

-- `clear_order_index(id); deallocate_order(order);`
unfoldable pub forget : OrderBook → ℕ → OrderBook
unfolding clear_order_index deallocate_order
forget b id = deallocate_order (clear_order_index b id)

unfoldable pub cancel_order : OrderBook → ℕ → OrderBook × Bool
cancel_order b id = if not (is_valid_order_id id) then (b, false) else elim (b.order_index id) [
  | none ↦ (b, false)
  | some r ↦ elim (locate b id r) [
    | none ↦ (forget b id, true)
    | some (l, o) ↦ (forget (unlink b r.side l o) id, true)
  ]
]

-- The two branches of `execute_order` once the order and its level are found.
unfoldable pub execute_at : OrderBook → Side → PriceLevel → Order → ℕ → OrderBook
unfolding update_level
execute_at b side l o quantity =
    if leb o.quantity quantity
    then forget (unlink b side l o) o.id
    else with_side b side (update_level (book_side b side) l.price (Level.reduce_order o quantity))

unfoldable pub execute_order : OrderBook → ℕ → ℕ → OrderBook × Bool
execute_order b id quantity =
    if not (is_valid_order_id id) then (b, false) else elim (b.order_index id) [
      | none ↦ (b, false)
      | some r ↦ elim (locate b id r) [
        | none ↦ (b, false)
        | some (l, o) ↦ (execute_at b r.side l o quantity, true)
      ]
    ]

unfoldable pub best_bid : OrderBook → ℕ
best_bid b = best_price b.bids

unfoldable pub best_ask : OrderBook → ℕ
best_ask b = best_price b.asks

unfoldable pub bid_quantity_at : OrderBook → ℕ → ℕ
bid_quantity_at b price = quantity_at b.bids price

unfoldable pub ask_quantity_at : OrderBook → ℕ → ℕ
ask_quantity_at b price = quantity_at b.asks price

-- `bid_level_count` and `ask_level_count` are the lengths of the lists.
pub record BookSnapshot : Type 0 where
  pub best_bid : ℕ
  pub best_ask : ℕ
  pub best_bid_qty : ℕ
  pub best_ask_qty : ℕ
  pub bid_levels : List (ℕ × ℕ)
  pub ask_levels : List (ℕ × ℕ)

-- `BookSnapshot::MAX_LEVELS`, the size of its arrays
abbrev pub snapshot_levels : ℕ
snapshot_levels = 20

-- For as many levels as the arrays of a snapshot hold: with more, the code writes outside of them.
unfoldable pub get_snapshot :
    OrderBook → (max_levels : ℕ) → max_levels ≤ snapshot_levels → BookSnapshot
unfolding best_bid best_ask bid_quantity_at ask_quantity_at
get_snapshot b max_levels _ = record {
  best_bid = best_bid b;
  best_ask = best_ask b;
  best_bid_qty = bid_quantity_at b (best_bid b);
  best_ask_qty = ask_quantity_at b (best_ask b);
  bid_levels = for_each_level b.bids max_levels;
  ask_levels = for_each_level b.asks max_levels;
}

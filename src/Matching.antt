-- ===== src/Matching.antt =====
-- include/matching_engine.hpp: matching with price-time priority. The pools, the index and the two
-- sides are those of the order book, whose private members the class repeats line by line; `trades`
-- is what the trade callback has been given, newest last.
pub mod Priority
pub mod Fill
pub mod Pending
pub mod Head
pub mod Front
pub mod Step
pub mod Rounds
pub mod Refine
pub mod Edits
pub mod Engine
pub mod Correct
pub mod Uncrossed
pub mod Reach
mod Tests
use hft_trading_system.Prelude.{
  ℕ, zero, suc, ◌+◌, ◌%◌, Bool, true, false, ◌&&◌, ◌||◌, not, Option, none, some, List, [], ◌∷◌,
  ◌++◌, ◌==◌, ltb, if◌then◌else◌, min, sub32, length, map,
}
use hft_trading_system.Types.{
  Side, buy, sell, Order, PriceLevel, Trade, OrderResult, success, pool_exhausted, invalid_id,
  invalid_order_price, invalid_quantity, duplicate_order_id, invalid_price, no_trader,
  is_valid_order_id, reduce_quantity, is_fully_filled,
}
use hft_trading_system.Book.Level
use hft_trading_system.Book.{BookSide, find_level, best_price, update_level}
use hft_trading_system.OrderBook
use hft_trading_system.OrderBook.{
  OrderBook, book_side, with_side, index_order, allocate_order, place, unlink, forget, is_indexed,
  cancel_order, new_order,
}

pub record MatchingEngine : Type 0 where
  pub book : OrderBook
  pub has_callback : Bool
  pub trades : List Trade
  pub current_timestamp : ℕ

unfoldable pub new : ℕ → ℕ → MatchingEngine
new base range = record {
  book = OrderBook.new base range;
  has_callback = false;
  trades = [];
  current_timestamp = 0;
}

unfoldable pub set_trade_callback : MatchingEngine → MatchingEngine
set_trade_callback e = record e { has_callback = true }

abbrev pub opposite : Side → Side
opposite buy = sell
opposite sell = buy

-- The test that ends the loop of `try_match_buy` and of `try_match_sell`, negated.
abbrev pub is_matchable : Side → ℕ → ℕ → Bool
is_matchable buy best limit = not (best == invalid_price || ltb limit best)
is_matchable sell best limit = not (best == invalid_price || ltb best limit)

abbrev pub would_self_trade : Order → Order → Bool
would_self_trade aggressive passive =
    not (aggressive.trader_id == no_trader) && aggressive.trader_id == passive.trader_id

abbrev pub trade_of : ℕ → Order → Order → ℕ → Trade
trade_of time aggressive passive quantity = record {
  aggressive_order_id = aggressive.id;
  passive_order_id = passive.id;
  aggressive_trader_id = aggressive.trader_id;
  passive_trader_id = passive.trader_id;
  price = passive.price;
  quantity = quantity;
  aggressor_side = aggressive.side;
  timestamp = time;
}

unfoldable pub execute_trade : MatchingEngine → Order → Order → ℕ → MatchingEngine
execute_trade e aggressive passive quantity =
    if e.has_callback
    then record e {
      trades = e.trades ++ trade_of e.current_timestamp aggressive passive quantity ∷ [];
    }
    else e

-- The writes to the book for one fill: both quantities, then the removal of a filled order.
unfoldable pub fill_book : OrderBook → Side → PriceLevel → Order → ℕ → OrderBook
unfolding update_level
fill_book b side l passive quantity =
    let b' =
      with_side b side
        (update_level (book_side b side) l.price (Level.reduce_order passive quantity)) in
    let passive' = reduce_quantity passive quantity in
    if is_fully_filled passive'
    then forget (unlink b' side (Level.reduce_order passive quantity l) passive') passive.id
    else b'

-- What one round of the loop does: it leaves the loop with what remains, or goes on.
pub data Round : Type 0 where
  stop : ℕ → Round
  next : MatchingEngine → ℕ → Round

-- One round, once the level and its first order are found.
unfoldable pub match_first : MatchingEngine → Order → ℕ → PriceLevel → Order → Round
unfolding execute_trade
match_first e order remaining l passive =
    if would_self_trade order passive
    then stop 0
    else let quantity = min remaining passive.quantity in
      let e' = execute_trade e order passive quantity in
      next (record e' { book = fill_book e'.book (opposite order.side) l passive quantity })
        (sub32 remaining quantity)

unfoldable pub match_round : MatchingEngine → Order → ℕ → Round
match_round e order remaining =
    let s = book_side e.book (opposite order.side) in
    if remaining == 0
    then stop remaining
    else if not (is_matchable order.side (best_price s) order.price)
    then stop remaining
    else elim (find_level s (best_price s)) [
      | none ↦ stop remaining
      | some l ↦ elim l.orders [
        | [] ↦ stop remaining
        | passive ∷ _ ↦ match_first e order remaining l passive
      ]
    ]

-- The loop of `try_match_buy` and `try_match_sell`; each round but the last fills an order.
unfoldable pub match_loop : ℕ → MatchingEngine → Order → ℕ → MatchingEngine × ℕ
match_loop zero e order remaining = (e, remaining)
match_loop (suc fuel) e order remaining = elim (match_round e order remaining) [
  | stop rest ↦ (e, rest)
  | next e' rest ↦ match_loop fuel e' order rest
]

-- The resting orders of a side in the order of their priority.
abbrev pub queue_of : List PriceLevel → List Order
queue_of [] = []
queue_of (l ∷ ls) = l.orders ++ queue_of ls

-- A round for each resting order, and one to leave the loop.
unfoldable pub try_match : MatchingEngine → Order → MatchingEngine × ℕ
unfolding match_loop
try_match e order =
    match_loop (length (queue_of (book_side e.book (opposite order.side)).levels) + 1) e order
      order.quantity

-- `add_to_book`: without a level left in the pool it returns with nothing done.
unfoldable pub add_to_book : OrderBook → Order → OrderBook
add_to_book b order = elim (place b order) [ none ↦ b | some b' ↦ b' ]

-- The end of `add_order`: what remains goes to the book, else the order is given back.
unfoldable pub settle : MatchingEngine × ℕ → Order → MatchingEngine
unfolding add_to_book
settle (e, remaining) order =
    if remaining == 0
    then record e { book = forget e.book order.id }
    else record e { book = add_to_book e.book (record order { quantity = remaining }) }

unfoldable pub admit : MatchingEngine → ℕ → Side → ℕ → ℕ → ℕ → MatchingEngine × OrderResult
unfolding try_match settle
admit e id side price quantity trader = elim (allocate_order e.book) [
  | none ↦ (e, pool_exhausted)
  | some b ↦
      let time = (e.current_timestamp + 1) % 18446744073709551616 in
      let order = new_order id trader time side price quantity in
      let indexed = index_order b id (some (record { side = side; price = price })) in
      (
        settle (try_match (record e { book = indexed; current_timestamp = time }) order) order,
        success,
      )
]

unfoldable pub add_order : MatchingEngine → ℕ → Side → ℕ → ℕ → ℕ → MatchingEngine × OrderResult
add_order e id side price quantity trader =
    if not (is_valid_order_id id)
    then (e, invalid_id)
    else if price == invalid_price || price == 0
    then (e, invalid_order_price)
    else if quantity == 0
    then (e, invalid_quantity)
    else if is_indexed e.book id
    then (e, duplicate_order_id)
    else admit e id side price quantity trader

-- `cancel_order` is the order book's.
unfoldable pub cancel : MatchingEngine → ℕ → MatchingEngine × Bool
cancel e id = let (b, done) = cancel_order e.book id in (record e { book = b }, done)

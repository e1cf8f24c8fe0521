-- ===== src/World/Tests.antt =====
-- The theorems on include/symbol_world.hpp at one symbol with a bid at 99 and an ask at 101.
use hft_trading_system.Prelude.{
  ℕ, ◌<◌, ◌≤◌, ◌≡◌, ◌≢◌, refl, sym, ◌∙◌, arith, true, false, List, [], ◌∷◌, none, pos, abs,
  pos_part, get, ltb_ℤ, ◌-ℤ◌, ◌*ℤ◌,
}
use hft_trading_system.Types.{buy, sell, invalid_price, is_valid_order_id}
use hft_trading_system.Book
use hft_trading_system.Book.Level
use hft_trading_system.OrderBook
use hft_trading_system.OrderBook.{OrderBook}
use hft_trading_system.TopOfBook
use hft_trading_system.Position
use hft_trading_system.Position.{total_pnl}
use hft_trading_system.World.Risk
use hft_trading_system.World.{
  SymbolWorld, symbol_config, with_risk_limit, symbol_world, mid_price, can_trade, is_halted,
  on_fill, track_order, on_our_fill,
}
use hft_trading_system.World.Limits.{now, our_filled, top_changed, can_trade-on_fill, loss_stops}
use hft_trading_system.World.Orders.{on_our_fills, tracked_until_filled}

abbrev ticker : List ℕ
ticker = 65 ∷ 66 ∷ []

abbrev fresh_world : SymbolWorld
fresh_world = symbol_world 1 ticker (with_risk_limit (symbol_config ticker 50 100) (pos 1000))

-- Fills of 4 and 6 fill an order of 10, and it is tracked no more.
tracked_until_filled_example :
    get 7 (on_our_fills (track_order fresh_world 7 buy 100 10) 7 (4 ∷ 6 ∷ [])).our_orders ≡ none
tracked_until_filled_example =
    tracked_until_filled fresh_world 7 buy 100 10 7 (4 ∷ 6 ∷ []) (omega arith) (omega arith)

allowed : can_trade fresh_world sell 60 ≡ true
unfolding symbol_world can_trade Risk.can_trade
allowed = refl

fresh_average : fresh_world.position.avg_price < 4294967296
unfolding symbol_world
fresh_average = omega arith

can_trade-on_fill_example :
    let w' = on_fill fresh_world sell 60 100 in
    (is_halted fresh_world ≡ false)
    × (60 ≤ fresh_world.risk.config.max_order_size)
    × (abs w'.position.position ≤ pos_part w'.risk.config.max_position)
can_trade-on_fill_example =
    can_trade-on_fill fresh_world sell 60 100 allowed fresh_average (omega arith)

abbrev quoted : OrderBook
quoted =
    (OrderBook.add_order (OrderBook.add_order (OrderBook.new 50 100) 1 buy 99 5).0 2 sell 101 5).0

-- Long 10 at 500.
abbrev losing : SymbolWorld
losing = record fresh_world {
  book = quoted;
  position = record {
    position = pos 10;
    avg_price = 500;
    realized_pnl = pos 0;
    total_bought = 10;
    total_sold = 0;
  };
}

mid_is_100 : mid_price losing ≡ 100
unfolding mid_price OrderBook.best_bid OrderBook.best_ask Book.best_price OrderBook.add_order
    OrderBook.new Book.new_side OrderBook.admit OrderBook.place OrderBook.allocate_order
    OrderBook.allocate_level Book.find_level Book.level_at Book.insert_level Book.insert_sorted
    Book.update_level Book.update_at Level.add_order Book.is_in_range Level.fresh is_valid_order_id
mid_is_100 = refl

known : mid_price losing ≢ invalid_price
known = λ p. omega (arith, sym mid_is_100 ∙ p)

loses :
    ltb_ℤ
      (total_pnl (Position.on_fill losing.position buy 1 100) (mid_price losing))
      (pos 0 -ℤ losing.risk.config.max_loss)
    ≡ true
unfolding Position.on_fill total_pnl symbol_world ◌*ℤ◌
loses = rw mid_is_100 refl

-- A fill of a tracked order and a new top of the book later.
abbrev later : SymbolWorld
later = on_our_fill (record (on_fill losing buy 1 100) { top = TopOfBook.new }) 7 1

loss_stops_example : can_trade later sell 1 ≡ false
loss_stops_example =
    loss_stops losing later buy sell 1 100 1 known loses
      (our_filled 7 1 (top_changed TopOfBook.new now))

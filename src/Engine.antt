-- ===== src/Engine.antt =====
-- include/trading_engine.hpp: the symbols of an engine, the messages to their books, and the halt
-- that its halt manager runs over them. The order sender is a template parameter: what it answers is
-- an argument of the operations, and the state keeps the calls made to it. A map is the list of its
-- entries in the order of iteration. The account manager computes on doubles and is left out.
pub mod Halting
pub mod Tickers
pub mod Symbols
pub mod Named
pub mod Reach
mod Tests
use hft_trading_system.Prelude.{
  ℕ, ◌+◌, Bool, true, false, ◌&&◌, ◌==◌, if◌then◌else◌, List, [], ◌∷◌, ◌++◌, map, Option, none,
  some, ℤ, abs, u32, get, put, alter, length,
}
use hft_trading_system.Types.{Side, buy, sell}
use hft_trading_system.OrderBook
use hft_trading_system.OrderBook.{OrderBook, best_bid}
use hft_trading_system.Halt
use hft_trading_system.Halt.{
  HaltManager, HaltReason, PositionInfo, MarketOrder, Call, alert, cancel_all, get_positions,
  send_order, halt_manager, set_get_positions_callback, set_cancel_all_callback,
  set_send_order_callback,
}
use hft_trading_system.World.{SymbolWorld, SymbolConfig, OurOrder, symbol_world}

-- A call of the sender. The orders of a halt are market orders.
pub data Sent : Type 0 where
  order : MarketOrder → Bool → Sent
  cancellation : ℕ → ℕ → Sent

pub record TradingEngine : Type 0 where
  pub worlds : List (ℕ × SymbolWorld)
  pub ticker_to_id : List (List ℕ × ℕ)
  pub next_symbol_id : ℕ
  pub halt_manager : HaltManager
  pub sent : List Sent

-- `setup_halt_manager` sets three of the four callbacks.
unfoldable pub setup_halt_manager : HaltManager → HaltManager
setup_halt_manager m =
    set_send_order_callback (set_cancel_all_callback (set_get_positions_callback m))

unfoldable pub trading_engine : TradingEngine
trading_engine = record {
  worlds = [];
  ticker_to_id = [];
  next_symbol_id = 1;
  halt_manager = setup_halt_manager halt_manager;
  sent = [];
}

unfoldable pub same_ticker : List ℕ → List ℕ → Bool
same_ticker [] [] = true
same_ticker [] (b ∷ ys) = false
same_ticker (a ∷ xs) [] = false
same_ticker (a ∷ xs) (b ∷ ys) = let rest = same_ticker xs ys in a == b && rest

unfoldable pub find_ticker : List ℕ → List (List ℕ × ℕ) → Option ℕ
find_ticker k [] = none
find_ticker k ((t, id) ∷ ts) =
    let rest = find_ticker k ts in if same_ticker k t then some id else rest

unfoldable pub put_ticker : List ℕ → ℕ → List (List ℕ × ℕ) → List (List ℕ × ℕ)
put_ticker k id [] = (k, id) ∷ []
put_ticker k id ((t, id') ∷ ts) =
    let rest = put_ticker k id ts in if same_ticker k t then (t, id) ∷ ts else (t, id') ∷ rest

unfoldable pub add_symbol : TradingEngine → SymbolConfig → TradingEngine × ℕ
add_symbol e c =
    let id = e.next_symbol_id in
    (
      record e {
        next_symbol_id = u32 (id + 1);
        worlds = put id (symbol_world id c.symbol c) e.worlds;
        ticker_to_id = put_ticker c.symbol id e.ticker_to_id;
      },
      id,
    )

unfoldable pub get_symbol_world : TradingEngine → ℕ → Option SymbolWorld
get_symbol_world e id = get id e.worlds

unfoldable pub lookup_symbol : TradingEngine → List ℕ → Option ℕ
lookup_symbol e ticker = find_ticker ticker e.ticker_to_id

unfoldable pub has_symbol : TradingEngine → ℕ → Bool
unfolding get_symbol_world
has_symbol e id = elim (get_symbol_world e id) [ none ↦ false | some w ↦ true ]

abbrev pub symbol_count : TradingEngine → ℕ
symbol_count e = length e.worlds

unfoldable pub get_symbol_world_by_ticker : TradingEngine → List ℕ → Option SymbolWorld
get_symbol_world_by_ticker e ticker = elim (lookup_symbol e ticker) [
  | none ↦ none
  | some id ↦ get_symbol_world e id
]

-- A change of the book of a symbol, if there is one.
unfoldable pub with_book : TradingEngine → ℕ → (OrderBook → OrderBook) → TradingEngine
with_book e symbol f = record e {
  worlds = alter symbol (λ (w : SymbolWorld). record w { book = f w.book }) e.worlds;
}

unfoldable pub on_add_order : TradingEngine → ℕ → ℕ → Side → ℕ → ℕ → TradingEngine
on_add_order e symbol id side price quantity =
    with_book e symbol (λ b. (OrderBook.add_order b id side price quantity).0)

unfoldable pub on_cancel_order : TradingEngine → ℕ → ℕ → TradingEngine
on_cancel_order e symbol id = with_book e symbol (λ b. (OrderBook.cancel_order b id).0)

unfoldable pub on_execute_order : TradingEngine → ℕ → ℕ → ℕ → TradingEngine
on_execute_order e symbol id quantity =
    with_book e symbol (λ b. (OrderBook.execute_order b id quantity).0)

-- The handlers that take a ticker.
unfoldable pub by_ticker : TradingEngine → List ℕ → (ℕ → TradingEngine) → TradingEngine
by_ticker e ticker handle = elim (lookup_symbol e ticker) [ none ↦ e | some id ↦ handle id ]

unfoldable pub can_trade : TradingEngine → Bool
can_trade e = Halt.can_trade e.halt_manager

-- `send_order` and `cancel_order` hand on what the sender answers.
unfoldable pub send_order_to : Bool → TradingEngine → ℕ → Side → ℕ → Bool → TradingEngine × Bool
send_order_to answer e symbol side qty is_market =
    let o : MarketOrder = record { symbol = symbol; side = side; quantity = qty } in
    (record e { sent = e.sent ++ order o is_market ∷ [] }, answer)

unfoldable pub cancel_order : Bool → TradingEngine → ℕ → ℕ → TradingEngine × Bool
cancel_order answer e symbol order_id =
    (record e { sent = e.sent ++ cancellation symbol order_id ∷ [] }, answer)

abbrev pub position_info : ℕ → SymbolWorld → PositionInfo
position_info id w = record {
  symbol = id;
  position = w.position.position;
  last_price = best_bid w.book;
}

unfoldable pub positions_of : List (ℕ × SymbolWorld) → List PositionInfo
positions_of [] = []
positions_of ((id, w) ∷ ws) =
    let rest = positions_of ws in
    if abs w.position.position == 0 then rest else position_info id w ∷ rest

unfoldable pub get_all_positions : TradingEngine → List PositionInfo
get_all_positions e = positions_of e.worlds

-- `cancel_all_orders`
unfoldable pub cancels_of : List (ℕ × SymbolWorld) → List Sent
cancels_of [] = []
cancels_of ((id, w) ∷ ws) = map (λ o. cancellation id o.0) w.our_orders ++ cancels_of ws

-- What a call of a callback sends.
unfoldable pub sent_by : TradingEngine → Call → List Sent
sent_by e (alert why) = []
sent_by e cancel_all = cancels_of e.worlds
sent_by e get_positions = []
sent_by e (send_order o) = order o true ∷ []

unfoldable pub delivered : TradingEngine → List Call → List Sent
delivered e [] = []
delivered e (c ∷ cs) = sent_by e c ++ delivered e cs

-- The halt manager runs with no calls yet, and those it makes are delivered.
unfoldable pub halt : (ℕ → Bool) → TradingEngine → HaltReason → TradingEngine × Bool
halt accepts e why =
    let (m, ok) =
      Halt.halt accepts (get_all_positions e) (record e.halt_manager { calls = [] }) why in
    (
      record e {
        halt_manager = record m { calls = e.halt_manager.calls ++ m.calls };
        sent = e.sent ++ delivered e m.calls;
      },
      ok,
    )

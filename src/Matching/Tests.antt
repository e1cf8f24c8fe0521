-- ===== src/Matching/Tests.antt =====
-- Runs of include/matching_engine.hpp, and the theorems at a small book.
use hft_trading_system.Prelude.{ℕ, ◌≡◌, refl, List, [], ◌∷◌, ◌++◌, arith}
use hft_trading_system.Types.{
  buy, sell, success, Order, is_valid_order_id, is_fully_filled, reduce_quantity,
}
use hft_trading_system.Book.Level
use hft_trading_system.Book.{
  remove_level_if_empty, remove_at, update_at, insert_sorted, best_price, quantity_at, find_level,
  level_at, is_in_range, new_side,
}
use hft_trading_system.OrderBook
use hft_trading_system.OrderBook.{OrderBook, allocate_order, allocate_level, place}
use hft_trading_system.OrderBook.Invariant.{IsValid}
use hft_trading_system.OrderBook.Preserve.{with_slot}
use hft_trading_system.OrderBook.Add.{Passes}
use hft_trading_system.Matching.{
  MatchingEngine, new, set_trade_callback, add_order, admit, try_match, match_round, match_first,
  fill_book,
}
use hft_trading_system.Matching.Priority.{match_queue}
use hft_trading_system.Matching.Front.{Pending, queue_against}
use hft_trading_system.Matching.Rounds.{reports}
use hft_trading_system.Matching.Refine.{Refines, try_match-Refines}
use hft_trading_system.Matching.Engine.{Accepts, Outcome}
use hft_trading_system.Matching.Edits.{incoming}
use hft_trading_system.Matching.Correct.{
  ticked, Trades, left_over, add_order_matches, add_order_trades,
}
use hft_trading_system.Matching.Uncrossed.{IsUncrossed}
use hft_trading_system.Matching.Reach.{
  EngineReaches, created, callback_set, added, engine_invariant,
}

abbrev empty_engine : MatchingEngine
empty_engine = set_trade_callback (new 100 50)

-- Trader 7 offers 30 at 110 under id 1.
abbrev one_ask : MatchingEngine
one_ask = (add_order empty_engine 1 sell 110 30 7).0

first-Accepts : Accepts empty_engine.book (incoming empty_engine 1 sell 110 30 7)
unfolding new OrderBook.new set_trade_callback new_side quantity_at find_level is_in_range level_at
first-Accepts = record {
  fits = record { band = (omega arith, omega arith); volume_fits = omega arith };
  some_level = omega arith;
}

one_ask-reached : EngineReaches one_ask
one_ask-reached = added (callback_set (created 100 50)) 1 sell 110 30 7 (omega arith) first-Accepts

one_ask-IsValid : IsValid one_ask.book
one_ask-IsValid = (engine_invariant one_ask-reached).0

-- Trader 8 bids 40 at 111 under id 2.
second-Passes : Passes one_ask.book 2 111 40
unfolding set_trade_callback add_order is_valid_order_id new OrderBook.new admit allocate_order
    match_round best_price place find_level level_at quantity_at
second-Passes = record {
  id_valid = refl;
  price_valid = refl;
  some_quantity = omega arith;
  id_free = refl;
}

second-Accepts : Accepts one_ask.book (incoming one_ask 2 buy 111 40 8)
unfolding set_trade_callback add_order is_valid_order_id new OrderBook.new admit allocate_order
    match_round best_price place find_level level_at quantity_at
second-Accepts = record {
  fits = record { band = (omega arith, omega arith); volume_fits = omega arith };
  some_level = omega arith;
}

-- The engine in the middle of `add_order`.
abbrev bid : Order
bid = incoming one_ask 2 buy 111 40 8

abbrev matching : MatchingEngine
matching = record (ticked one_ask) { book = with_slot one_ask.book bid }

bid-Pending : Pending bid matching one_ask.book
bid-Pending = record { slot = refl; valid = one_ask-IsValid; unindexed = second-Passes.id_free }

try_match-Refines_example : Refines bid 40 matching one_ask.book (try_match matching bid)
try_match-Refines_example = try_match-Refines bid matching one_ask.book bid-Pending (omega arith)

add_order_matches_example :
    ((add_order one_ask 2 buy 111 40 8).1 ≡ success)
    × Outcome bid
        (ticked one_ask)
        (match_queue bid 40 (queue_against bid one_ask.book))
        (add_order one_ask 2 buy 111 40 8).0
add_order_matches_example =
    add_order_matches one_ask 2 buy 111 40 8 one_ask-IsValid second-Passes second-Accepts

add_order_trades_example :
    (fills : List (Order × ℕ)) × ((add_order one_ask 2 buy 111 40 8).0.trades
      ≡ one_ask.trades ++ reports (ticked one_ask) bid fills)
    × Trades bid one_ask.book
        (add_order one_ask 2 buy 111 40 8).0.book
        fills
        (left_over (add_order one_ask 2 buy 111 40 8).0.book bid)
add_order_trades_example =
    add_order_trades one_ask 2 buy 111 40 8 one_ask-IsValid second-Passes second-Accepts

engine_invariant_example : IsValid one_ask.book × IsUncrossed one_ask.book
engine_invariant_example = engine_invariant one_ask-reached

-- The bid takes the ask and rests with 10.
trades_run :
    (add_order one_ask 2 buy 111 40 8).0.trades
    ≡ record {
      aggressive_order_id = 2;
      passive_order_id = 1;
      aggressive_trader_id = 8;
      passive_trader_id = 7;
      price = 110;
      quantity = 30;
      aggressor_side = buy;
      timestamp = 2;
    }
      ∷ []
unfolding set_trade_callback add_order is_valid_order_id new OrderBook.new admit allocate_order
    match_round best_price place find_level level_at quantity_at update_at insert_sorted Level.fresh
    Level.add_order match_first fill_book is_fully_filled reduce_quantity OrderBook.forget
    OrderBook.unlink remove_level_if_empty Level.remove_order Level.reduce_order remove_at
trades_run = refl

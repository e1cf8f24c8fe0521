-- ===== src/OrderBook/Tests.antt =====
-- Runs of include/orderbook.hpp, and the theorems at a small book.
use hft_trading_system.Prelude.{
  List, [], ◌∷◌, ap, sym, ◌∙◌, fun_ext, ℕ, ◌≤◌, ◌<◌, ◌≡◌, ◌≢◌, refl, true, none, some, arith, ◌⊎◌,
  All, length,
}
use hft_trading_system.Types.{buy, sell, success, Order, invalid_price, is_valid_order_id}
use hft_trading_system.Book.{
  quantity_at, find_level, level_at, is_in_range, best_price, for_each_level, new_side, update_at,
  insert_sorted,
}
use hft_trading_system.Book.Level
use hft_trading_system.Book.Sides.{order_at, compare_of}
use hft_trading_system.OrderBook.{
  OrderBook, new, add_order, cancel_order, admit, place, allocate_order, allocate_level,
  bid_quantity_at, ask_quantity_at, get_snapshot, snapshot_levels,
}
use hft_trading_system.OrderBook.Invariant.{IsValid, is_some}
use hft_trading_system.OrderBook.Add.{Passes, Fits, add_order_atomic}
use hft_trading_system.OrderBook.RoundTrip.{cancel_order-add_order}
use hft_trading_system.OrderBook.Reach.{Reaches, created, added, reachable-IsValid}
use hft_trading_system.OrderBook.Spec.{
  add, execute, cancel, Call, Reply, Orders, replay, answer, put, write,
}
use hft_trading_system.OrderBook.View.{view}
use hft_trading_system.OrderBook.Refine.{call, run, run_refines, RunFits}
use hft_trading_system.OrderBook.Observe.{calls_agree}
use hft_trading_system.OrderBook.Queries.{SortedPrices, best_price-for_each_level}

abbrev empty_book : OrderBook
empty_book = new 100 50

-- An ask of 30 at 110 under id 1.
abbrev one_ask : OrderBook
one_ask = (add_order empty_book 1 sell 110 30).0

first-Fits : Fits empty_book sell 110 30
unfolding new new_side quantity_at find_level is_in_range level_at
first-Fits = record { band = (omega arith, omega arith); volume_fits = omega arith }

one_ask-reached : Reaches one_ask
one_ask-reached = added (created 100 50) 1 sell 110 30 first-Fits

one_ask-IsValid : IsValid one_ask
one_ask-IsValid = reachable-IsValid one_ask-reached

second-Passes : Passes one_ask 2 111 5
unfolding new add_order admit place allocate_order allocate_level is_valid_order_id find_level
    level_at
second-Passes = record {
  id_valid = refl;
  price_valid = refl;
  some_quantity = omega arith;
  id_free = refl;
}

second-Fits : Fits one_ask buy 111 5
unfolding new new_side add_order admit place allocate_order allocate_level is_valid_order_id
    quantity_at find_level is_in_range level_at
second-Fits = record { band = (omega arith, omega arith); volume_fits = omega arith }

level_left : 0 < one_ask.free_levels
unfolding new add_order admit place allocate_order allocate_level is_valid_order_id find_level
    level_at
level_left = omega arith

reachable-IsValid_example : IsValid one_ask
reachable-IsValid_example = reachable-IsValid one_ask-reached

cancel_order-add_order_example : cancel_order (add_order one_ask 2 buy 111 5).0 2 ≡ (one_ask, true)
cancel_order-add_order_example =
    cancel_order-add_order one_ask 2 buy 111 5 one_ask-IsValid second-Passes second-Fits level_left

-- An order that is accepted, a partial execution, and an id that no order has.
abbrev some_calls : List Call
some_calls = add 2 buy 111 5 ∷ execute 1 12 ∷ cancel 9 ∷ []

run_refines_example :
    let (b', rs) = run some_calls one_ask in
    IsValid b' × ((view b', rs) ≡ replay some_calls (view one_ask))
run_refines_example =
    run_refines some_calls one_ask one_ask-IsValid ((second-Fits, level_left), (tt, (tt, tt)))

-- The same two bids in the two orders of arrival.
abbrev one_way : List Call
one_way = add 2 buy 111 5 ∷ add 3 buy 111 7 ∷ []

abbrev other_way : List Call
other_way = add 3 buy 111 7 ∷ add 2 buy 111 5 ∷ []

third-Fits : Fits one_ask buy 111 7
unfolding new new_side add_order admit place allocate_order allocate_level is_valid_order_id
    quantity_at find_level is_in_range level_at call
third-Fits = record { band = (omega arith, omega arith); volume_fits = omega arith }

one_way-Fits : RunFits one_way one_ask
unfolding new new_side add_order admit place allocate_order allocate_level is_valid_order_id
    quantity_at find_level is_in_range level_at call update_at insert_sorted Level.fresh
    Level.add_order
one_way-Fits =
    let behind : Fits (call one_ask (add 2 buy 111 5)).0 buy 111 7 = record {
      band = (omega arith, omega arith);
      volume_fits = omega arith;
    } in
    ((second-Fits, level_left), ((behind, omega arith), tt))

other_way-Fits : RunFits other_way one_ask
unfolding new new_side add_order admit place allocate_order allocate_level is_valid_order_id
    quantity_at find_level is_in_range level_at call update_at insert_sorted Level.fresh
    Level.add_order
other_way-Fits =
    let behind : Fits (call one_ask (add 3 buy 111 7)).0 buy 111 5 = record {
      band = (omega arith, omega arith);
      volume_fits = omega arith;
    } in
    ((third-Fits, level_left), ((behind, omega arith), tt))

abbrev after : List Call → OrderBook
after cs = (run cs one_ask).0

same_orders : view (after one_way) ≡ view (after other_way)
unfolding replay answer put write is_valid_order_id view order_at new add_order admit place
    allocate_order allocate_level find_level level_at
same_orders =
    let one = (run_refines one_way one_ask one_ask-IsValid one_way-Fits).1 in
    let other = (run_refines other_way one_ask one_ask-IsValid other_way-Fits).1 in
    ap (λ (x : Orders × List Reply). x.0) one
    ∙ fun_ext (λ j. ground arith)
    ∙ sym (ap (λ (x : Orders × List Reply). x.0) other)

-- An execution of what came first one way, and a cancel of the other.
abbrev more_calls : List Call
more_calls = execute 2 3 ∷ cancel 3 ∷ []

calls_agree_example :
    let (c, rs) = run more_calls (after one_way) in
    let (c', rs') = run more_calls (after other_way) in
    (rs ≡ rs')
    × ((n : ℕ) (h : n ≤ snapshot_levels) → get_snapshot c n h ≡ get_snapshot c' n h)
    × ((p : ℕ) → bid_quantity_at c p ≡ bid_quantity_at c' p)
    × ((p : ℕ) → ask_quantity_at c p ≡ ask_quantity_at c' p)
calls_agree_example =
    calls_agree more_calls (after one_way) (after other_way)
      (run_refines one_way one_ask one_ask-IsValid one_way-Fits).0
      (run_refines other_way one_ask one_ask-IsValid other_way-Fits).0 same_orders (tt, (tt, tt))
      (tt, (tt, tt))

-- A second order under the same id.
duplicate : (add_order one_ask 1 buy 105 5).1 ≢ success
unfolding new add_order admit place allocate_order allocate_level is_valid_order_id find_level
    level_at
duplicate = λ p. cc

add_order_atomic_example : (add_order one_ask 1 buy 105 5).0 ≡ one_ask
add_order_atomic_example = add_order_atomic one_ask 1 buy 105 5 duplicate

best_price-for_each_level_example :
    (((best_price one_ask.asks ≡ invalid_price) × ((q j : ℕ) → order_at one_ask.asks q j ≡ none))
      ⊎ (((o : Order) × (order_at one_ask.asks (best_price one_ask.asks) o.id ≡ some o))
          × ((q j : ℕ)
              → is_some (order_at one_ask.asks q j) ≡ true
              → (q ≡ best_price one_ask.asks)
                ⊎ (compare_of sell (best_price one_ask.asks) q ≡ true))))
    × (length (for_each_level one_ask.asks 20) ≤ 20)
    × SortedPrices (compare_of sell) (for_each_level one_ask.asks 20)
    × All (λ (x : ℕ × ℕ). quantity_at one_ask.asks x.0 ≡ x.1) (for_each_level one_ask.asks 20)
    × (length one_ask.asks.levels ≤ 20
        → length (for_each_level one_ask.asks 20) ≡ length one_ask.asks.levels)
best_price-for_each_level_example =
    best_price-for_each_level one_ask.asks one_ask-IsValid.ask_side 20

-- ===== src/OrderBook/Reach.antt =====
-- The states that the operations of include/orderbook.hpp reach from the constructor.
use hft_trading_system.Prelude.{ℕ, refl, arith}
use hft_trading_system.Types.{Side, buy, sell, max_orders}
use hft_trading_system.Book.{new_side, level_at}
use hft_trading_system.Book.Sides.{order_at}
use hft_trading_system.OrderBook.{OrderBook, new, add_order, cancel_order, execute_order}
use hft_trading_system.OrderBook.Invariant.{IsValid, count_indexed-none}
use hft_trading_system.OrderBook.Add.{Fits, add_order-IsValid}
use hft_trading_system.OrderBook.Remove.{cancel_order-Effect, execute_order-Effect}

pub new-IsValid : (base range : ℕ) → IsValid (new base range)
unfolding new new_side order_at level_at
new-IsValid base range = record {
  bid_side = record { compares = refl; sorted = tt; good = tt };
  ask_side = record { compares = refl; sorted = tt; good = tt };
  indexed = λ id h. cc;
  resting = elim [ buy ↦ λ p id h. cc | sell ↦ λ p id h. cc ];
  ids = λ id h. cc;
  orders_accounted = omega (arith, count_indexed-none max_orders);
  levels_accounted = refl;
}

-- The books that calls of the operations lead to, in any order and with any arguments; only
-- the orders given to `add_order` have to fit.
pub data Reaches : OrderBook → Type 0 where
  created : (base range : ℕ) → Reaches (new base range)
  added :
      {b : OrderBook}
      → Reaches b
      → (id : ℕ) (side : Side) (price quantity : ℕ) → Fits b side price quantity
      → Reaches (add_order b id side price quantity).0
  cancelled : {b : OrderBook} → Reaches b → (id : ℕ) → Reaches (cancel_order b id).0
  executed :
      {b : OrderBook} → Reaches b → (id quantity : ℕ) → Reaches (execute_order b id quantity).0

-- Every reachable book is valid: both lists are sorted without a price twice, the total of each
-- level is the sum of its orders, the index names exactly the resting orders, and both pools are
-- accounted for.
pub reachable-IsValid : {b : OrderBook} → Reaches b → IsValid b
reachable-IsValid (created base range) = new-IsValid base range
reachable-IsValid (added {b} before id side price quantity fits) =
    add_order-IsValid b id side price quantity (reachable-IsValid before) fits
reachable-IsValid (cancelled {b} before id) =
    (cancel_order-Effect b id (reachable-IsValid before)).valid
reachable-IsValid (executed {b} before id quantity) =
    (execute_order-Effect b id quantity (reachable-IsValid before)).valid

-- ===== src/OrderBook/Spec.antt =====
-- What include/orderbook.hpp promises its clients, with no levels, pools or index: a map from ids
-- to the orders that rest.
use hft_trading_system.Prelude.{
  ℕ, Bool, ◌||◌, not, Option, none, some, List, [], ◌∷◌, ◌==◌, if◌then◌else◌,
}
use hft_trading_system.Types.{
  Side, Order, OrderResult, success, invalid_id, invalid_order_price, invalid_quantity,
  duplicate_order_id, invalid_price, no_trader, is_valid_order_id,
}
use hft_trading_system.OrderBook.{new_order}
use hft_trading_system.OrderBook.Invariant.{is_some}
use hft_trading_system.OrderBook.Remove.{filled}

abbrev pub Orders : Type 0
Orders = ℕ → Option Order

abbrev pub bind {ℓ κ} : {A : Type ℓ} {B : Type κ} → Option A → (A → Option B) → Option B
bind none f = none
bind (some x) f = f x

-- `add_order(id, side, price, quantity)`, `cancel_order(id)`, `execute_order(id, quantity)`
pub data Call : Type 0 where
  add : ℕ → Side → ℕ → ℕ → Call
  cancel : ℕ → Call
  execute : ℕ → ℕ → Call

pub data Reply : Type 0 where
  result : OrderResult → Reply
  found : Bool → Reply

unfoldable pub write : Orders → ℕ → Option Order → Orders
write f id x j = if j == id then x else f j

unfoldable pub put : Orders → ℕ → Side → ℕ → ℕ → Orders × OrderResult
put f id side price quantity =
    if not (is_valid_order_id id)
    then (f, invalid_id)
    else if price == invalid_price || price == 0
    then (f, invalid_order_price)
    else if quantity == 0
    then (f, invalid_quantity)
    else if is_some (f id)
    then (f, duplicate_order_id)
    else (write f id (some (new_order id no_trader 0 side price quantity)), success)

-- A change of what rests under one id; it reports whether an order rests there.
unfoldable pub change : Orders → ℕ → (Order → Option Order) → Orders × Bool
change f id after = (write f id (bind (f id) after), is_some (f id))

unfoldable pub answer : Orders → Call → Orders × Reply
answer f (add id side price quantity) = let (f', r) = put f id side price quantity in (f', result r)
answer f (cancel id) = let (f', r) = change f id (λ _. none) in (f', found r)
answer f (execute id quantity) = let (f', r) = change f id (filled quantity) in (f', found r)

unfoldable pub replay : List Call → Orders → Orders × List Reply
replay [] f = (f, [])
replay (c ∷ cs) f = let (f', r) = answer f c in let (f'', rs) = replay cs f' in (f'', r ∷ rs)

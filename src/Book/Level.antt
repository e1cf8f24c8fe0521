-- ===== src/Book/Level.antt =====
-- The operations of one price level: include/types.hpp (`PriceLevel`) and the order-level list
-- operations that include/orderbook.hpp and include/matching_engine.hpp share.
use hft_trading_system.Prelude.{
  ℕ, ◌+◌, Bool, Option, none, some, List, [], ◌∷◌, ◌++◌, if◌then◌else◌, ◌==◌, u32, sub32,
}
use hft_trading_system.Types.{Order, PriceLevel, reduce_quantity as reduce_order_quantity}

unfoldable pub reduce_quantity : PriceLevel → ℕ → PriceLevel
reduce_quantity l amount = record l { total_quantity = sub32 l.total_quantity amount }

unfoldable pub add_quantity : PriceLevel → ℕ → PriceLevel
add_quantity l amount = record l { total_quantity = u32 (l.total_quantity + amount) }

unfoldable pub is_empty : PriceLevel → Bool
is_empty l = l.total_quantity == 0

-- A level as `allocate_level` leaves it, with its price set by the caller.
unfoldable pub fresh : ℕ → PriceLevel
fresh price = record { price = price; total_quantity = 0; orders = [] }

-- A pointer to a queued order is its id.
unfoldable pub find : ℕ → List Order → Option Order
find id [] = none
find id (o ∷ os) = if id == o.id then some o else find id os

unfoldable pub erase : ℕ → List Order → List Order
erase id [] = []
erase id (o ∷ os) = if id == o.id then os else o ∷ erase id os

-- The write to the order that a pointer names.
unfoldable pub update : ℕ → (Order → Order) → List Order → List Order
update id f [] = []
update id f (o ∷ os) = if id == o.id then f o ∷ os else o ∷ update id f os

-- `add_order_to_level`: to the tail.
unfoldable pub add_order : Order → PriceLevel → PriceLevel
unfolding add_quantity
add_order o l = add_quantity (record l { orders = l.orders ++ o ∷ [] }) o.quantity

-- `remove_order_from_level`
unfoldable pub remove_order : Order → PriceLevel → PriceLevel
unfolding erase reduce_quantity
remove_order o l = reduce_quantity (record l { orders = erase o.id l.orders }) o.quantity

-- `order->reduce_quantity(quantity); level->reduce_quantity(quantity);`
unfoldable pub reduce_order : Order → ℕ → PriceLevel → PriceLevel
unfolding reduce_quantity update reduce_order_quantity
reduce_order o quantity l =
    reduce_quantity
      (record l { orders = update o.id (λ x. reduce_order_quantity x quantity) l.orders }) quantity

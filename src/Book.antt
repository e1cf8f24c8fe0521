-- ===== src/Book.antt =====
-- include/book_side.hpp. The sorted list of levels is `levels`, best first. The cell of the array
-- `levels_` at an in-range price holds the level of that price in the list, if there is one: so the
-- array is read by `find_level`, and `insert_level` and `remove_level` write both.
pub mod Level
pub mod Queue
pub mod Lookups
pub mod Levels
pub mod GoodLevel
pub mod Sides
pub mod Rows
pub mod Take
use hft_trading_system.Prelude.{
  ℕ, zero, suc, ◌+◌, ◌<◌, ◌≡◌, Bool, true, false, ◌&&◌, Option, none, some, List, [], ◌∷◌, ltb, leb,
  ◌==◌, if◌then◌else◌, take, map,
}
use hft_trading_system.Types.{PriceLevel, invalid_price}
use Level.{is_empty}

-- `BidCompare` and `AskCompare`: is the first price nearer to the top of the book?
unfoldable pub bid_compare : ℕ → ℕ → Bool
bid_compare a b = ltb b a

unfoldable pub ask_compare : ℕ → ℕ → Bool
ask_compare a b = ltb a b

pub record BookSide : Type 0 where
  pub compare_ : ℕ → ℕ → Bool
  pub base_price : ℕ
  pub price_range : ℕ
  pub levels : List PriceLevel

unfoldable pub new_side : (ℕ → ℕ → Bool) → ℕ → ℕ → BookSide
new_side c base range = record { compare_ = c; base_price = base; price_range = range; levels = [] }

unfoldable pub is_in_range : BookSide → ℕ → Bool
is_in_range s price = leb s.base_price price && ltb price (s.base_price + s.price_range)

unfoldable pub level_at : ℕ → List PriceLevel → Option PriceLevel
level_at price [] = none
level_at price (l ∷ ls) = if price == l.price then some l else level_at price ls

unfoldable pub find_level : BookSide → ℕ → Option PriceLevel
unfolding is_in_range
find_level s price = if is_in_range s price then level_at price s.levels else none

unfoldable pub quantity_at : BookSide → ℕ → ℕ
unfolding find_level
quantity_at s price = elim (find_level s price) [ none ↦ 0 | some l ↦ l.total_quantity ]

unfoldable pub best_price : BookSide → ℕ
best_price s = elim s.levels [ [] ↦ invalid_price | l ∷ _ ↦ l.price ]

-- `for_each_level`: the prices and quantities that the callback is given, in order.
unfoldable pub for_each_level : BookSide → ℕ → List (ℕ × ℕ)
for_each_level s max_levels = map (λ l. (l.price, l.total_quantity)) (take max_levels s.levels)

-- The walk of `insert_level` past the levels that stand before the price.
unfoldable pub insert_sorted : (ℕ → ℕ → Bool) → PriceLevel → List PriceLevel → List PriceLevel
insert_sorted c l [] = l ∷ []
insert_sorted c l (m ∷ ls) = if c m.price l.price then m ∷ insert_sorted c l ls else l ∷ m ∷ ls

unfoldable pub insert_level : BookSide → PriceLevel → BookSide
insert_level s l = record s { levels = insert_sorted s.compare_ l s.levels }

-- A write through a pointer to the first level of a price.
unfoldable pub update_at : ℕ → (PriceLevel → PriceLevel) → List PriceLevel → List PriceLevel
update_at price f [] = []
update_at price f (l ∷ ls) = if price == l.price then f l ∷ ls else l ∷ update_at price f ls

unfoldable pub update_level : BookSide → ℕ → (PriceLevel → PriceLevel) → BookSide
update_level s price f = record s { levels = update_at price f s.levels }

unfoldable pub remove_at : ℕ → List PriceLevel → List PriceLevel
remove_at price [] = []
remove_at price (l ∷ ls) = if price == l.price then ls else l ∷ remove_at price ls

unfoldable pub remove_level : BookSide → ℕ → BookSide
remove_level s price = record s { levels = remove_at price s.levels }

-- `remove_level_if_empty`, with whether the level was removed.
unfoldable pub remove_level_if_empty : BookSide → PriceLevel → BookSide × Bool
unfolding is_empty remove_level
remove_level_if_empty s l = if is_empty l then (remove_level s l.price, true) else (s, false)

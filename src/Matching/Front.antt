-- ===== src/Matching/Front.antt =====
-- The front of the queue that include/matching_engine.hpp matches against.
use hft_trading_system.Prelude.{
  ℕ, ◌≡◌, refl, false, none, List, [], ◌∷◌, arith, ap, subst, All, length,
}
use hft_trading_system.Types.{Side, buy, sell, Order, PriceLevel, invalid_price}
use hft_trading_system.Book.{BookSide, best_price}
use hft_trading_system.Book.Sides.{SideInv}
use hft_trading_system.OrderBook.Invariant.{IsValid}
use hft_trading_system.OrderBook.{OrderBook, book_side}
use hft_trading_system.OrderBook.Preserve.{with_slot}
use hft_trading_system.Matching.{MatchingEngine, opposite, queue_of, is_matchable}
use hft_trading_system.Matching.Head.{Front}

-- The engine's book is `b` with a slot held by the order that is being matched.
pub record Pending (order : Order) (e : MatchingEngine) (b : OrderBook) : Type 0 where
  pub slot : e.book ≡ with_slot b order
  pub valid : IsValid b
  pub unindexed : b.order_index order.id ≡ none

abbrev pub against : Order → OrderBook → BookSide
against order b = book_side b (opposite order.side)

abbrev pub queue_against : Order → OrderBook → List Order
queue_against order b = queue_of (against order b).levels

-- The shape of the queue: empty, or with a front.
pub data View (s : BookSide) : Type 0 where
  nothing : s.levels ≡ [] → View s
  front :
      (l : PriceLevel) (ls : List PriceLevel) (p : Order) (ps : List Order)
      → Front s l ls p ps
      → View s

pub view : (sd : Side) (s : BookSide) → SideInv sd s → View s
view sd s v = go s.levels refl
  where
    orders_of :
        (l : PriceLevel) (ls : List PriceLevel)
        → s.levels ≡ l ∷ ls
        → (os : List Order) → l.orders ≡ os
        → View s
    orders_of l ls e [] no_order =
        absurd (omega (arith, (subst (All _) e v.good).0.queued, ap length no_order))
    orders_of l ls e (p ∷ ps) q = front l ls p ps (record { levels = e; orders = q })

    go : (ls : List PriceLevel) → s.levels ≡ ls → View s
    go [] e = nothing e
    go (l ∷ ls) e = orders_of l ls e l.orders refl

pub best_empty : (s : BookSide) → s.levels ≡ [] → best_price s ≡ invalid_price
unfolding best_price
best_empty s h = rw h

pub invalid_unmatchable : (side : Side) (limit : ℕ) → is_matchable side invalid_price limit ≡ false
invalid_unmatchable buy limit = refl
invalid_unmatchable sell limit = refl

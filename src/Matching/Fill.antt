-- ===== src/Matching/Fill.antt =====
-- One fill of include/matching_engine.hpp writes to the book what `execute_order` of
-- include/orderbook.hpp would write for the passive order.
use hft_trading_system.Prelude.{
  ℕ, ◌≤◌, ◌<◌, ◌≡◌, refl, true, false, some, leb, arith, sym, subst, Bool-cases, inl, inr,
}
use hft_trading_system.Types.{Side, buy, sell, Order, PriceLevel, reduce_quantity, is_fully_filled}
use hft_trading_system.Book.Level
use hft_trading_system.Book.{BookSide, level_at, update_level, remove_level_if_empty}
use hft_trading_system.Book.Queue.{erase-update}
use hft_trading_system.Book.Levels.{update_at-update_at}
use hft_trading_system.Book.GoodLevel.{reduce_order-KeepsPrice}
use hft_trading_system.Book.Take.{take}
use hft_trading_system.OrderBook.{OrderBook, book_side, with_side, unlink, execute_at}
use hft_trading_system.Matching.{fill_book}

-- The level and the order that a fill is about.
pub record Fillable (s : BookSide) (l : PriceLevel) (p : Order) (quantity : ℕ) : Type 0 where
  pub at : level_at l.price s.levels ≡ some l
  pub queued : Level.find p.id l.orders ≡ some p
  pub enough : quantity ≤ p.quantity
  pub counted : p.quantity ≤ l.total_quantity
  pub bounded : l.total_quantity < 4294967296

reduce-remove :
    (l : PriceLevel) (p : Order)
    → p.quantity ≤ l.total_quantity
    → l.total_quantity < 4294967296
    → Level.remove_order (reduce_quantity p p.quantity) (Level.reduce_order p p.quantity l)
      ≡ Level.remove_order p l
unfolding Level.remove_order Level.reduce_order reduce_quantity
reduce-remove l p counted bounded =
    ground (arith, erase-update p.id (λ x. reduce_quantity x p.quantity) l.orders (λ x. refl))

take-reduced :
    (s : BookSide) (l : PriceLevel) (p : Order)
    → Fillable s l p p.quantity
    → take
        (update_level s l.price (Level.reduce_order p p.quantity))
        (Level.reduce_order p p.quantity l)
        (reduce_quantity p p.quantity)
      ≡ take s l p
unfolding update_level Level.reduce_order
take-reduced s l p h =
    let same = reduce-remove l p h.counted h.bounded in
    let levels =
      update_at-update_at l.price (Level.reduce_order p p.quantity)
        (Level.remove_order (reduce_quantity p p.quantity)) (Level.remove_order p) s.levels
        (reduce_order-KeepsPrice p p.quantity) h.at same in
    λ i. remove_level_if_empty (record s { levels = levels i }) (same i)

unlink-reduced :
    (b : OrderBook) (side : Side) (l : PriceLevel) (p : Order)
    → Fillable (book_side b side) l p p.quantity
    → unlink
        (with_side b side
          (update_level (book_side b side) l.price (Level.reduce_order p p.quantity)))
        side
        (Level.reduce_order p p.quantity l)
        (reduce_quantity p p.quantity)
      ≡ unlink b side l p
unfolding unlink
unlink-reduced b buy l p h = rw (take-reduced b.bids l p h)
unlink-reduced b sell l p h = rw (take-reduced b.asks l p h)

-- The two tests for a filled order agree.
filled_test :
    (p : Order) (quantity : ℕ)
    → quantity ≤ p.quantity
    → p.quantity < 4294967296
    → is_fully_filled (reduce_quantity p quantity) ≡ leb p.quantity quantity
unfolding is_fully_filled reduce_quantity
filled_test p quantity h small = ground arith

fill_whole :
    (b : OrderBook) (side : Side) (l : PriceLevel) (p : Order)
    → Fillable (book_side b side) l p p.quantity
    → fill_book b side l p p.quantity ≡ execute_at b side l p p.quantity
unfolding fill_book execute_at
fill_whole b side l p h =
    let test = filled_test p p.quantity h.enough (omega (arith, h.counted, h.bounded)) in
    let all : leb p.quantity p.quantity ≡ true = ground arith in
    rw (test, all, unlink-reduced b side l p h)

fill_part :
    (b : OrderBook) (side : Side) (l : PriceLevel) (p : Order) (quantity : ℕ)
    → Fillable (book_side b side) l p quantity
    → leb p.quantity quantity ≡ false
    → fill_book b side l p quantity ≡ execute_at b side l p quantity
unfolding fill_book execute_at
fill_part b side l p quantity h part =
    let test = filled_test p quantity h.enough (omega (arith, h.counted, h.bounded)) in
    rw (test, part)

pub fill_book-execute_at :
    (b : OrderBook) (side : Side) (l : PriceLevel) (p : Order) (quantity : ℕ)
    → Fillable (book_side b side) l p quantity
    → fill_book b side l p quantity ≡ execute_at b side l p quantity
fill_book-execute_at b side l p quantity h = elim (Bool-cases (leb p.quantity quantity)) [
  | inr part ↦ fill_part b side l p quantity h part
  | inl whole ↦
      let same : p.quantity ≡ quantity = ground (arith, h.enough) in
      subst (λ n. fill_book b side l p n ≡ execute_at b side l p n) same
        (fill_whole b side l p (subst (λ n. Fillable (book_side b side) l p n) (sym same) h))
]

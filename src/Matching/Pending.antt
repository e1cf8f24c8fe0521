-- ===== src/Matching/Pending.antt =====
-- While include/matching_engine.hpp matches an order, the order holds a slot of the pool and a cell
-- of the index, and does not rest in the book: the book is `with_slot b order` for a valid `b`.
use hft_trading_system.Prelude.{
  ℕ, ◌+◌, ◌-◌, ◌≤◌, ◌<◌, ◌≡◌, ◌≢◌, refl, Option, none, some, ◌==◌, leb, lt→ltb, arith, fun_ext,
  Bool-cases, inl, inr, if◌then◌else◌,
}
use hft_trading_system.Types.{Side, buy, sell, Order, PriceLevel, max_orders}
use hft_trading_system.Book.{BookSide}
use hft_trading_system.Book.Take.{take}
use hft_trading_system.OrderBook.{
  OrderRef, OrderBook, book_side, with_side, unlink, forget, execute_at, deallocate_level,
}
use hft_trading_system.OrderBook.Preserve.{with_slot, ref}

unlink-with_slot :
    (b : OrderBook) (o : Order) (side : Side) (l : PriceLevel) (p : Order)
    → unlink (with_slot b o) side l p ≡ with_slot (unlink b side l p) o
unfolding unlink
unlink-with_slot b o buy l p = elim (Bool-cases (take b.bids l p).1) [ inl e ↦ rw e | inr e ↦ rw e ]
unlink-with_slot b o sell l p = elim (Bool-cases (take b.asks l p).1) [
  | inl e ↦ rw e
  | inr e ↦ rw e
]

forget-with_slot :
    (b : OrderBook) (o : Order) (id : ℕ)
    → id ≢ o.id
    → id < max_orders
    → 0 < b.free_orders
    → forget (with_slot b o) id ≡ with_slot (forget b id) o
unfolding forget
forget-with_slot b o id other small some_left =
    rw (lt→ltb id max_orders small) (λ i. record b { order_index = index i; free_orders = count i })
  where
    index :
        ◌≡◌ {A = ℕ → Option OrderRef}
          (λ j. if j == id then none else (with_slot b o).order_index j)
          (λ j.
            if j == o.id
            then some (ref o.side o.price)
            else if j == id
            then none
            else b.order_index j)
    index = fun_ext (λ j. ground arith)

    count : b.free_orders - 1 + 1 ≡ b.free_orders + 1 - 1
    count = omega arith

with_side-with_slot :
    (b : OrderBook) (o : Order) (side : Side) (s : BookSide)
    → with_side (with_slot b o) side s ≡ with_slot (with_side b side s) o
with_side-with_slot b o buy s = refl
with_side-with_slot b o sell s = refl

pub side-with_slot :
    (b : OrderBook) (o : Order) (side : Side) → book_side (with_slot b o) side ≡ book_side b side
side-with_slot b o buy = refl
side-with_slot b o sell = refl

unlink-free_orders :
    (b : OrderBook) (side : Side) (l : PriceLevel) (p : Order)
    → ((unlink b side l p).free_orders ≡ b.free_orders)
      × ((unlink b side l p).order_index ≡ b.order_index)
unfolding unlink
unlink-free_orders b buy l p = elim (Bool-cases (take b.bids l p).1) [
  | inl e ↦ rw e (refl, refl)
  | inr e ↦ rw e (refl, refl)
]
unlink-free_orders b sell l p = elim (Bool-cases (take b.asks l p).1) [
  | inl e ↦ rw e (refl, refl)
  | inr e ↦ rw e (refl, refl)
]

-- A fill of another order does not touch the slot.
pub execute_at-with_slot :
    (b : OrderBook) (o : Order) (side : Side) (l : PriceLevel) (p : Order) (quantity : ℕ)
    → p.id ≢ o.id
    → p.id < max_orders
    → 0 < b.free_orders
    → execute_at (with_slot b o) side l p quantity ≡ with_slot (execute_at b side l p quantity) o
unfolding execute_at
execute_at-with_slot b o side l p quantity other small some_left =
    elim (Bool-cases (leb p.quantity quantity)) [
      | inl whole ↦
          rw (whole, unlink-with_slot b o side l p)
            (forget-with_slot (unlink b side l p) o p.id other small
              (rw (unlink-free_orders b side l p).0 some_left))
      | inr part ↦ rw (part, side-with_slot b o side) (with_side-with_slot b o side _)
    ]

index-with_side :
    (b : OrderBook) (side : Side) (s : BookSide) → (with_side b side s).order_index ≡ b.order_index
index-with_side b buy s = refl
index-with_side b sell s = refl

-- Nor does it index anything.
pub execute_at-unindexed :
    (b : OrderBook) (side : Side) (l : PriceLevel) (p : Order) (quantity j : ℕ)
    → b.order_index j ≡ none
    → (execute_at b side l p quantity).order_index j ≡ none
unfolding execute_at forget
execute_at-unindexed b side l p quantity j h = elim (Bool-cases (leb p.quantity quantity)) [
  | inl whole ↦
      let kept : (unlink b side l p).order_index j ≡ none =
        rw (unlink-free_orders b side l p).1 h in
      rw whole (ground arith)
  | inr part ↦ rw (part, index-with_side b side) h
]

unlink-levels :
    (b : OrderBook) (side : Side) (l : PriceLevel) (p : Order)
    → b.free_levels ≤ (unlink b side l p).free_levels
unfolding unlink deallocate_level
unlink-levels b buy l p = elim (Bool-cases (take b.bids l p).1) [
  | inl e ↦ rw e (omega arith)
  | inr e ↦ rw e (omega arith)
]
unlink-levels b sell l p = elim (Bool-cases (take b.asks l p).1) [
  | inl e ↦ rw e (omega arith)
  | inr e ↦ rw e (omega arith)
]

forget-levels : (b : OrderBook) (id : ℕ) → (forget b id).free_levels ≡ b.free_levels
unfolding forget
forget-levels b id = ground arith

levels-with_side :
    (b : OrderBook) (side : Side) (s : BookSide) → (with_side b side s).free_levels ≡ b.free_levels
levels-with_side b buy s = refl
levels-with_side b sell s = refl

-- And it takes no level from the pool.
pub execute_at-levels :
    (b : OrderBook) (side : Side) (l : PriceLevel) (p : Order) (quantity : ℕ)
    → b.free_levels ≤ (execute_at b side l p quantity).free_levels
unfolding execute_at
execute_at-levels b side l p quantity = elim (Bool-cases (leb p.quantity quantity)) [
  | inl whole ↦ rw (whole, forget-levels) (unlink-levels b side l p)
  | inr part ↦ rw (part, levels-with_side b side) (omega arith)
]

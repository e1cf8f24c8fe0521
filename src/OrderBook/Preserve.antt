-- ===== src/OrderBook/Preserve.antt =====
-- The invariant of include/orderbook.hpp under a change of one resting order together with the
-- matching change of `order_index_`.
use hft_trading_system.Prelude.{
  ℕ, ◌-◌, ◌<◌, ◌≡◌, refl, true, ◌&&◌, Option, none, some, if◌then◌else◌, ◌==◌, arith, ap, lt→ltb,
}
use hft_trading_system.Types.{Side, buy, sell, Order, is_valid_order_id, max_orders}
use hft_trading_system.Book.Sides.{order_at}
use hft_trading_system.OrderBook.Invariant.{
  same_side, IsValid, IsValid-free, Edits, is_some, count_indexed_write, count_one,
}
use hft_trading_system.OrderBook.{OrderRef, OrderBook, book_side, index_order, forget}

abbrev pub ref : Side → ℕ → OrderRef
ref sd p = record { side = sd; price = p }

pub valid_lt : (id : ℕ) → is_valid_order_id id ≡ true → id < max_orders
unfolding is_valid_order_id
valid_lt id h = ground arith

-- The book in which an order is queued: one slot of the pool is taken, and the id indexed.
abbrev pub with_slot : OrderBook → Order → OrderBook
with_slot b o =
    index_order (record b { free_orders = b.free_orders - 1 }) o.id (some (ref o.side o.price))

-- What an edit of a book that shares its sides with `b` says of the index and of the entries.
module _ (b b1 b' : OrderBook) (sd : Side) (price id : ℕ) (entry : Option Order)
    (bids : b1.bids ≡ b.bids) (asks : b1.asks ≡ b.asks) (e : Edits sd price id entry b1 b') where
  shared : (q : Side) → book_side b1 q ≡ book_side b q
  shared buy = bids
  shared sell = asks

  pub entry_after :
      (q : Side) (p j : ℕ)
      → order_at (book_side b' q) p j ≡ (
          if same_side q sd && (p == price && j == id) then entry else order_at (book_side b q) p j)
  entry_after q p j = rw (← shared q) (e.entry_at q p j)

pub same_side-eq : (a b : Side) → same_side a b ≡ true → a ≡ b
same_side-eq buy buy h = refl
same_side-eq sell sell h = refl
same_side-eq buy sell h = cc
same_side-eq sell buy h = cc

pub same_side_refl : (a : Side) → same_side a a ≡ true
same_side_refl buy = refl
same_side_refl sell = refl

module _ (b b' : OrderBook) (v : IsValid b) (o : Order) where
  pub insert-IsValid :
      b.order_index o.id ≡ none
      → is_valid_order_id o.id ≡ true
      → Edits o.side o.price o.id (some o) (with_slot b o) b'
      → IsValid b'
  insert-IsValid new valid e =
      let at = entry_after b (with_slot b o) b' o.side o.price o.id (some o) refl refl e in
      let index : (j : ℕ)
          → b'.order_index j ≡ (if j == o.id then some (ref o.side o.price) else b.order_index j) =
        λ j. ap (λ (f : ℕ → Option OrderRef). f j) e.index_kept in
      record {
        bid_side = e.bid_side;
        ask_side = e.ask_side;
        indexed = λ id {r} h.
            ground
              (arith, at r.side r.price id, index id, v.indexed id {r = r}, same_side_refl o.side);
        resting = λ sd p id h.
            ground (arith, at sd p id, index id, v.resting sd p id, same_side-eq sd o.side, new);
        ids = λ id h. ground (arith, index id, v.ids id, valid);
        orders_accounted = rw e.index_kept (
            omega (
              arith,
              e.orders_kept,
              v.orders_accounted,
              IsValid-free v,
              count_indexed_write max_orders o.id b.order_index (some (ref o.side o.price))
                  (valid_lt o.id valid),
              ap count_one new,
            ));
        levels_accounted = omega (arith, e.levels_kept, v.levels_accounted);
      }

module _ (b b' : OrderBook) (v : IsValid b) (sd : Side) (price id : ℕ)
    (held : b.order_index id ≡ some (ref sd price)) where
  -- Uniqueness: an indexed id has no other queue entry.
  other_entry :
      (q : Side) (p : ℕ) → is_some (order_at (book_side b q) p id) ≡ true → ref q p ≡ ref sd price
  other_entry q p h = ground (arith, v.resting q p id)

  pub remove-IsValid : Edits sd price id none b b' → IsValid (forget b' id)
  unfolding forget
  remove-IsValid e =
      let at = entry_after b b b' sd price id none refl refl e in
      let valid = v.ids id (rw held) in
      let small = lt→ltb id max_orders (valid_lt id valid) in
      let index : (j : ℕ) → b'.order_index j ≡ b.order_index j =
        λ j. ap (λ (f : ℕ → Option OrderRef). f j) e.index_kept in
      rw small (record {
        bid_side = e.bid_side;
        ask_side = e.ask_side;
        indexed = λ j {r} h. ground (arith, at r.side r.price j, index j, v.indexed j {r = r});
        resting = λ q p j h.
            ground
              (arith, at q p j, index j, v.resting q p j, other_entry q p, same_side_refl sd, held);
        ids = λ j h. ground (arith, index j, v.ids j);
        orders_accounted = rw e.index_kept (
            omega (
              arith,
              e.orders_kept,
              v.orders_accounted,
              count_indexed_write max_orders id b.order_index none (valid_lt id valid),
              ap count_one held,
            ));
        levels_accounted = omega (arith, e.levels_kept, v.levels_accounted);
      })

  pub refill-IsValid : {o : Order} → Edits sd price id (some o) b b' → IsValid b'
  refill-IsValid {o} e =
      let at = entry_after b b b' sd price id (some o) refl refl e in
      let index : (j : ℕ) → b'.order_index j ≡ b.order_index j =
        λ j. ap (λ (f : ℕ → Option OrderRef). f j) e.index_kept in
      record {
        bid_side = e.bid_side;
        ask_side = e.ask_side;
        indexed = λ j {r} h. ground (arith, at r.side r.price j, index j, v.indexed j {r = r});
        resting =
            λ q p j h. ground (arith, at q p j, index j, v.resting q p j, same_side-eq q sd, held);
        ids = λ j h. ground (arith, index j, v.ids j);
        orders_accounted = rw e.index_kept (omega (arith, e.orders_kept, v.orders_accounted));
        levels_accounted = omega (arith, e.levels_kept, v.levels_accounted);
      }

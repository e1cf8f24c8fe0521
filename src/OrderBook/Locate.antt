-- ===== src/OrderBook/Locate.antt =====
-- Where include/orderbook.hpp finds the order of an indexed id.
use hft_trading_system.Prelude.{ℕ, ◌≡◌, some, arith, Option-cases, inl, inr}
use hft_trading_system.Types.{Order, PriceLevel}
use hft_trading_system.Book.Level
use hft_trading_system.Book.Queue.{find-id}
use hft_trading_system.Book.Lookups.{level_at-price}
use hft_trading_system.Book.{level_at}
use hft_trading_system.Book.Sides.{order_at, find_level-level_at, order_at-IsOwn}
use hft_trading_system.OrderBook.Invariant.{IsValid, IsValid-side}
use hft_trading_system.OrderBook.Preserve.{}
use hft_trading_system.OrderBook.{OrderRef, OrderBook, book_side, locate}

-- Where the order of an indexed id stands.
pub record Located (b : OrderBook) (id : ℕ) (r : OrderRef) (l : PriceLevel) (o : Order)
    : Type 0 where
  pub found : locate b id r ≡ some (l, o)
  pub level : level_at l.price (book_side b r.side).levels ≡ some l
  pub at_price : l.price ≡ r.price
  pub same : o.price ≡ l.price
  pub own_id : o.id ≡ id
  pub queued : Level.find o.id l.orders ≡ some o
  pub rests : order_at (book_side b r.side) r.price id ≡ some o

-- An indexed order always stands in the level that `find_level` gives for it.
pub locate-Located :
    (b : OrderBook) (id : ℕ) (r : OrderRef)
    → IsValid b
    → b.order_index id ≡ some r
    → (l : PriceLevel) × (o : Order) × Located b id r l o
unfolding locate order_at
locate-Located b id r v held =
    let s = book_side b r.side in
    let sv = IsValid-side r.side v in
    let found = find_level-level_at sv r.price in
    let some_order = v.indexed id held in
    elim (Option-cases (level_at r.price s.levels)) [
      | inl e ↦ absurd (ground arith)
      | inr (l, e) ↦ elim (Option-cases (Level.find id l.orders)) [
        | inl no_order ↦ absurd (ground arith)
        | inr (o, q) ↦
            let price = level_at-price r.price s.levels e in
            let own = find-id id l.orders q in
            let rests : order_at s r.price id ≡ some o = ground arith in
            (
              l,
              o,
              record {
                found = ground arith;
                level = simp price e;
                at_price = price;
                same = ground (arith, order_at-IsOwn sv r.price id {o = o} rests);
                own_id = own;
                queued = simp own q;
                rests = rests;
              },
            )
      ]
    ]

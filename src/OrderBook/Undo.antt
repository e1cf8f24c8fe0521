-- ===== src/OrderBook/Undo.antt =====
-- The two writes of include/orderbook.hpp that add and take an order undo each other on one side.
use hft_trading_system.Prelude.{
  ℕ, ◌+◌, ◌-◌, ◌<◌, ◌≡◌, refl, Bool, true, false, none, some, if◌then◌else◌, ◌==◌, arith, ◌∙◌, u32,
  sub32,
}
use hft_trading_system.Types.{Side, buy, sell, Order, PriceLevel, is_valid_order_id}
use hft_trading_system.Book.Level
use hft_trading_system.Book.Queue.{volume, erase-append}
use hft_trading_system.Book.Levels.{update_at-undo, remove_at-insert_sorted, remove_at-update_at}
use hft_trading_system.Book.Lookups.{level_at-price}
use hft_trading_system.Book.GoodLevel.{
  IsGoodLevel, IsGoodLevel-total, add_order-KeepsPrice, remove_order-KeepsPrice,
}
use hft_trading_system.Book.Take.{take}
use hft_trading_system.Book.{
  BookSide, find_level, level_at, update_level, insert_level, remove_level, remove_level_if_empty,
  update_at, insert_sorted,
}
use hft_trading_system.Book.Sides.{SideInv, SideInv-level}
use hft_trading_system.OrderBook.Preserve.{with_slot, ref}
use hft_trading_system.OrderBook.{
  OrderBook, book_side, with_side, locate, unlink, forget, cancel_order,
}

-- A level that has gained an order and lost it again.
pub add-remove :
    (base range : ℕ) (sd : Side) (o : Order) (l : PriceLevel)
    → IsGoodLevel base range sd l
    → Level.find o.id l.orders ≡ none
    → volume l.orders + o.quantity < 4294967296
    → (Level.remove_order o (Level.add_order o l) ≡ l)
      × (Level.is_empty (Level.remove_order o (Level.add_order o l)) ≡ false)
unfolding Level.remove_order Level.add_order Level.is_empty
add-remove base range sd o l g new fits =
    let same = erase-append l.orders o new in
    (
      ground (arith, same, g.total, g.fits),
      ground (arith, same, g.total, g.fits, IsGoodLevel-total base range sd l g),
    )

module _ (sd : Side) (s : BookSide) (v : SideInv sd s) (o : Order) where
  -- Both writes to an existing level.
  pub queue-take :
      {l : PriceLevel}
      → level_at o.price s.levels ≡ some l
      → Level.find o.id l.orders ≡ none
      → volume l.orders + o.quantity < 4294967296
      → take (update_level s o.price (Level.add_order o)) (Level.add_order o l) o ≡ (s, false)
  unfolding remove_level_if_empty update_level Level.add_order
  queue-take {l} e new fits =
      let price = level_at-price o.price s.levels e in
      let (undone, not_empty) = add-remove _ _ sd o l (SideInv-level v o.price e) new fits in
      let levels =
        update_at-undo o.price (Level.add_order o) (Level.remove_order o) s.levels
          (add_order-KeepsPrice o) e undone in
      rw (not_empty, price) (λ i. (record s { levels = levels i }, false))

  pub open-take :
      level_at o.price s.levels ≡ none
      → o.quantity < 4294967296
      → take
          (update_level (insert_level s (Level.fresh o.price)) o.price (Level.add_order o))
          (Level.add_order o (Level.fresh o.price))
          o
        ≡ (s, true)
  unfolding remove_level_if_empty update_level insert_level remove_level Level.add_order
      Level.remove_order Level.is_empty Level.fresh
  open-take e fits =
      let total : (sub32 (u32 (0 + o.quantity)) o.quantity == 0) ≡ true = ground arith in
      let empty = Level.fresh o.price in
      let opened = insert_sorted s.compare_ empty s.levels in
      let levels =
        remove_at-update_at o.price (Level.remove_order o)
          (update_at o.price (Level.add_order o) opened) (remove_order-KeepsPrice o)
        ∙ remove_at-update_at o.price (Level.add_order o) opened (add_order-KeepsPrice o)
        ∙ remove_at-insert_sorted s.compare_ empty s.levels e in
      rw total (λ i. (record s { levels = levels i }, true))

-- The order has been queued in the level `l` of `s`.
pub locate-with_side :
    (b : OrderBook) (sd : Side) (s : BookSide) (o : Order) (l : PriceLevel)
    → find_level s o.price ≡ some l
    → Level.find o.id l.orders ≡ some o
    → locate (with_side b sd s) o.id (ref sd o.price) ≡ some (l, o)
unfolding locate
locate-with_side b buy s o l found queued = ground arith
locate-with_side b sell s o l found queued = ground arith

-- Taking it out gives the side as it was before.
pub unlink-with_side :
    (b : OrderBook) (sd : Side) (s : BookSide) (o : Order) (l : PriceLevel) (removed : Bool)
    → take s l o ≡ (book_side b sd, removed)
    → unlink (with_side b sd s) sd l o
      ≡ record b { free_levels = if removed then b.free_levels + 1 else b.free_levels }
unfolding unlink
unlink-with_side b buy s o l true e = rw e
unlink-with_side b buy s o l false e = rw e
unlink-with_side b sell s o l true e = rw e
unlink-with_side b sell s o l false e = rw e

pub level_sides :
    (b : OrderBook) (o : Order) (sd : Side)
    → book_side (record (with_slot b o) { free_levels = b.free_levels - 1 }) sd ≡ book_side b sd
level_sides b o buy = refl
level_sides b o sell = refl

pub index-with_side :
    (b : OrderBook) (sd : Side) (s : BookSide) → (with_side b sd s).order_index ≡ b.order_index
index-with_side b buy s = refl
index-with_side b sell s = refl

pub cancel_placed :
    (b : OrderBook) (s : BookSide) (o : Order) (l : PriceLevel) (removed : Bool)
    → is_valid_order_id o.id ≡ true
    → b.order_index o.id ≡ some (ref o.side o.price)
    → find_level s o.price ≡ some l
    → Level.find o.id l.orders ≡ some o
    → take s l o ≡ (book_side b o.side, removed)
    → cancel_order (with_side b o.side s) o.id ≡ (
      forget (record b { free_levels = if removed then b.free_levels + 1 else b.free_levels }) o.id,
      true,
    )
unfolding cancel_order
cancel_placed b s o l removed valid held found queued e = rw (
  valid,
  index-with_side b o.side s,
  held,
  locate-with_side b o.side s o l found queued,
  unlink-with_side b o.side s o l removed e,
)

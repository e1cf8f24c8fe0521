-- ===== src/OrderBook/RoundTrip.antt =====
-- Cancelling an order that has just been added restores the book of include/orderbook.hpp.
use hft_trading_system.Prelude.{
  ℕ, ◌+◌, ◌-◌, ◌<◌, ◌≡◌, true, false, none, some, ◌==◌, arith, Option-cases, inl, inr, ap, ◌∙◌,
}
use hft_trading_system.Types.{Side, Order, PriceLevel, is_valid_order_id, no_trader}
use hft_trading_system.Book.Level
use hft_trading_system.Book.Queue.{volume, find-append}
use hft_trading_system.Book.Lookups.{level_at-update_at, level_at-insert_sorted}
use hft_trading_system.Book.GoodLevel.{add_order-KeepsPrice}
use hft_trading_system.Book.{
  BookSide, find_level, level_at, update_level, insert_level, is_in_range, quantity_at,
  insert_sorted,
}
use hft_trading_system.Book.Sides.{SideInv-level, order_at, find_level-level_at}
use hft_trading_system.OrderBook.Invariant.{IsValid, IsValid-side, IsValid-free}
use hft_trading_system.OrderBook.Preserve.{with_slot, ref, valid_lt}
use hft_trading_system.OrderBook.{
  OrderBook, book_side, with_side, forget, cancel_order, place, admit, add_order, new_order,
}
use hft_trading_system.OrderBook.Add.{Passes, Fits, add_order-admit, restored, unindexed, slot_side}
use hft_trading_system.OrderBook.Undo.{queue-take, open-take, level_sides, cancel_placed}

module _ (b : OrderBook) (o : Order) (v : IsValid b) (valid : is_valid_order_id o.id ≡ true)
    (free : b.order_index o.id ≡ none) (fits : Fits b o.side o.price o.quantity) where
  same : book_side (with_slot b o) o.side ≡ book_side b o.side
  same = slot_side b o o.side

  some_left : (b.free_orders == 0) ≡ false
  some_left = ground (arith, IsValid-free v)

  in_range : is_in_range (book_side b o.side) o.price ≡ true
  unfolding is_in_range
  in_range = ground (arith, fits.band)

  new_in :
      {l : PriceLevel}
      → level_at o.price (book_side b o.side).levels ≡ some l
      → Level.find o.id l.orders ≡ none
  unfolding order_at
  new_in {l} e = ground (arith, unindexed v o.side o.price o.id free)

  fits_in :
      {l : PriceLevel}
      → level_at o.price (book_side b o.side).levels ≡ some l
      → volume l.orders + o.quantity < 4294967296
  unfolding quantity_at
  fits_in {l} e =
      let sv = IsValid-side o.side v in
      ground (
        arith,
        fits.volume_fits,
        find_level-level_at sv o.price,
        (SideInv-level sv o.price {l = l} e).total,
      )

  slot_held : (with_slot b o).order_index o.id ≡ some (ref o.side o.price)
  slot_held = ground arith

  -- The call gives back the slot that it took.
  slot_back : forget (with_slot b o) o.id ≡ b
  unfolding forget
  slot_back = restored b o free (valid_lt o.id valid) (IsValid-free v)

  module _ {l : PriceLevel} (e : level_at o.price (book_side b o.side).levels ≡ some l) where
    found_queued :
        find_level (update_level (book_side b o.side) o.price (Level.add_order o)) o.price
        ≡ some (Level.add_order o l)
    unfolding find_level update_level
    found_queued = ground (
      arith,
      in_range,
      level_at-update_at o.price o.price (Level.add_order o) (book_side b o.side).levels {l = l}
          (add_order-KeepsPrice o) e,
    )

    queued_last : Level.find o.id (Level.add_order o l).orders ≡ some o
    unfolding Level.add_order
    queued_last = ground (arith, find-append o.id l.orders o (new_in e))

    admitted_queued :
        (admit b o).0
        ≡ with_side
            (with_slot b o)
            o.side
            (update_level (book_side b o.side) o.price (Level.add_order o))
    unfolding admit place
    admitted_queued =
        let found = find_level-level_at (IsValid-side o.side v) o.price in
        ground (arith, some_left, same, found)

  cancel_queued :
      {l : PriceLevel}
      → level_at o.price (book_side b o.side).levels ≡ some l
      → cancel_order (admit b o).0 o.id ≡ (b, true)
  cancel_queued {l} e =
      let s = book_side b o.side in
      let sv = IsValid-side o.side v in
      let s' = update_level s o.price (Level.add_order o) in
      let taken = queue-take o.side s sv o e (new_in e) (fits_in e) in
      let found : find_level s' o.price ≡ some (Level.add_order o l) = found_queued e in
      let queued : Level.find o.id (Level.add_order o l).orders ≡ some o = queued_last e in
      let done : (admit b o).0 ≡ with_side (with_slot b o) o.side s' = admitted_queued e in
      rw done (
        cancel_placed (with_slot b o) s' o (Level.add_order o l) false valid slot_held found queued
          (rw same taken)
        ∙ ap (λ (x : OrderBook). (x, true)) slot_back)

  module _ (e : level_at o.price (book_side b o.side).levels ≡ none)
      (small : o.quantity < 4294967296) (some_level : 0 < b.free_levels) where
    opened : BookSide
    opened =
        update_level (insert_level (book_side b o.side) (Level.fresh o.price)) o.price
          (Level.add_order o)

    first : PriceLevel
    first = Level.add_order o (Level.fresh o.price)

    found_opened : find_level opened o.price ≡ some first
    unfolding opened first find_level update_level insert_level Level.fresh
    found_opened =
        let s = book_side b o.side in
        let empty = Level.fresh o.price in
        ground (
          arith,
          in_range,
          level_at-insert_sorted o.price s.compare_ empty s.levels e,
          level_at-update_at o.price o.price (Level.add_order o)
              (insert_sorted s.compare_ empty s.levels) {l = empty} (add_order-KeepsPrice o),
        )

    queued_first : Level.find o.id first.orders ≡ some o
    unfolding first Level.add_order Level.fresh Level.find
    queued_first = ground arith

    -- The book with the slot and the level taken from their pools.
    with_level : OrderBook
    with_level = record (with_slot b o) { free_levels = b.free_levels - 1 }

    level_side : book_side with_level o.side ≡ book_side b o.side
    unfolding with_level
    level_side = level_sides b o o.side

    admitted_opened : (admit b o).0 ≡ with_side with_level o.side opened
    unfolding admit place opened with_level
    admitted_opened =
        let found = find_level-level_at (IsValid-side o.side v) o.price in
        ground (arith, some_left, same, found)

    level_back : forget (record with_level { free_levels = b.free_levels - 1 + 1 }) o.id ≡ b
    unfolding with_level
    level_back =
        let n : b.free_levels - 1 + 1 ≡ b.free_levels = omega arith in
        ap (λ k. forget (record (with_slot b o) { free_levels = k }) o.id) n ∙ slot_back

    cancel_opened : cancel_order (admit b o).0 o.id ≡ (b, true)
    unfolding with_level opened first
    cancel_opened =
        let s = book_side b o.side in
        let taken = open-take o.side s (IsValid-side o.side v) o e small in
        rw admitted_opened (
          cancel_placed with_level opened o first true valid slot_held found_opened queued_first
            (rw level_side taken)
          ∙ ap (λ (x : OrderBook). (x, true)) level_back)

-- Cancelling an order right after it was added gives back the very book from before: levels,
-- queues, index and pools.
pub cancel_order-add_order :
    (b : OrderBook) (id : ℕ) (side : Side) (price quantity : ℕ)
    → IsValid b
    → Passes b id price quantity
    → Fits b side price quantity
    → 0 < b.free_levels
    → cancel_order (add_order b id side price quantity).0 id ≡ (b, true)
cancel_order-add_order b id side price quantity v p fits some_level =
    let o = new_order id no_trader 0 side price quantity in
    let small : quantity < 4294967296 = omega (arith, fits.volume_fits) in
    rw (add_order-admit b id side price quantity p)
      (elim (Option-cases (level_at price (book_side b side).levels)) [
        | inl e ↦ cancel_opened b o v p.id_valid p.id_free fits e small some_level
        | inr (l, e) ↦ cancel_queued b o v p.id_valid p.id_free fits e
      ])

-- ===== src/OrderBook/Edits.antt =====
-- Each write of include/orderbook.hpp to a side of the book changes one resting order, and keeps
-- the invariant of both sides.
use hft_trading_system.Prelude.{
  ℕ, ◌+◌, ◌-◌, ◌≤◌, ◌<◌, ◌≡◌, refl, ◌&&◌, Option, none, some, if◌then◌else◌, ◌==◌, arith, length,
  Bool-cases, Option-cases, inl, inr, subst,
}
use hft_trading_system.Types.{Side, buy, sell, Order, PriceLevel, reduce_quantity}
use hft_trading_system.Book.Level
use hft_trading_system.Book.{
  BookSide, level_at, quantity_at, insert_level, insert_sorted, update_level,
}
use hft_trading_system.Book.Queue.{volume}
use hft_trading_system.Book.Levels.{length-update_at, length-insert_sorted}
use hft_trading_system.Book.Sides.{
  SideInv, SideInv-level, order_at, find_level-level_at, SideInv-queue, order_at-queue,
  SideInv-open, order_at-open,
}
use hft_trading_system.Book.Take.{take, take-Takes, SideInv-reduce, order_at-reduce}
use hft_trading_system.OrderBook.Invariant.{Edits}
use hft_trading_system.OrderBook.{OrderBook, book_side, with_side, place, unlink, deallocate_level}

-- Both sides keep their invariant.
abbrev pub SidesInv : OrderBook → Type 0
SidesInv b = SideInv buy b.bids × SideInv sell b.asks

abbrev pub side_inv : (b : OrderBook) (sd : Side) → SidesInv b → SideInv sd (book_side b sd)
side_inv b buy v = v.0
side_inv b sell v = v.1

-- A write to one side, with what it does to the number of levels.
with_side-Edits :
    (b b0 : OrderBook) (sd : Side) (s : BookSide) (p id : ℕ) (entry : Option Order)
    → SidesInv b
    → SideInv sd s
    → ((q j : ℕ)
        → order_at s q j ≡ (if q == p && j == id then entry else order_at (book_side b sd) q j))
    → b0.bids ≡ b.bids
    → b0.asks ≡ b.asks
    → b0.order_index ≡ b.order_index
    → b0.free_orders ≡ b.free_orders
    → b0.free_levels + length s.levels ≡ b.free_levels + length (book_side b sd).levels
    → Edits sd p id entry b (with_side b0 sd s)
with_side-Edits b b0 buy s p id entry v inv law bids asks index orders levels = record {
  bid_side = inv;
  ask_side = rw asks v.1;
  entry_at = elim [ buy ↦ λ q j. law q j | sell ↦ λ q j. rw asks ];
  index_kept = index;
  orders_kept = orders;
  levels_kept = rw asks (omega arith);
}
with_side-Edits b b0 sell s p id entry v inv law bids asks index orders levels = record {
  bid_side = rw bids v.0;
  ask_side = inv;
  entry_at = elim [ buy ↦ λ q j. rw bids | sell ↦ λ q j. law q j ];
  index_kept = index;
  orders_kept = orders;
  levels_kept = rw bids (omega arith);
}

-- The price is one that the array of levels covers.
abbrev pub InBand : BookSide → ℕ → Type 0
InBand s p = (s.base_price ≤ p) × (p < s.base_price + s.price_range)

module _ (b : OrderBook) (v : SidesInv b) (o : Order) (pos : 0 < o.quantity)
    (new : order_at (book_side b o.side) o.price o.id ≡ none)
    (fits : quantity_at (book_side b o.side) o.price + o.quantity < 4294967296)
    (band : InBand (book_side b o.side) o.price) where
  new_in :
      {l : PriceLevel}
      → level_at o.price (book_side b o.side).levels ≡ some l
      → Level.find o.id l.orders ≡ none
  unfolding order_at
  new_in {l} e = ground arith

  fits_in :
      {l : PriceLevel}
      → level_at o.price (book_side b o.side).levels ≡ some l
      → volume l.orders + o.quantity < 4294967296
  unfolding quantity_at
  fits_in {l} e =
      let sv = side_inv b o.side v in
      ground (
        arith,
        find_level-level_at sv o.price,
        (SideInv-level sv o.price {l = l} e).total,
        (SideInv-level sv o.price {l = l} e).total,
      )

  place_queue :
      (b' : OrderBook) {l : PriceLevel}
      → level_at o.price (book_side b o.side).levels ≡ some l
      → place b o ≡ some b'
      → Edits o.side o.price o.id (some o) b b'
  unfolding place
  place_queue b' {l} e h =
      let s = book_side b o.side in
      let sv = side_inv b o.side v in
      let found = find_level-level_at sv o.price in
      let written : with_side b o.side (update_level s o.price (Level.add_order o)) ≡ b' =
        ground arith in
      subst (Edits o.side o.price o.id (some o) b) written (
        with_side-Edits b b o.side _ o.price o.id (some o) v
          (SideInv-queue o.side s sv o (refl, refl, pos) e (fits_in e) (new_in e))
          (λ q j. order_at-queue o.side s sv o (refl, refl, pos) q j e (new_in e)) refl refl refl
          refl (omega (arith, length-update_at o.price (Level.add_order o) s.levels)))

  place_open :
      (b' : OrderBook)
      → level_at o.price (book_side b o.side).levels ≡ none
      → place b o ≡ some b'
      → Edits o.side o.price o.id (some o) b b'
  unfolding place
  place_open b' e h =
      let s = book_side b o.side in
      let sv = side_inv b o.side v in
      let found = find_level-level_at sv o.price in
      let s' = update_level (insert_level s (Level.fresh o.price)) o.price (Level.add_order o) in
      let b0 = record b { free_levels = b.free_levels - 1 } in
      let small : o.quantity < 4294967296 = omega arith in
      let some_free : 0 < b.free_levels = ground arith in
      let written : with_side b0 o.side s' ≡ b' = ground arith in
      subst (Edits o.side o.price o.id (some o) b) written (
        with_side-Edits b b0 o.side s' o.price o.id (some o) v
          (SideInv-open o.side s sv o (refl, refl, pos) e band.0 band.1 small)
          (λ q j. order_at-open o.side s sv o (refl, refl, pos) e band.0 band.1 small q j) refl refl
          refl refl
          (omega (
            arith,
            length-update_at o.price (Level.add_order o)
                (insert_sorted s.compare_ (Level.fresh o.price) s.levels),
            length-insert_sorted s.compare_ (Level.fresh o.price) s.levels,
          )))

  pub place-Edits : (b' : OrderBook) → place b o ≡ some b' → Edits o.side o.price o.id (some o) b b'
  place-Edits b' h = elim (Option-cases (level_at o.price (book_side b o.side).levels)) [
    | inl e ↦ place_open b' e h
    | inr (l, e) ↦ place_queue b' e h
  ]

deallocate_level-with_side :
    (b : OrderBook) (sd : Side) (s : BookSide)
    → deallocate_level (with_side b sd s)
      ≡ with_side (record b { free_levels = b.free_levels + 1 }) sd s
unfolding deallocate_level
deallocate_level-with_side b buy s = refl
deallocate_level-with_side b sell s = refl

-- An order that stands in a level of its side.
module _ (b : OrderBook) (v : SidesInv b) (sd : Side) (o : Order) (l : PriceLevel)
    (e : level_at l.price (book_side b sd).levels ≡ some l) (same : o.price ≡ l.price)
    (h : Level.find o.id l.orders ≡ some o) where
  pub unlink-Edits : Edits sd o.price o.id none b (unlink b sd l o)
  unfolding unlink
  unlink-Edits =
      let s = book_side b sd in
      let t = take-Takes sd s (side_inv b sd v) o l e same h in
      elim (Bool-cases (take s l o).1) [
        | inl removed ↦
            rw (removed, deallocate_level-with_side b sd (take s l o).0)
              (with_side-Edits b (record b { free_levels = b.free_levels + 1 }) sd (take s l o).0
                o.price o.id none v t.inv t.gone refl refl refl refl
                (omega (arith, rw removed at t.levels)))
        | inr kept ↦ rw kept (
            with_side-Edits b b sd (take s l o).0 o.price o.id none v t.inv t.gone refl refl refl
              refl (omega (arith, rw kept at t.levels)))
      ]

  pub reduce-Edits :
      (quantity : ℕ)
      → quantity < o.quantity
      → Edits sd o.price o.id
          (some (reduce_quantity o quantity))
          b
          (with_side b sd (update_level (book_side b sd) l.price (Level.reduce_order o quantity)))
  unfolding update_level
  reduce-Edits quantity less =
      let s = book_side b sd in
      let sv = side_inv b sd v in
      with_side-Edits b b sd _ o.price o.id _ v (SideInv-reduce sd s sv o l e same h quantity less)
        (order_at-reduce sd s sv o l e same h quantity) refl refl refl refl
        (omega (arith, length-update_at l.price (Level.reduce_order o quantity) s.levels))

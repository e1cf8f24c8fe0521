-- ===== src/Book/Sides.antt =====
-- The invariant of one side of the book (include/book_side.hpp), and what the writes that
-- include/orderbook.hpp and include/matching_engine.hpp make there do to it.
use hft_trading_system.Prelude.{
  ℕ, ◌+◌, ◌≤◌, ◌<◌, ◌≡◌, Bool, ◌&&◌, Option, none, some, if◌then◌else◌, ◌==◌, arith, All,
  Option-cases, inl, inr,
}
use hft_trading_system.Types.{PriceLevel, Order, Side, buy, sell}
use hft_trading_system.Book.Level
use hft_trading_system.Book.Queue.{volume, find-append, All-find}
use hft_trading_system.Book.GoodLevel.{
  IsOwn, IsGoodLevel, add_order-KeepsPrice, add_order-IsGoodLevel, first_order-IsGoodLevel,
}
use hft_trading_system.Book.Levels.{All-level_at, All-update_at, All-update_at-insert_sorted}
use hft_trading_system.Book.Lookups.{
  IsStrictOrder, bid_compare-IsStrictOrder, ask_compare-IsStrictOrder, IsSorted, level_at-price,
  level_at-update_at, level_at-insert_sorted, IsSorted-insert_sorted, IsSorted-update_at,
}
use hft_trading_system.Book.{
  BookSide, bid_compare, ask_compare, level_at, find_level, insert_level, update_level, update_at,
  insert_sorted,
}

abbrev pub compare_of : Side → ℕ → ℕ → Bool
compare_of buy = bid_compare
compare_of sell = ask_compare

pub compare_of-IsStrictOrder : (sd : Side) → IsStrictOrder (compare_of sd)
compare_of-IsStrictOrder buy = bid_compare-IsStrictOrder
compare_of-IsStrictOrder sell = ask_compare-IsStrictOrder

pub record SideInv (sd : Side) (s : BookSide) : Type 0 where
  pub compares : s.compare_ ≡ compare_of sd
  pub sorted : IsSorted (compare_of sd) s.levels
  pub good : All (IsGoodLevel s.base_price s.price_range sd) s.levels

-- The order of an id in the queue at a price.
unfoldable pub order_at : BookSide → ℕ → ℕ → Option Order
order_at s p id = elim (level_at p s.levels) [ none ↦ none | some l ↦ Level.find id l.orders ]

module _ {sd : Side} {s : BookSide} (v : SideInv sd s) where
  pub SideInv-level :
      (p : ℕ) {l : PriceLevel}
      → level_at p s.levels ≡ some l
      → IsGoodLevel s.base_price s.price_range sd l
  SideInv-level p h = All-level_at _ p s.levels v.good h

  -- Within the invariant the array and the list agree.
  pub find_level-level_at : (p : ℕ) → find_level s p ≡ level_at p s.levels
  unfolding find_level
  find_level-level_at p = elim (Option-cases (level_at p s.levels)) [
    | inl e ↦ ground arith
    | inr (l, e) ↦ ground (arith, level_at-price p s.levels {l = l}, SideInv-level p {l = l} e)
  ]

  pub order_at-IsOwn : (p id : ℕ) {o : Order} → order_at s p id ≡ some o → IsOwn sd p o
  unfolding order_at
  order_at-IsOwn p id {o} h = elim (Option-cases (level_at p s.levels)) [
    | inl e ↦ absurd (ground arith)
    | inr (l, e) ↦
        rw (level_at-price p s.levels e) at
          (All-find _ id l.orders {o = o} (SideInv-level p e).own (ground arith))
  ]

-- An order goes to the tail of the level of its price.
module _ (sd : Side) (s : BookSide) (v : SideInv sd s) (o : Order) (own : IsOwn sd o.price o) where
  pub SideInv-queue :
      {l : PriceLevel}
      → level_at o.price s.levels ≡ some l
      → volume l.orders + o.quantity < 4294967296
      → Level.find o.id l.orders ≡ none
      → SideInv sd (update_level s o.price (Level.add_order o))
  unfolding update_level
  SideInv-queue {l} e fits new = record {
    compares = v.compares;
    sorted =
        IsSorted-update_at (compare_of sd) (compare_of-IsStrictOrder sd) o.price _ s.levels
          (add_order-KeepsPrice o) v.sorted;
    good =
        All-update_at _ o.price _ s.levels e
          (add_order-IsGoodLevel s.base_price s.price_range sd o l (SideInv-level v o.price e)
            (rw (level_at-price o.price s.levels e) own) fits new)
          v.good;
  }

  pub order_at-queue :
      (p j : ℕ) {l : PriceLevel}
      → level_at o.price s.levels ≡ some l
      → Level.find o.id l.orders ≡ none
      → order_at (update_level s o.price (Level.add_order o)) p j
        ≡ (if p == o.price && j == o.id then some o else order_at s p j)
  unfolding update_level order_at Level.add_order
  order_at-queue p j {l} e new = ground (
    arith,
    level_at-update_at p o.price (Level.add_order o) s.levels {l = l} (add_order-KeepsPrice o) e,
    find-append j l.orders o new,
  )

  -- An order opens the level of its price.
  module _ (free : level_at o.price s.levels ≡ none) (lo : s.base_price ≤ o.price)
      (hi : o.price < s.base_price + s.price_range) (small : o.quantity < 4294967296) where
    level_at-open :
        (p : ℕ)
        → level_at p (
            update_at o.price
              (Level.add_order o)
              (insert_sorted s.compare_ (Level.fresh o.price) s.levels))
          ≡ (if p == o.price
              then some (Level.add_order o (Level.fresh o.price))
              else level_at p s.levels)
    unfolding Level.fresh
    level_at-open p =
        let empty = Level.fresh o.price in
        ground (
          arith,
          level_at-update_at p o.price (Level.add_order o) (insert_sorted s.compare_ empty s.levels)
              {l = empty} (add_order-KeepsPrice o),
          level_at-insert_sorted p s.compare_ empty s.levels free,
          level_at-insert_sorted o.price s.compare_ empty s.levels free,
        )

    pub SideInv-open :
        SideInv sd (update_level (insert_level s (Level.fresh o.price)) o.price (Level.add_order o))
    unfolding update_level insert_level Level.fresh
    SideInv-open =
        let order = compare_of-IsStrictOrder sd in
        let empty = Level.fresh o.price in
        record {
          compares = v.compares;
          sorted = rw v.compares (
              IsSorted-update_at (compare_of sd) order o.price _ _ (add_order-KeepsPrice o)
                (IsSorted-insert_sorted (compare_of sd) order empty s.levels free v.sorted));
          good =
              All-update_at-insert_sorted _ s.compare_ (Level.add_order o) empty s.levels free
                (first_order-IsGoodLevel s.base_price s.price_range sd o o.price lo hi own small)
                v.good;
        }

    pub order_at-open :
        (p j : ℕ)
        → order_at
            (update_level (insert_level s (Level.fresh o.price)) o.price (Level.add_order o))
            p
            j
          ≡ (if p == o.price && j == o.id then some o else order_at s p j)
    unfolding update_level insert_level order_at Level.add_order Level.fresh Level.find
    order_at-open p j = ground (arith, free, level_at-open p)

-- ===== src/Book/Take.antt =====
-- Orders that leave their level, and orders that are filled in part, on one side of the book:
-- `remove_order_from_level` and `remove_level_if_empty` of include/orderbook.hpp.
use hft_trading_system.Prelude.{
  ℕ, ◌+◌, ◌<◌, ◌≡◌, refl, Bool, true, false, ◌&&◌, none, some, [], if◌then◌else◌, ◌==◌, arith,
  length, inl, inr,
}
use hft_trading_system.Types.{PriceLevel, Order, Side, reduce_quantity}
use hft_trading_system.Book.Level
use hft_trading_system.Book.Queue.{find-erase, find-update}
use hft_trading_system.Book.GoodLevel.{
  IsGoodLevel, remove_order-KeepsPrice, reduce_order-KeepsPrice, remove_order-empty,
  reduce_order-IsGoodLevel,
}
use hft_trading_system.Book.Levels.{
  All-update_at, All-remove_at, length-update_at, length-remove_at, remove_at-update_at,
}
use hft_trading_system.Book.Lookups.{
  level_at-update_at, level_at-remove_at, IsSorted-update_at, IsSorted-remove_at,
}
use hft_trading_system.Book.{BookSide, level_at, update_level, remove_level, remove_level_if_empty}
use hft_trading_system.Book.Sides.{
  compare_of, compare_of-IsStrictOrder, SideInv, SideInv-level, order_at,
}

-- The level is written to, and goes with its last order.
abbrev pub take : BookSide → PriceLevel → Order → BookSide × Bool
take s l o =
    remove_level_if_empty (update_level s l.price (Level.remove_order o)) (Level.remove_order o l)

abbrev pub count_removed : Bool → ℕ
count_removed true = 1
count_removed false = 0

pub record Takes (sd : Side) (s : BookSide) (o : Order) (r : BookSide × Bool) : Type 0 where
  pub inv : SideInv sd r.0
  pub gone :
      (p j : ℕ) → order_at r.0 p j ≡ (if p == o.price && j == o.id then none else order_at s p j)
  pub levels : length r.0.levels + count_removed r.1 ≡ length s.levels
  pub base : r.0.base_price ≡ s.base_price
  pub range : r.0.price_range ≡ s.price_range

module _ (sd : Side) (s : BookSide) (v : SideInv sd s) (o : Order) (l : PriceLevel)
    (e : level_at l.price s.levels ≡ some l) (same : o.price ≡ l.price)
    (h : Level.find o.id l.orders ≡ some o) where
  take_last :
      Level.is_empty (Level.remove_order o l) ≡ true
      → Level.erase o.id l.orders ≡ []
      → Takes sd s o (take s l o)
  unfolding remove_level_if_empty update_level remove_level Level.remove_order order_at Level.find
  take_last empty none_left =
      let order = compare_of-IsStrictOrder sd in
      let gone_with =
        remove_at-update_at l.price (Level.remove_order o) s.levels (remove_order-KeepsPrice o) in
      rw (empty, gone_with)
        (record {
          inv = record {
            compares = v.compares;
            sorted = IsSorted-remove_at (compare_of sd) order l.price _ v.sorted;
            good = All-remove_at _ l.price _ v.good;
          };
          gone = λ p j.
              let lost : Level.find j (Level.erase o.id l.orders) ≡ none = rw none_left in
              ground (
                arith,
                lost,
                level_at-remove_at (compare_of sd) order p l.price s.levels v.sorted,
                find-erase j o.id l.orders (SideInv-level v l.price e).distinct,
              );
          levels = length-remove_at l.price s.levels e;
          base = refl;
          range = refl;
        })

  take_some :
      Level.is_empty (Level.remove_order o l) ≡ false
      → IsGoodLevel s.base_price s.price_range sd (Level.remove_order o l)
      → Takes sd s o (take s l o)
  unfolding remove_level_if_empty update_level Level.remove_order order_at
  take_some more g =
      let order = compare_of-IsStrictOrder sd in
      let keeps = remove_order-KeepsPrice o in
      rw more (record {
        inv = record {
          compares = v.compares;
          sorted = IsSorted-update_at (compare_of sd) order l.price _ s.levels keeps v.sorted;
          good = All-update_at _ l.price _ s.levels e g v.good;
        };
        gone = λ p j. ground (
          arith,
          level_at-update_at p l.price (Level.remove_order o) s.levels {l = l} keeps e,
          find-erase j o.id l.orders (SideInv-level v l.price e).distinct,
        );
        levels = omega (arith, length-update_at l.price (Level.remove_order o) s.levels);
        base = refl;
        range = refl;
      })

  pub take-Takes : Takes sd s o (take s l o)
  take-Takes =
      elim (remove_order-empty s.base_price s.price_range sd o l (SideInv-level v l.price e) h) [
        | inl (empty, none_left) ↦ take_last empty none_left
        | inr (more, g) ↦ take_some more g
      ]

  -- A partial fill.
  pub SideInv-reduce :
      (quantity : ℕ)
      → quantity < o.quantity
      → SideInv sd (update_level s l.price (Level.reduce_order o quantity))
  unfolding update_level
  SideInv-reduce quantity less =
      let g = SideInv-level v l.price e in
      record {
        compares = v.compares;
        sorted =
            IsSorted-update_at (compare_of sd) (compare_of-IsStrictOrder sd) l.price _ s.levels
              (reduce_order-KeepsPrice o quantity) v.sorted;
        good =
            All-update_at _ l.price _ s.levels e
              (reduce_order-IsGoodLevel s.base_price s.price_range sd o quantity l g h less) v.good;
      }

  pub order_at-reduce :
      (quantity p j : ℕ)
      → order_at (update_level s l.price (Level.reduce_order o quantity)) p j
        ≡ (if p == o.price && j == o.id then some (reduce_quantity o quantity) else order_at s p j)
  unfolding update_level order_at Level.reduce_order
  order_at-reduce quantity p j = ground (
    arith,
    level_at-update_at p l.price (Level.reduce_order o quantity) s.levels {l = l}
        (reduce_order-KeepsPrice o quantity) e,
    find-update (λ x. reduce_quantity x quantity) (λ x. unfold reduce_quantity in refl) j o.id
        l.orders {o = o} h,
  )

-- ===== src/Book/GoodLevel.antt =====
-- The invariant of one price level, and the writes to a level that include/orderbook.hpp and
-- include/matching_engine.hpp make.
use hft_trading_system.Prelude.{
  ℕ, ◌+◌, ◌≤◌, ◌<◌, ◌≡◌, ◌≢◌, refl, true, false, none, some, List, [], ◌∷◌, ◌==◌, arith, length,
  length-append, All, All-append, ap, Bool-cases, inl, inr, ◌⊎◌,
}
use hft_trading_system.Types.{PriceLevel, Order, Side, reduce_quantity}
use hft_trading_system.Book.Level
use hft_trading_system.Book.Queue.{
  volume, DistinctIds, volume-append, volume-erase, volume-update, DistinctIds-append,
  DistinctIds-erase, DistinctIds-update, All-find, All-erase, All-update, length-update,
  volume_of_find,
}
use hft_trading_system.Book.Lookups.{KeepsPrice}
use hft_trading_system.Book.{}

-- An order that stands where it belongs, with something left to fill.
abbrev pub IsOwn : Side → ℕ → Order → Type 0
IsOwn sd price o = (o.side ≡ sd) × (o.price ≡ price) × (0 < o.quantity)

pub record IsGoodLevel (base range : ℕ) (sd : Side) (l : PriceLevel) : Type 0 where
  pub from_base : base ≤ l.price
  pub below_end : l.price < base + range
  pub queued : 0 < length l.orders
  pub own : All (IsOwn sd l.price) l.orders
  pub total : l.total_quantity ≡ volume l.orders
  pub fits : volume l.orders < 4294967296
  pub distinct : DistinctIds l.orders

-- `add_order_to_level` keeps the price, and so do the other writes.
pub add_order-KeepsPrice : (o : Order) → KeepsPrice (Level.add_order o)
unfolding Level.add_order
add_order-KeepsPrice o l = refl

pub remove_order-KeepsPrice : (o : Order) → KeepsPrice (Level.remove_order o)
unfolding Level.remove_order
remove_order-KeepsPrice o l = refl

pub add_order-IsGoodLevel :
    (base range : ℕ) (sd : Side) (o : Order) (l : PriceLevel)
    → IsGoodLevel base range sd l
    → IsOwn sd l.price o
    → volume l.orders + o.quantity < 4294967296
    → Level.find o.id l.orders ≡ none
    → IsGoodLevel base range sd (Level.add_order o l)
unfolding Level.add_order
add_order-IsGoodLevel base range sd o l g own fits new = record {
  from_base = g.from_base;
  below_end = g.below_end;
  queued = omega (arith, length-append l.orders (o ∷ []));
  own = All-append _ l.orders (o ∷ []) g.own (own, tt);
  total = omega (arith, g.total, volume-append l.orders o);
  fits = omega (arith, volume-append l.orders o);
  distinct = DistinctIds-append l.orders o new g.distinct;
}

-- A level that holds one order.
pub first_order-IsGoodLevel :
    (base range : ℕ) (sd : Side) (o : Order) (p : ℕ)
    → base ≤ p
    → p < base + range
    → IsOwn sd p o
    → o.quantity < 4294967296
    → IsGoodLevel base range sd (Level.add_order o (Level.fresh p))
unfolding Level.add_order Level.fresh Level.find
first_order-IsGoodLevel base range sd o p lo hi own fits = record {
  from_base = lo;
  below_end = hi;
  queued = omega arith;
  own = (own, tt);
  total = omega arith;
  fits = omega arith;
  distinct = (refl, tt);
}

queued_of_volume : (os : List Order) → volume os ≢ 0 → 0 < length os
queued_of_volume [] h = absurd (h refl)
queued_of_volume (o ∷ os) h = omega arith

volume_zero : (sd : Side) (p : ℕ) (os : List Order) → All (IsOwn sd p) os → volume os ≡ 0 → os ≡ []
volume_zero sd p [] a h = refl
volume_zero sd p (o ∷ os) a h = absurd (omega arith)

-- The level after a removal is empty by its counter exactly when no order is left in it.
pub remove_order-empty :
    (base range : ℕ) (sd : Side) (o : Order) (l : PriceLevel)
    → IsGoodLevel base range sd l
    → Level.find o.id l.orders ≡ some o
    → ((Level.is_empty (Level.remove_order o l) ≡ true) × (Level.erase o.id l.orders ≡ []))
      ⊎ ((Level.is_empty (Level.remove_order o l) ≡ false)
          × IsGoodLevel base range sd (Level.remove_order o l))
unfolding Level.remove_order Level.is_empty
remove_order-empty base range sd o l g h =
    let less = volume-erase o.id l.orders h in
    let own = All-erase _ o.id l.orders g.own in
    elim (Bool-cases (volume (Level.erase o.id l.orders) == 0)) [
      | inl e ↦ inl (ground arith, volume_zero sd l.price _ own (ground arith))
      | inr e ↦ inr (
        ground arith,
        record {
          from_base = g.from_base;
          below_end = g.below_end;
          queued = queued_of_volume _ (ground arith);
          own = own;
          total = omega (arith, g.total, g.fits);
          fits = omega (arith, g.fits);
          distinct = DistinctIds-erase o.id l.orders g.distinct;
        },
      )
    ]

pub reduce_order-KeepsPrice :
    (o : Order) (quantity : ℕ) → KeepsPrice (Level.reduce_order o quantity)
unfolding Level.reduce_order
reduce_order-KeepsPrice o quantity l = refl

-- A partial fill leaves something of the order.
pub reduce_order-IsGoodLevel :
    (base range : ℕ) (sd : Side) (o : Order) (quantity : ℕ) (l : PriceLevel)
    → IsGoodLevel base range sd l
    → Level.find o.id l.orders ≡ some o
    → quantity < o.quantity
    → IsGoodLevel base range sd (Level.reduce_order o quantity l)
unfolding Level.reduce_order reduce_quantity
reduce_order-IsGoodLevel base range sd o quantity l g h lt =
    let f : Order → Order = λ x. reduce_quantity x quantity in
    let fill = volume-update f o.id l.orders h in
    let mine = All-find _ o.id l.orders g.own h in
    let part = volume_of_find o.id l.orders h in
    record {
      from_base = g.from_base;
      below_end = g.below_end;
      queued = rw (length-update o.id f l.orders) g.queued;
      own = All-update _ f o.id l.orders h (mine.0, mine.1, omega (arith, g.fits)) g.own;
      total = omega (arith, g.total, g.fits);
      fits = omega (arith, g.fits);
      distinct = DistinctIds-update f (λ x. refl) o.id l.orders g.distinct;
    }

pub IsGoodLevel-total :
    (base range : ℕ) (sd : Side) (l : PriceLevel)
    → IsGoodLevel base range sd l
    → 0 < l.total_quantity
IsGoodLevel-total base range sd l g = elim (Bool-cases (volume l.orders == 0)) [
  | inl e ↦
      absurd
        (omega (arith, g.queued, ap length (volume_zero sd l.price l.orders g.own (ground arith))))
  | inr e ↦ ground (arith, g.total)
]

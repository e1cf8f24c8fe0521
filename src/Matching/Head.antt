-- ===== src/Matching/Head.antt =====
-- The front of the queue of include/matching_engine.hpp: the first order of the best level.
use hft_trading_system.Prelude.{
  ℕ, ◌≤◌, ◌≡◌, refl, some, List, [], ◌∷◌, ◌++◌, leb, arith, ap, sym, ◌∙◌, subst, Bool-cases, inl,
  inr, if◌then◌else◌, All,
}
use hft_trading_system.Types.{Side, buy, sell, Order, PriceLevel, reduce_quantity}
use hft_trading_system.Book.Level
use hft_trading_system.Book.Queue.{volume_of_find}
use hft_trading_system.Book.{
  BookSide, level_at, find_level, best_price, update_level, update_at, remove_at,
  remove_level_if_empty,
}
use hft_trading_system.Book.GoodLevel.{IsGoodLevel, IsOwn, remove_order-empty}
use hft_trading_system.Book.Sides.{SideInv, SideInv-level, find_level-level_at}
use hft_trading_system.Book.Take.{take}
use hft_trading_system.OrderBook.{OrderBook, book_side, with_side, unlink, execute_at}
use hft_trading_system.OrderBook.Remove.{forgotten}
use hft_trading_system.Matching.{opposite, queue_of}
use hft_trading_system.Matching.Fill.{Fillable}

-- The best level `l` of a side, and its first order `p`.
pub record Front (s : BookSide) (l : PriceLevel) (ls : List PriceLevel) (p : Order)
    (ps : List Order) : Type 0 where
  pub levels : s.levels ≡ l ∷ ls
  pub orders : l.orders ≡ p ∷ ps

pub Front-queue :
    {s : BookSide} {l : PriceLevel} {ls : List PriceLevel} {p : Order} {ps : List Order}
    → Front s l ls p ps
    → queue_of s.levels ≡ p ∷ (ps ++ queue_of ls)
Front-queue f = rw (f.levels) (rw (f.orders))

-- Writes to the first level and to the first order.
update_at_head :
    (f : PriceLevel → PriceLevel) (l : PriceLevel) (ls : List PriceLevel)
    → update_at l.price f (l ∷ ls) ≡ f l ∷ ls
unfolding update_at
update_at_head f l ls = ground arith

remove_at_head :
    (q : ℕ) (l : PriceLevel) (ls : List PriceLevel) → l.price ≡ q → remove_at q (l ∷ ls) ≡ ls
unfolding remove_at
remove_at_head q l ls h = ground arith

erase_head : (p : Order) (ps : List Order) → Level.erase p.id (p ∷ ps) ≡ ps
unfolding Level.erase
erase_head p ps = ground arith

update_head :
    (f : Order → Order) (p : Order) (ps : List Order) → Level.update p.id f (p ∷ ps) ≡ f p ∷ ps
unfolding Level.update
update_head f p ps = ground arith

module _ (sd : Side) (s : BookSide) (v : SideInv sd s) (l : PriceLevel) (ls : List PriceLevel)
    (p : Order) (ps : List Order) (f : Front s l ls p ps) where
  pub head_at : level_at l.price s.levels ≡ some l
  unfolding level_at
  head_at = rw f.levels (ground arith)

  pub head_queued : Level.find p.id l.orders ≡ some p
  unfolding Level.find
  head_queued = rw f.orders (ground arith)

  pub head-level : IsGoodLevel s.base_price s.price_range sd l
  head-level = SideInv-level v l.price head_at

  pub head-IsOwn : IsOwn sd l.price p
  head-IsOwn = (subst (All (IsOwn sd l.price)) f.orders head-level.own).0

  pub head_best : best_price s ≡ l.price
  unfolding best_price
  head_best = rw f.levels

  pub head_found : find_level s l.price ≡ some l
  head_found = find_level-level_at v l.price ∙ head_at

  pub head-Fillable : (quantity : ℕ) → quantity ≤ p.quantity → Fillable s l p quantity
  head-Fillable quantity h = record {
    at = head_at;
    queued = head_queued;
    enough = h;
    counted = omega (arith, head-level.total, volume_of_find p.id l.orders head_queued);
    bounded = omega (arith, head-level.total, head-level.fits);
  }

  removed_orders : (Level.remove_order p l).orders ≡ ps
  unfolding Level.remove_order
  removed_orders = rw f.orders (erase_head p ps)

  removed_levels : update_at l.price (Level.remove_order p) s.levels ≡ Level.remove_order p l ∷ ls
  removed_levels = rw f.levels (update_at_head (Level.remove_order p) l ls)

  -- The first order goes from the queue.
  pub queue-take_head : queue_of (take s l p).0.levels ≡ ps ++ queue_of ls
  unfolding remove_level_if_empty update_level
  queue-take_head =
      elim (remove_order-empty s.base_price s.price_range sd p l head-level head_queued) [
        | inl (empty, none_left) ↦
            let no_more : ps ≡ [] = sym (erase_head p ps) ∙ (rw f.orders at none_left) in
            rw (empty, removed_levels, no_more)
              (ap queue_of (remove_at_head _ (Level.remove_order p l) ls refl))
        | inr (more, _) ↦ rw (more, removed_levels) (ap (λ xs. xs ++ queue_of ls) removed_orders)
      ]

  reduced_orders :
      (quantity : ℕ) → (Level.reduce_order p quantity l).orders ≡ reduce_quantity p quantity ∷ ps
  unfolding Level.reduce_order
  reduced_orders quantity = rw f.orders (update_head (λ x. reduce_quantity x quantity) p ps)

  -- The first order is filled in part.
  pub queue-reduce_head :
      (quantity : ℕ)
      → queue_of (update_level s l.price (Level.reduce_order p quantity)).levels
        ≡ reduce_quantity p quantity ∷ (ps ++ queue_of ls)
  unfolding update_level
  queue-reduce_head quantity =
      rw (f.levels, update_at_head (Level.reduce_order p quantity) l ls)
        (ap (λ xs. xs ++ queue_of ls) (reduced_orders quantity))

-- The sides after a fill of the first order.
unlink-side :
    (b : OrderBook) (side : Side) (l : PriceLevel) (p : Order)
    → (book_side (unlink b side l p) side ≡ (take (book_side b side) l p).0)
      × (book_side (unlink b side l p) (opposite side) ≡ book_side b (opposite side))
unfolding unlink
unlink-side b buy l p = elim (Bool-cases (take b.bids l p).1) [
  | inl e ↦ rw e (refl, refl)
  | inr e ↦ rw e (refl, refl)
]
unlink-side b sell l p = elim (Bool-cases (take b.asks l p).1) [
  | inl e ↦ rw e (refl, refl)
  | inr e ↦ rw e (refl, refl)
]

pub with_side-sides :
    (b : OrderBook) (side : Side) (s : BookSide)
    → (book_side (with_side b side s) side ≡ s)
      × (book_side (with_side b side s) (opposite side) ≡ book_side b (opposite side))
with_side-sides b buy s = (refl, refl)
with_side-sides b sell s = (refl, refl)

-- The other side of the book is not touched by a fill.
pub execute_at-other :
    (b : OrderBook) (side : Side) (l : PriceLevel) (p : Order) (quantity : ℕ)
    → book_side (execute_at b side l p quantity) (opposite side) ≡ book_side b (opposite side)
unfolding execute_at
execute_at-other b side l p quantity = elim (Bool-cases (leb p.quantity quantity)) [
  | inl whole ↦ rw (whole, forgotten _ p.id (opposite side)) (unlink-side b side l p).1
  | inr part ↦ rw part (with_side-sides b side _).1
]

pub queue-execute_at :
    (b : OrderBook) (side : Side) (v : SideInv side (book_side b side)) (l : PriceLevel)
    (ls : List PriceLevel) (p : Order) (ps : List Order) (f : Front (book_side b side) l ls p ps)
    (quantity : ℕ)
    → queue_of (book_side (execute_at b side l p quantity) side).levels ≡ (
        if leb p.quantity quantity
        then ps ++ queue_of ls
        else reduce_quantity p quantity ∷ (ps ++ queue_of ls))
unfolding execute_at
queue-execute_at b side v l ls p ps f quantity = elim (Bool-cases (leb p.quantity quantity)) [
  | inl whole ↦
      rw (whole, forgotten _ p.id side, (unlink-side b side l p).0)
        (queue-take_head side (book_side b side) v l ls p ps f)
  | inr part ↦
      rw
        (
          part,
          (with_side-sides b side
              (update_level (book_side b side) l.price (Level.reduce_order p quantity))).0,
        )
        (queue-reduce_head side (book_side b side) v l ls p ps f quantity)
]

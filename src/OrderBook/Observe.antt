-- ===== src/OrderBook/Observe.antt =====
-- The answers of include/orderbook.hpp that depend on the orders that rest, not on how the book
-- keeps them.
use hft_trading_system.Prelude.{
  ℕ, zero, suc, ◌≤◌, none, ◌==◌, if◌then◌else◌, ◌≡◌, map, take, refl, some, List, [], ◌∷◌, inl, inr,
  arith, Option-cases, ap, subst, ◌∙◌, sym,
}
use hft_trading_system.Types.{Side, buy, sell, PriceLevel, Order, invalid_price}
use hft_trading_system.Book.Level.{find, erase}
use hft_trading_system.Book.Queue.{volume, DistinctIds, volume-erase, find-erase, DistinctIds-erase}
use hft_trading_system.Book.{BookSide, level_at, quantity_at, best_price, for_each_level}
use hft_trading_system.Book.Rows.{row, same_rows, total_of-quantity_at}
use hft_trading_system.Book.Sides.{
  SideInv, SideInv-level, order_at, order_at-IsOwn, compare_of, compare_of-IsStrictOrder,
}
use hft_trading_system.OrderBook.{
  OrderBook, book_side, best_bid, best_ask, bid_quantity_at, ask_quantity_at, get_snapshot,
  snapshot_levels,
}
use hft_trading_system.OrderBook.Invariant.{IsValid, IsValid-side}
use hft_trading_system.OrderBook.Queries.{orders_at, quantity_at-volume}
use hft_trading_system.OrderBook.Spec.{Orders, Call, Reply, replay}
use hft_trading_system.OrderBook.Refine.{run, run_refines, RunFits}
use hft_trading_system.OrderBook.View.{view, view-at, view-place}

-- Two queues with the same orders, in whatever order, hold the same volume.
same_volume :
    (os qs : List Order)
    → DistinctIds os
    → DistinctIds qs
    → ((j : ℕ) → find j os ≡ find j qs)
    → volume os ≡ volume qs
unfolding find
same_volume [] [] d d' h = refl
same_volume [] (q ∷ qs) d d' h = absurd (ground (arith, h q.id))
same_volume (o ∷ os) qs d d' h =
    let here : find o.id qs ≡ some o = ground (arith, h o.id) in
    let rest =
      same_volume os (erase o.id qs) d.1 (DistinctIds-erase o.id qs d')
        (λ j. ground (arith, h j, find-erase j o.id qs d')) in
    omega (arith, rest, volume-erase o.id qs here)

distinct_at : {sd : Side} (s : BookSide) → SideInv sd s → (p : ℕ) → DistinctIds (orders_at s p)
distinct_at s v p = elim (Option-cases (level_at p s.levels)) [
  | inl e ↦ rw (e, orders_at) tt
  | inr (l, e) ↦ rw (e, orders_at) (SideInv-level v p e).distinct
]

order_at-find : (s : BookSide) (p j : ℕ) → order_at s p j ≡ find j (orders_at s p)
unfolding order_at find
order_at-find s p j = elim (Option-cases (level_at p s.levels)) [
  | inl e ↦ rw (e, orders_at, order_at) refl
  | inr (l, e) ↦ rw (e, orders_at, order_at) refl
]

abbrev first_price : List (ℕ × ℕ) → ℕ
first_price [] = invalid_price
first_price (x ∷ xs) = x.0

best_price-rows : (s : BookSide) → best_price s ≡ first_price (map row s.levels)
unfolding best_price
best_price-rows s = go s.levels refl
  where
    go : (ls : List PriceLevel) → s.levels ≡ ls → best_price s ≡ first_price (map row ls)
    go [] e = rw (best_price, e) refl
    go (l ∷ ls) e = rw (best_price, e) refl

map-take : {A B : Type 0} (f : A → B) (n : ℕ) (xs : List A) → map f (take n xs) ≡ take n (map f xs)
map-take f zero xs = refl
map-take f (suc n) [] = refl
map-take {B = B} f (suc n) (x ∷ xs) = ap (λ (l : List B). f x ∷ l) (map-take f n xs)

for_each_level-rows : (s : BookSide) (n : ℕ) → for_each_level s n ≡ take n (map row s.levels)
unfolding for_each_level
for_each_level-rows s n = map-take row n s.levels

module _ {sd : Side} (s s' : BookSide) (v : SideInv sd s) (v' : SideInv sd s')
    (same : (p j : ℕ) → order_at s p j ≡ order_at s' p j) where
  same_quantity : (p : ℕ) → quantity_at s p ≡ quantity_at s' p
  same_quantity p =
      quantity_at-volume s v p
      ∙ same_volume (orders_at s p) (orders_at s' p) (distinct_at s v p) (distinct_at s' v' p)
          (λ j. sym (order_at-find s p j) ∙ same p j ∙ order_at-find s' p j)
      ∙ sym (quantity_at-volume s' v' p)

  same_levels : map row s.levels ≡ map row s'.levels
  same_levels =
      same_rows (compare_of sd) (compare_of-IsStrictOrder sd) s.levels s'.levels v.sorted v'.sorted
        (λ p.
          total_of-quantity_at s v p
          ∙ ap (λ (k : ℕ). if k == 0 then none else some k) (same_quantity p)
          ∙ sym (total_of-quantity_at s' v' p))

  same_best : best_price s ≡ best_price s'
  same_best = best_price-rows s ∙ ap first_price same_levels ∙ sym (best_price-rows s')

  same_walk : (n : ℕ) → for_each_level s n ≡ for_each_level s' n
  same_walk n = for_each_level-rows s n ∙ ap (take n) same_levels ∙ sym (for_each_level-rows s' n)

-- What rests in one book rests at the same place of every book that holds the same map.
carried :
    (b b' : OrderBook)
    → IsValid b
    → IsValid b'
    → view b ≡ view b'
    → (sd : Side) (p j : ℕ) {o : Order} → order_at (book_side b sd) p j ≡ some o
    → order_at (book_side b' sd) p j ≡ some o
carried b b' v v' same sd p j {o} h =
    let held : view b' j ≡ some o = ap (λ (f : Orders). f j) (sym same) ∙ view-at v sd p j h in
    let (sd', p', rests) = view-place b' j held in
    let (side, price, _) = order_at-IsOwn (IsValid-side sd v) p j h in
    let (side', price', _) = order_at-IsOwn (IsValid-side sd' v') p' j rests in
    subst (λ (q : Side). order_at (book_side b' q) p j ≡ some o) (sym side' ∙ side)
      (subst (λ (q : ℕ). order_at (book_side b' sd') q j ≡ some o) (sym price' ∙ price) rests)

module _ (b b' : OrderBook) (v : IsValid b) (v' : IsValid b') (same : view b ≡ view b') where
  same_places :
      (sd : Side) (p j : ℕ) → order_at (book_side b sd) p j ≡ order_at (book_side b' sd) p j
  same_places sd p j = elim (Option-cases (order_at (book_side b sd) p j)) [
    | inr (o, h) ↦ h ∙ sym (carried b b' v v' same sd p j h)
    | inl e ↦ elim (Option-cases (order_at (book_side b' sd) p j)) [
      | inl e' ↦ e ∙ sym e'
      | inr (o, h) ↦ carried b' b v' v (sym same) sd p j h ∙ sym h
    ]
  ]

  bid_quantities : (p : ℕ) → bid_quantity_at b p ≡ bid_quantity_at b' p
  unfolding bid_quantity_at
  bid_quantities = same_quantity b.bids b'.bids v.bid_side v'.bid_side (same_places buy)

  ask_quantities : (p : ℕ) → ask_quantity_at b p ≡ ask_quantity_at b' p
  unfolding ask_quantity_at
  ask_quantities = same_quantity b.asks b'.asks v.ask_side v'.ask_side (same_places sell)

  snapshots : (n : ℕ) (h : n ≤ snapshot_levels) → get_snapshot b n h ≡ get_snapshot b' n h
  unfolding get_snapshot best_bid best_ask
  snapshots n h =
      let bid = same_best b.bids b'.bids v.bid_side v'.bid_side (same_places buy) in
      let ask = same_best b.asks b'.asks v.ask_side v'.ask_side (same_places sell) in
      let bids = same_walk b.bids b'.bids v.bid_side v'.bid_side (same_places buy) n in
      let asks = same_walk b.asks b'.asks v.ask_side v'.ask_side (same_places sell) n in
      let bid_qty = bid_quantities (best_bid b) ∙ ap (bid_quantity_at b') bid in
      let ask_qty = ask_quantities (best_ask b) ∙ ap (ask_quantity_at b') ask in
      λ i. record {
        best_bid = bid i;
        best_ask = ask i;
        best_bid_qty = bid_qty i;
        best_ask_qty = ask_qty i;
        bid_levels = bids i;
        ask_levels = asks i;
      }

-- No client can tell two valid books apart that hold the same orders, in whatever order their queues
-- stand: any run of calls, in which each order given to `add_order` fits and finds a level left in
-- both, gets the same replies from both, and the books that it ends in have the same snapshots, of up to 20 levels, and
-- the same quantity at each price.
pub calls_agree :
    (cs : List Call) (b b' : OrderBook)
    → IsValid b
    → IsValid b'
    → view b ≡ view b'
    → RunFits cs b
    → RunFits cs b'
    → let (c, rs) = run cs b in
      let (c', rs') = run cs b' in
      (rs ≡ rs')
      × ((n : ℕ) (h : n ≤ snapshot_levels) → get_snapshot c n h ≡ get_snapshot c' n h)
      × ((p : ℕ) → bid_quantity_at c p ≡ bid_quantity_at c' p)
      × ((p : ℕ) → ask_quantity_at c p ≡ ask_quantity_at c' p)
calls_agree cs b b' v v' same fits fits' =
    let (w, e) = run_refines cs b v fits in
    let (w', e') = run_refines cs b' v' fits' in
    let both = e ∙ ap (replay cs) same ∙ sym e' in
    let alike = ap (λ (x : Orders × List Reply). x.0) both in
    let c = (run cs b).0 in
    let c' = (run cs b').0 in
    (
      ap (λ (x : Orders × List Reply). x.1) both,
      snapshots c c' w w' alike,
      bid_quantities c c' w w' alike,
      ask_quantities c c' w w' alike,
    )

-- ===== src/OrderBook/Queries.antt =====
-- The queries of include/orderbook.hpp: best price, quantity at a price, and the snapshot.
use hft_trading_system.Prelude.{
  ℕ, zero, suc, ◌≤◌, ◌≡◌, refl, Bool, true, none, some, List, [], ◌∷◌, ◌⊎◌, inl, inr, arith, take,
  map, length, All, Option-cases, Bool-cases, subst, ap, ◌==◌, ==→eq,
}
use hft_trading_system.Types.{Side, Order, PriceLevel, invalid_price}
use hft_trading_system.Book.Level
use hft_trading_system.Book.{BookSide, level_at, quantity_at, best_price, for_each_level}
use hft_trading_system.Book.Queue.{volume}
use hft_trading_system.Book.Lookups.{IsStrictOrder, IsSorted, Behind, Behind-level_at}
use hft_trading_system.Book.Sides.{
  SideInv, SideInv-level, order_at, find_level-level_at, compare_of, compare_of-IsStrictOrder,
}
use hft_trading_system.OrderBook.Invariant.{is_some}

-- The orders that rest at a price.
abbrev pub orders_at : BookSide → ℕ → List Order
orders_at s p = elim (level_at p s.levels) [ none ↦ [] | some l ↦ l.orders ]

-- The quantity reported at a price is the sum of the quantities of the orders that rest there.
pub quantity_at-volume :
    {sd : Side} (s : BookSide) → SideInv sd s → (p : ℕ) → quantity_at s p ≡ volume (orders_at s p)
unfolding quantity_at
quantity_at-volume s v p = elim (Option-cases (level_at p s.levels)) [
  | inl e ↦ rw (quantity_at, find_level-level_at v p, orders_at, e) refl
  | inr (l, e) ↦ rw (quantity_at, find_level-level_at v p, orders_at, e) (SideInv-level v p e).total
]

length-take : {A : Type 0} (n : ℕ) (xs : List A) → length (take n xs) ≤ n
length-take zero xs = omega arith
length-take (suc n) [] = omega arith
length-take (suc n) (x ∷ xs) = omega (arith, length-take n xs)

length-take-all :
    {A : Type 0} (n : ℕ) (xs : List A) → length xs ≤ n → length (take n xs) ≡ length xs
length-take-all zero [] h = refl
length-take-all zero (x ∷ xs) h = absurd (omega (arith, h))
length-take-all (suc n) [] h = refl
length-take-all (suc n) (x ∷ xs) h = omega (arith, length-take-all n xs)

length-map : {A B : Type 0} (f : A → B) (xs : List A) → length (map f xs) ≡ length xs
length-map f [] = refl
length-map f (x ∷ xs) = omega (arith, length-map f xs)

-- The levels of a snapshot, strictly in the order of the side.
abbrev pub SortedPrices : (ℕ → ℕ → Bool) → List (ℕ × ℕ) → Type 0
SortedPrices c [] = Unit
SortedPrices c (x ∷ xs) = All (λ (y : ℕ × ℕ). c x.0 y.0 ≡ true) xs × SortedPrices c xs

module _ (c : ℕ → ℕ → Bool) where
  Behind-taken :
      (p n : ℕ) (ls : List PriceLevel)
      → Behind c p ls
      → All
          (λ (y : ℕ × ℕ). c p y.0 ≡ true)
          (map (λ (l : PriceLevel). (l.price, l.total_quantity)) (take n ls))
  Behind-taken p zero ls b = tt
  Behind-taken p (suc n) [] b = tt
  Behind-taken p (suc n) (l ∷ ls) b = (b.0, Behind-taken p n ls b.1)

  sorted_taken :
      (n : ℕ) (ls : List PriceLevel)
      → IsSorted c ls
      → SortedPrices c (map (λ (l : PriceLevel). (l.price, l.total_quantity)) (take n ls))
  sorted_taken zero ls s = tt
  sorted_taken (suc n) [] s = tt
  sorted_taken (suc n) (l ∷ ls) s = (Behind-taken l.price n ls s.0, sorted_taken n ls s.1)

-- Each entry of a list of levels is that of a level of the side.
All-taken :
    (P : ℕ × ℕ → Type 0) (n : ℕ) (ls : List PriceLevel)
    → All (λ (l : PriceLevel). P (l.price, l.total_quantity)) ls
    → All P (map (λ (l : PriceLevel). (l.price, l.total_quantity)) (take n ls))
All-taken P zero ls a = tt
All-taken P (suc n) [] a = tt
All-taken P (suc n) (l ∷ ls) a = (a.0, All-taken P n ls a.1)

module _ (c : ℕ → ℕ → Bool) (order : IsStrictOrder c) where
  not_first :
      (m : PriceLevel) (ls xs : List PriceLevel)
      → Behind c m.price xs
      → All (λ (l : PriceLevel). level_at l.price ls ≡ some l) xs
      → All (λ (l : PriceLevel). level_at l.price (m ∷ ls) ≡ some l) xs
  unfolding level_at
  not_first m ls [] b a = tt
  not_first m ls (x ∷ xs) b a =
      (ground (arith, order.irrefl m.price, a.0, b.0), not_first m ls xs b.1 a.1)

  -- Every level is the one that is found at its price.
  listed :
      (ls : List PriceLevel)
      → IsSorted c ls
      → All (λ (l : PriceLevel). level_at l.price ls ≡ some l) ls
  unfolding level_at
  listed [] s = tt
  listed (m ∷ ls) s = (ground arith, not_first m ls ls s.0 (listed ls s.1))

module _ {sd : Side} (s : BookSide) (v : SideInv sd s) where
  shown :
      (ls : List PriceLevel)
      → All (λ (l : PriceLevel). level_at l.price s.levels ≡ some l) ls
      → All (λ (l : PriceLevel). quantity_at s l.price ≡ l.total_quantity) ls
  unfolding quantity_at
  shown [] a = tt
  shown (l ∷ ls) a = (rw (quantity_at, find_level-level_at v l.price, a.0) refl, shown ls a.1)

  for_each_level_lem :
      (n : ℕ)
      → let xs = for_each_level s n in
        (length xs ≤ n)
        × SortedPrices (compare_of sd) xs
        × All (λ (x : ℕ × ℕ). quantity_at s x.0 ≡ x.1) xs
        × (length s.levels ≤ n → length xs ≡ length s.levels)
  unfolding for_each_level
  for_each_level_lem n =
      let order = compare_of-IsStrictOrder sd in
      (
        rw length-map (length-take n s.levels),
        sorted_taken (compare_of sd) n s.levels v.sorted,
        All-taken (λ (x : ℕ × ℕ). quantity_at s x.0 ≡ x.1) n s.levels
            (shown s.levels (listed (compare_of sd) order s.levels v.sorted)),
        λ h. rw length-map (length-take-all n s.levels h),
      )

  -- No order rests before the best level.
  pub best_first :
      (l : PriceLevel) (ls : List PriceLevel)
      → s.levels ≡ l ∷ ls
      → (q j : ℕ) → is_some (order_at s q j) ≡ true
      → (q ≡ l.price) ⊎ (compare_of sd l.price q ≡ true)
  unfolding order_at level_at
  best_first l ls f q j h =
      let sorted : Behind (compare_of sd) l.price ls =
        (subst (IsSorted (compare_of sd)) f v.sorted).0 in
      let shown_at : is_some
            (elim (level_at q (l ∷ ls)) [ none ↦ none | some m ↦ Level.find j m.orders ])
          ≡ true =
        rw f at (h) in
      elim (Bool-cases (q == l.price)) [
        | inl e ↦ inl (==→eq q l.price e)
        | inr other ↦ elim (Option-cases (level_at q ls)) [
          | inl e ↦ absurd (ground arith)
          | inr (m, e) ↦
              inr (
                Behind-level_at (compare_of sd) (compare_of-IsStrictOrder sd) l.price q ls sorted e)
        ]
      ]

  first_rests :
      (l : PriceLevel) (ls : List PriceLevel)
      → s.levels ≡ l ∷ ls
      → (o : Order) × (order_at s l.price o.id ≡ some o)
  unfolding order_at level_at Level.find
  first_rests l ls f =
      let at : level_at l.price s.levels ≡ some l = rw f (ground arith) in go at l.orders refl
    where
      go :
          level_at l.price s.levels ≡ some l
          → (os : List Order) → l.orders ≡ os
          → (o : Order) × (order_at s l.price o.id ≡ some o)
      go at [] e = absurd (omega (arith, (SideInv-level v l.price at).queued, ap length e))
      go at (o ∷ os) e = (o, rw (order_at, at, e) (ground arith))

  pub best_price_lem :
      ((best_price s ≡ invalid_price) × ((q j : ℕ) → order_at s q j ≡ none))
      ⊎ (((o : Order) × (order_at s (best_price s) o.id ≡ some o))
          × ((q j : ℕ)
              → is_some (order_at s q j) ≡ true
              → (q ≡ best_price s) ⊎ (compare_of sd (best_price s) q ≡ true)))
  unfolding best_price order_at level_at
  best_price_lem = go s.levels refl
    where
      go :
          (ls : List PriceLevel)
          → s.levels ≡ ls
          → ((best_price s ≡ invalid_price) × ((q j : ℕ) → order_at s q j ≡ none))
            ⊎ (((o : Order) × (order_at s (best_price s) o.id ≡ some o))
                × ((q j : ℕ)
                    → is_some (order_at s q j) ≡ true
                    → (q ≡ best_price s) ⊎ (compare_of sd (best_price s) q ≡ true)))
      go [] e = inl (rw (e, best_price) refl, λ q j. rw (e, order_at) refl)
      go (l ∷ ls) e =
          let best : best_price s ≡ l.price = rw (e, best_price) refl in
          inr (rw best (first_rests l ls e, best_first l ls e))

  -- The best price of a side is that of a resting order, and none is better; a side without orders
  -- answers `INVALID_PRICE`. The levels that a walk gives to its callback are at most as many as asked
  -- for, and all of them if there are not more; they are strictly in the order of the side, and each
  -- comes with the quantity at its price.
  pub best_price-for_each_level :
      (n : ℕ)
      → let xs = for_each_level s n in
        (((best_price s ≡ invalid_price) × ((q j : ℕ) → order_at s q j ≡ none))
          ⊎ (((o : Order) × (order_at s (best_price s) o.id ≡ some o))
              × ((q j : ℕ)
                  → is_some (order_at s q j) ≡ true
                  → (q ≡ best_price s) ⊎ (compare_of sd (best_price s) q ≡ true))))
        × (length xs ≤ n)
        × SortedPrices (compare_of sd) xs
        × All (λ (x : ℕ × ℕ). quantity_at s x.0 ≡ x.1) xs
        × (length s.levels ≤ n → length xs ≡ length s.levels)
  best_price-for_each_level n =
      let walk = for_each_level_lem n in (best_price_lem, walk.0, walk.1, walk.2, walk.3)

-- ===== src/Book/Rows.antt =====
-- The levels of a side of include/book_side.hpp as rows of prices and quantities.
use hft_trading_system.Prelude.{
  ℕ, ◌<◌, ◌≡◌, All, length, map, Bool, Bool-cases, refl, none, some, List, [], ◌∷◌, inl, inr, arith,
  Option, Option-cases, ◌==◌, ==→eq, if◌then◌else◌,
}
use hft_trading_system.Types.{Side, PriceLevel, Order}
use hft_trading_system.Book.Queue.{volume}
use hft_trading_system.Book.GoodLevel.{IsOwn}
use hft_trading_system.Book.{BookSide, level_at, quantity_at}
use hft_trading_system.Book.Lookups.{IsStrictOrder, IsSorted, Behind-none, Behind-level_at}
use hft_trading_system.Book.Sides.{SideInv, SideInv-level, find_level-level_at}

volume_pos :
    (sd : Side) (p : ℕ) (os : List Order) → All (IsOwn sd p) os → 0 < length os → 0 < volume os
volume_pos sd p [] own h = h
volume_pos sd p (o ∷ os) own h = omega (arith, own.0.2)

-- A level as a snapshot shows it.
abbrev pub row : PriceLevel → ℕ × ℕ
row l = (l.price, l.total_quantity)

abbrev pub total_of : ℕ → List PriceLevel → Option ℕ
total_of p ls = elim (level_at p ls) [ none ↦ none | some l ↦ some l.total_quantity ]

-- The quantity reported at a price says whether a level stands there.
pub total_of-quantity_at :
    {sd : Side} (s : BookSide)
    → SideInv sd s
    → (p : ℕ)
    → total_of p s.levels ≡ (if quantity_at s p == 0 then none else some (quantity_at s p))
unfolding quantity_at
total_of-quantity_at s v p = elim (Option-cases (level_at p s.levels)) [
  | inl e ↦ rw (quantity_at, find_level-level_at v p, total_of, e) refl
  | inr (l, e) ↦
      let good = SideInv-level v p e in
      let some_left : 0 < l.total_quantity =
        omega (arith, good.total, volume_pos _ _ l.orders good.own good.queued) in
      rw (quantity_at, find_level-level_at v p, total_of, e) (ground arith)
]

-- Two sorted lists with the same totals at every price show the same rows.
module _ (c : ℕ → ℕ → Bool) (order : IsStrictOrder c) where
  first_agrees :
      (l m : PriceLevel) (ls ms : List PriceLevel)
      → IsSorted c (l ∷ ls)
      → IsSorted c (m ∷ ms)
      → ((p : ℕ) → total_of p (l ∷ ls) ≡ total_of p (m ∷ ms))
      → l.price ≡ m.price
  unfolding level_at
  first_agrees l m ls ms sl sm h = elim (Bool-cases (l.price == m.price)) [
    | inl e ↦ ==→eq l.price m.price e
    | inr apart ↦ elim (Option-cases (level_at l.price ms)) [
      | inl e ↦ absurd (ground (arith, h l.price))
      | inr (x, hx) ↦ elim (Option-cases (level_at m.price ls)) [
        | inl e ↦ absurd (ground (arith, h m.price))
        | inr (y, hy) ↦
            let down = Behind-level_at c order m.price l.price ms sm.0 hx in
            let up = Behind-level_at c order l.price m.price ls sl.0 hy in
            absurd
              (ground (arith, order.trans l.price m.price l.price up down, order.irrefl l.price))
      ]
    ]
  ]

  pub same_rows :
      (ls ms : List PriceLevel)
      → IsSorted c ls
      → IsSorted c ms
      → ((p : ℕ) → total_of p ls ≡ total_of p ms)
      → map row ls ≡ map row ms
  unfolding level_at
  same_rows [] [] sl sm h = refl
  same_rows [] (m ∷ ms) sl sm h = absurd (ground (arith, h m.price))
  same_rows (l ∷ ls) [] sl sm h = absurd (ground (arith, h l.price))
  same_rows (l ∷ ls) (m ∷ ms) sl sm h =
      let price = first_agrees l m ls ms sl sm h in
      let total : l.total_quantity ≡ m.total_quantity = ground (arith, h l.price) in
      let rest = same_rows ls ms sl.1 sm.1 (λ p. ground (
        arith,
        h p,
        price,
        Behind-none c order l.price ls sl.0,
        Behind-none c order m.price ms sm.0,
      )) in
      λ i. (price i, total i) ∷ rest i

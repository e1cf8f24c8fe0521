-- ===== src/Matching/Edits.antt =====
-- The checks of add_order of include/matching_engine.hpp, and what placing the rest of an order
-- writes.
use hft_trading_system.Prelude.{
  ℕ, ◌+◌, ◌-◌, ◌%◌, ◌≡◌, refl, Option, none, some, ◌==◌, arith, Bool-cases, Option-cases, inl, inr,
  ap, sym, ◌∙◌,
}
use hft_trading_system.Types.{Side, buy, sell, Order}
use hft_trading_system.Book.{BookSide, find_level}
use hft_trading_system.OrderBook.{
  OrderBook, book_side, with_side, place, new_order, is_indexed, allocate_level,
}
use hft_trading_system.OrderBook.Add.{Passes}
use hft_trading_system.Matching.{MatchingEngine, opposite, add_order, admit}
use hft_trading_system.Matching.Head.{with_side-sides}

-- The order that `add_order` makes, with the time it is stamped with.
abbrev pub incoming : MatchingEngine → ℕ → Side → ℕ → ℕ → ℕ → Order
incoming e id side price quantity trader =
    new_order id trader ((e.current_timestamp + 1) % 18446744073709551616) side price quantity

pub add_order-admit-Passes :
    (e : MatchingEngine) (id : ℕ) (side : Side) (price quantity trader : ℕ)
    → Passes e.book id price quantity
    → add_order e id side price quantity trader ≡ admit e id side price quantity trader
unfolding add_order
add_order-admit-Passes e id side price quantity trader p =
    rw (p.id_valid, p.price_valid, p.id_free, is_indexed) (ground (arith, p.some_quantity))

written-other :
    (b b' x : OrderBook) (sd : Side) (s : BookSide)
    → book_side x (opposite sd) ≡ book_side b (opposite sd)
    → some (with_side x sd s) ≡ some b'
    → book_side b' (opposite sd) ≡ book_side b (opposite sd)
written-other b b' x sd s kept h =
    sym (
      ap
        (λ (y : Option OrderBook). elim y [
          | none ↦ book_side x (opposite sd)
          | some z ↦ book_side z (opposite sd)
        ])
        h)
    ∙ (with_side-sides x sd s).1
    ∙ kept

fewer_levels-side :
    (b : OrderBook) (sd : Side)
    → book_side (record b { free_levels = b.free_levels - 1 }) sd ≡ book_side b sd
fewer_levels-side b buy = refl
fewer_levels-side b sell = refl

-- A new order leaves the opposite side alone.
pub place-other :
    (b b' : OrderBook) (o : Order)
    → place b o ≡ some b'
    → book_side b' (opposite o.side) ≡ book_side b (opposite o.side)
unfolding place allocate_level
place-other b b' o h = elim (Option-cases (find_level (book_side b o.side) o.price)) [
  | inr (l, e) ↦ written-other b b' b o.side _ refl (rw (e, place) at (h))
  | inl e ↦ elim (Bool-cases (b.free_levels == 0)) [
    | inl none_left ↦ absurd (ground arith)
    | inr some_left ↦
        written-other b b' (record b { free_levels = b.free_levels - 1 }) o.side _
          (fewer_levels-side b (opposite o.side)) (rw (e, some_left, place, allocate_level) at (h))
  ]
]

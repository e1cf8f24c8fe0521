-- ===== src/Position/Value.antt =====
-- The profit of include/strategy/position.hpp in natural numbers: what is positive in it and what is
-- negative, each a sum of products.
use native.Mathlib.Nat.{mul-add}
use hft_trading_system.Prelude.{
  ℕ, ◌+◌, ◌*◌, ◌≡◌, ap, arith, ℤ, pos, negsuc, pos_part, neg_part, abs, ◌-ℤ◌, ◌*ℤ◌, ==→eq,
  difference_parts, int_laws, -ℤ_parts, Bool-cases, true, ◌==◌, inl, inr, if◌then◌else◌, difference,
}
use hft_trading_system.Position.{PositionTracker, unrealized_pnl, total_pnl}

-- The product of any number with the difference of two prices.
pub times_difference_parts :
    (n : ℤ) (m a : ℕ)
    → let v = n *ℤ (pos m -ℤ pos a) in
      pos_part v + (pos_part n * a + neg_part n * m)
      ≡ neg_part v + (pos_part n * m + neg_part n * a)
unfolding ◌*ℤ◌
times_difference_parts n m a =
    parts (pos_part n) (neg_part n) (pos m -ℤ pos a) (-ℤ_parts (pos m) (pos a))
  where
    parts :
        (p q : ℕ) (z : ℤ)
        → pos_part z + 0 + a ≡ neg_part z + m + 0
        → let v = difference (p * pos_part z + q * neg_part z) (p * neg_part z + q * pos_part z) in
          pos_part v + (p * a + q * m) ≡ neg_part v + (p * m + q * a)
    parts p q z e =
        let e' : pos_part z + a ≡ neg_part z + m = omega (arith, e) in
        omega (
          arith,
          difference_parts (p * pos_part z + q * neg_part z) (p * neg_part z + q * pos_part z),
          ap (λ (t : ℕ). p * t) e',
          ap (λ (t : ℕ). q * t) e',
          mul-add p (pos_part z) a,
          mul-add p (neg_part z) m,
          mul-add q (pos_part z) a,
          mul-add q (neg_part z) m,
        )

unrealized_parts :
    (t : PositionTracker) (mark : ℕ)
    → let v = unrealized_pnl t mark in
      pos_part v + (pos_part t.position * t.avg_price + neg_part t.position * mark)
      ≡ neg_part v + (pos_part t.position * mark + neg_part t.position * t.avg_price)
unfolding unrealized_pnl
unrealized_parts t mark = by_size t.position
  where
    nothing :
        (n : ℤ)
        → (abs n == 0) ≡ true
        → 0 + (pos_part n * t.avg_price + neg_part n * mark)
          ≡ 0 + (pos_part n * mark + neg_part n * t.avg_price)
    nothing (pos k) h = let none : k ≡ 0 = ==→eq k 0 h in rw none (omega arith)
    nothing (negsuc k) h = ground arith

    by_size :
        (n : ℤ)
        → let v : ℤ = if abs n == 0 then pos 0 else n *ℤ (pos mark -ℤ pos t.avg_price) in
          pos_part v + (pos_part n * t.avg_price + neg_part n * mark)
          ≡ neg_part v + (pos_part n * mark + neg_part n * t.avg_price)
    by_size n = elim (Bool-cases (abs n == 0)) [
      | inr some_left ↦ rw some_left (times_difference_parts n mark t.avg_price)
      | inl none_left ↦ rw none_left (nothing n none_left)
    ]

-- The total profit at a price, as sums of products.
pub total_parts :
    (t : PositionTracker) (mark : ℕ)
    → let v = total_pnl t mark in
      pos_part v
        + neg_part t.realized_pnl
        + (pos_part t.position * t.avg_price + neg_part t.position * mark)
      ≡ neg_part v
        + pos_part t.realized_pnl
        + (pos_part t.position * mark + neg_part t.position * t.avg_price)
unfolding total_pnl
total_parts t mark = omega (int_laws, unrealized_parts t mark)

-- ===== src/Position/Gains.antt =====
-- The profit of include/strategy/position.hpp after a change, and the sums it is made of.
use native.Mathlib.Nat.{
  add-mul, div-add-mod, mod-lt, mul-le-mul_left, div-lt_iff_lt-mul, mod-eq_of_lt,
}
use hft_trading_system.Prelude.{
  ℕ, suc, ◌+◌, ◌-◌, ◌*◌, ◌/◌, ◌%◌, ◌≤◌, ◌<◌, ◌≡◌, refl, ap, ◌∙◌, arith, ℤ, pos, negsuc, pos_part,
  neg_part, abs, ◌+ℤ◌, ◌-ℤ◌, ◌*ℤ◌, int_laws, Bool-cases, ◌==◌, ==→eq, inl, inr, if◌then◌else◌, u32,
}
use hft_trading_system.Position.{PositionTracker, weighted_price, total_pnl}
use hft_trading_system.Position.Value.{times_difference_parts, total_parts}

-- The total profit at a price rises by `up` and falls by `down`.
abbrev pub Gains : PositionTracker → PositionTracker → ℕ → ℕ → ℕ → Type 0
Gains t t' mark up down =
    pos_part (total_pnl t' mark) + neg_part (total_pnl t mark) + down
    ≡ neg_part (total_pnl t' mark) + pos_part (total_pnl t mark) + up

-- The average price times the quantity, with what the division loses.
pub weighted_price_lem :
    (old avg qty price : ℕ)
    → avg < 4294967296
    → price < 4294967296
    → 0 < old + qty
    → (r : ℕ) × ((old + qty) * weighted_price old avg qty price (old + qty) + r
        ≡ old * avg + qty * price)
      × (r < old + qty)
unfolding weighted_price
weighted_price_lem old avg qty price ha hp some_qty =
    let all = old + qty in
    let total = old * avg + qty * price in
    let limit : ℕ = 4294967295 in
    let old_fits : old * avg ≤ old * limit = mul-le-mul_left old (omega (arith, ha)) in
    let qty_fits : qty * price ≤ qty * limit = mul-le-mul_left qty (omega (arith, hp)) in
    let below : total < 4294967296 * all = omega (arith, old_fits, qty_fits, some_qty) in
    let small : total / all < 4294967296 = (div-lt_iff_lt-mul some_qty).1 below in
    let kept : u32 (total / all) ≡ total / all = mod-eq_of_lt small in
    (total % all, rw kept (div-add-mod total all), mod-lt total some_qty)

-- The profit of a tracker that holds `long`, or `short`.
pub total_at :
    (t : PositionTracker) (long short mark : ℕ)
    → pos_part t.position ≡ long
    → neg_part t.position ≡ short
    → pos_part (total_pnl t mark) + neg_part t.realized_pnl + (long * t.avg_price + short * mark)
      ≡ neg_part (total_pnl t mark) + pos_part t.realized_pnl + (long * mark + short * t.avg_price)
total_at t long short mark p q = omega (
  arith,
  total_parts t mark,
  ap (λ (k : ℕ). k * mark) p,
  ap (λ (k : ℕ). k * t.avg_price) p,
  ap (λ (k : ℕ). k * mark) q,
  ap (λ (k : ℕ). k * t.avg_price) q,
)

pub realized_parts :
    (realized : ℤ) (qty m a : ℕ)
    → let v = realized +ℤ pos qty *ℤ (pos m -ℤ pos a) in
      pos_part v + neg_part realized + qty * a ≡ neg_part v + pos_part realized + qty * m
realized_parts realized qty m a = omega (int_laws, times_difference_parts (pos qty) m a)

-- An average that is cleared with the position is worth the same.
pub kept_average :
    (left : ℤ) (long short average : ℕ)
    → pos_part left ≡ long
    → neg_part left ≡ short
    → let cleared : ℕ = if abs left == 0 then 0 else average in
      (long * cleared ≡ long * average) × (short * cleared ≡ short * average)
kept_average left long short average p q = elim (Bool-cases (abs left == 0)) [
  | inr some_left ↦ rw some_left (refl, refl)
  | inl none_left ↦
      let none : abs left ≡ 0 = ==→eq (abs left) 0 none_left in
      let none_long : long ≡ 0 = ground (arith, none, p) in
      let none_short : short ≡ 0 = ground (arith, none, q) in
      rw (none_left, none_long, none_short) (omega arith, omega arith)
]

pub parts_of : (n k : ℕ) → k ≤ n → (m : ℕ) → n * m ≡ k * m + (n - k) * m
parts_of n k h m =
    let whole : n ≡ k + (n - k) = omega (arith, h) in
    ap (λ (i : ℕ). i * m) whole ∙ add-mul k (n - k) m

-- What is left of a short position, and of a long one.
pub short_left :
    (position : ℤ) (k qty : ℕ)
    → position ≡ negsuc k
    → qty ≤ suc k
    → (pos_part (position +ℤ pos qty) ≡ 0) × (neg_part (position +ℤ pos qty) ≡ suc k - qty)
short_left position k qty e fits = rw e (ground (arith, fits), ground (arith, fits))

pub long_left :
    (position : ℤ) (long qty : ℕ)
    → position ≡ pos long
    → qty ≤ long
    → (pos_part (position -ℤ pos qty) ≡ long - qty) × (neg_part (position -ℤ pos qty) ≡ 0)
long_left position long qty e fits = rw e (ground (arith, fits), ground (arith, fits))

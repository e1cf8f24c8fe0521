-- ===== src/Position/Sell.antt =====
-- What a sale does to the profit of include/strategy/position.hpp.
use native.Mathlib.Nat.{add-mul}
use hft_trading_system.Prelude.{
  ℕ, ◌+◌, ◌-◌, ◌*◌, ◌≤◌, ◌<◌, ◌≡◌, refl, ap, ◌∙◌, arith, ℤ, pos, pos_part, neg_part, abs, ◌+ℤ◌,
  ◌-ℤ◌, ◌*ℤ◌, Bool-cases, ◌==◌, ltb, ltb→lt, inl, inr, ◌⊎◌, if◌then◌else◌, min,
}
use hft_trading_system.Position.{PositionTracker, weighted_price, add_short, close}
use hft_trading_system.Position.Gains.{
  Gains, weighted_price_lem, total_at, realized_parts, kept_average, parts_of, long_left,
}

pub add_short-Gains :
    (t : PositionTracker) (old qty price mark : ℕ)
    → pos_part t.position ≡ 0
    → neg_part t.position ≡ old
    → t.avg_price < 4294967296
    → price < 4294967296
    → (r : ℕ) × Gains t (add_short t old qty price) mark (qty * price) (qty * mark + r)
      × ((r ≡ 0) ⊎ (r < old + qty))
unfolding add_short
add_short-Gains t old qty price mark p q ha hp =
    let left : ℤ = t.position -ℤ pos qty in
    let (p', q') : (pos_part left ≡ 0) × (neg_part left ≡ old + qty) =
      short_more t.position old qty p q in
    let before = total_at t 0 old mark p q in
    elim (Bool-cases (ltb 0 (old + qty))) [
      | inl some_left ↦
          let (r, w, small) =
            weighted_price_lem old t.avg_price qty price ha hp (ltb→lt 0 (old + qty) some_left) in
          let t' : PositionTracker = record t {
            position = left;
            avg_price = weighted_price old t.avg_price qty price (old + qty);
          } in
          rw some_left (
            r,
            omega (arith, w, before, total_at t' 0 (old + qty) mark p' q', add-mul old qty mark),
            inr small,
          )
      | inr none_left ↦
          let none : old + qty ≡ 0 = ground (arith, none_left) in
          let t' : PositionTracker = record t { position = left; avg_price = t.avg_price } in
          let (none_old, none_sold) : (old ≡ 0) × (qty ≡ 0) =
            (omega (arith, none), omega (arith, none)) in
          rw none_left (
            0,
            omega (
              arith,
              total_at t 0 0 mark p (q ∙ none_old),
              total_at t' 0 0 mark p' (q' ∙ none),
              ap (λ (k : ℕ). k * mark) none_sold,
              ap (λ (k : ℕ). k * price) none_sold,
            ),
            inl refl,
          )
    ]
  where
    short_more :
        (position : ℤ) (old qty : ℕ)
        → pos_part position ≡ 0
        → neg_part position ≡ old
        → (pos_part (position -ℤ pos qty) ≡ 0) × (neg_part (position -ℤ pos qty) ≡ old + qty)
    short_more position old qty p q = (ground (arith, p, q), ground (arith, p, q))

pub close-Gains :
    (t : PositionTracker) (long qty price mark : ℕ)
    → t.position ≡ pos long
    → Gains t (close t long qty price) mark (qty * price) (qty * mark)
unfolding close
close-Gains t long qty price mark e =
    let closed = min qty long in
    let realized : ℤ = t.realized_pnl +ℤ pos closed *ℤ (pos price -ℤ pos t.avg_price) in
    let paid = realized_parts t.realized_pnl closed price t.avg_price in
    let before = total_at t long 0 mark (ap pos_part e) (ap neg_part e) in
    elim (Bool-cases (ltb 0 (qty - closed))) [
      | inl flips ↦
          let left : ℤ = pos 0 -ℤ pos (qty - closed) in
          let t' : PositionTracker = record t {
            realized_pnl = realized;
            position = left;
            avg_price = price;
          } in
          let all : closed ≡ long = ground (arith, flips) in
          let fits : closed ≤ qty = ground arith in
          rw flips (
            omega (
              arith,
              paid,
              before,
              total_at t' 0 (qty - closed) mark (ground arith) (ground arith),
              ap (λ (i : ℕ). i * t.avg_price) all,
              ap (λ (i : ℕ). i * mark) all,
              parts_of qty closed fits mark,
              parts_of qty closed fits price,
            ))
      | inr stays ↦
          let left : ℤ = t.position -ℤ pos closed in
          let t' : PositionTracker = record t {
            realized_pnl = realized;
            position = left;
            avg_price = if abs left == 0 then 0 else t.avg_price;
          } in
          let all : closed ≡ qty = ground (arith, stays) in
          let fits : closed ≤ long = ground arith in
          let (p, q) : (pos_part left ≡ long - closed) × (neg_part left ≡ 0) =
            long_left t.position long closed e fits in
          let (same_long, same_short) = kept_average left (long - closed) 0 t.avg_price p q in
          rw stays (
            omega (
              arith,
              paid,
              before,
              total_at t' (long - closed) 0 mark p q,
              same_long,
              parts_of long closed fits mark,
              parts_of long closed fits t.avg_price,
              ap (λ (i : ℕ). i * price) all,
              ap (λ (i : ℕ). i * mark) all,
            ))
    ]

-- ===== src/Position/Buy.antt =====
-- What a purchase does to the profit of include/strategy/position.hpp.
use native.Mathlib.Nat.{add-mul}
use hft_trading_system.Prelude.{
  ℕ, suc, ◌+◌, ◌-◌, ◌*◌, ◌≤◌, ◌<◌, ◌≡◌, refl, ap, ◌∙◌, arith, ℤ, pos, negsuc, pos_part, neg_part,
  abs, ◌+ℤ◌, ◌-ℤ◌, ◌*ℤ◌, Bool-cases, ◌==◌, ltb, ltb→lt, inl, inr, ◌⊎◌, if◌then◌else◌, min,
}
use hft_trading_system.Position.{PositionTracker, weighted_price, add_long, cover}
use hft_trading_system.Position.Gains.{
  Gains, weighted_price_lem, total_at, realized_parts, kept_average, parts_of, short_left,
}

pub add_long-Gains :
    (t : PositionTracker) (old qty price mark : ℕ)
    → t.position ≡ pos old
    → t.avg_price < 4294967296
    → price < 4294967296
    → (r : ℕ) × Gains t (add_long t old qty price) mark (qty * mark + r) (qty * price)
      × ((r ≡ 0) ⊎ (r < old + qty))
unfolding add_long
add_long-Gains t old qty price mark e ha hp = elim (Bool-cases (ltb 0 (old + qty))) [
  | inl some_left ↦
      let (r, w, small) =
        weighted_price_lem old t.avg_price qty price ha hp (ltb→lt 0 (old + qty) some_left) in
      let t' : PositionTracker = record t {
        position = pos (old + qty);
        avg_price = weighted_price old t.avg_price qty price (old + qty);
      } in
      rw some_left (
        r,
        omega (
          arith,
          w,
          total_at t old 0 mark (ap pos_part e) (ap neg_part e),
          total_at t' (old + qty) 0 mark refl refl,
          add-mul old qty mark,
        ),
        inr small,
      )
  | inr none_left ↦
      let none : old + qty ≡ 0 = ground (arith, none_left) in
      let t' : PositionTracker = record t { position = pos (old + qty); avg_price = t.avg_price } in
      let (none_old, none_bought) : (old ≡ 0) × (qty ≡ 0) =
        (omega (arith, none), omega (arith, none)) in
      rw none_left (
        0,
        omega (
          arith,
          total_at t 0 0 mark (ap pos_part e ∙ none_old) (ap neg_part e),
          total_at t' 0 0 mark none refl,
          ap (λ (k : ℕ). k * mark) none_bought,
          ap (λ (k : ℕ). k * price) none_bought,
        ),
        inl refl,
      )
]

pub cover-Gains :
    (t : PositionTracker) (k qty price mark : ℕ)
    → t.position ≡ negsuc k
    → Gains t (cover t (suc k) qty price) mark (qty * mark) (qty * price)
unfolding cover
cover-Gains t k qty price mark e =
    let covered = min qty (suc k) in
    let realized : ℤ = t.realized_pnl +ℤ pos covered *ℤ (pos t.avg_price -ℤ pos price) in
    let paid = realized_parts t.realized_pnl covered t.avg_price price in
    let before = total_at t 0 (suc k) mark (ap pos_part e) (ap neg_part e) in
    elim (Bool-cases (ltb 0 (qty - covered))) [
      | inl flips ↦
          let t' : PositionTracker = record t {
            realized_pnl = realized;
            position = pos (qty - covered);
            avg_price = price;
          } in
          let all : covered ≡ suc k = ground (arith, flips) in
          let fits : covered ≤ qty = ground arith in
          rw flips (
            omega (
              arith,
              paid,
              before,
              total_at t' (qty - covered) 0 mark refl refl,
              ap (λ (i : ℕ). i * t.avg_price) all,
              ap (λ (i : ℕ). i * mark) all,
              parts_of qty covered fits mark,
              parts_of qty covered fits price,
            ))
      | inr stays ↦
          let left : ℤ = t.position +ℤ pos covered in
          let t' : PositionTracker = record t {
            realized_pnl = realized;
            position = left;
            avg_price = if abs left == 0 then 0 else t.avg_price;
          } in
          let all : covered ≡ qty = ground (arith, stays) in
          let fits : covered ≤ suc k = ground arith in
          let (p, q) : (pos_part left ≡ 0) × (neg_part left ≡ suc k - covered) =
            short_left t.position k covered e fits in
          let (same_long, same_short) = kept_average left 0 (suc k - covered) t.avg_price p q in
          rw stays (
            omega (
              arith,
              paid,
              before,
              total_at t' 0 (suc k - covered) mark p q,
              same_short,
              parts_of (suc k) covered fits mark,
              parts_of (suc k) covered fits t.avg_price,
              ap (λ (i : ℕ). i * price) all,
              ap (λ (i : ℕ). i * mark) all,
            ))
    ]

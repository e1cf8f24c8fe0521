-- ===== src/Risk/Exposure.antt =====
-- How far a fill moves the notionals of include/risk/enhanced_risk_manager.hpp.
use native.Mathlib.Nat.{mul-le-mul_left, mul-le-mul_right}
use hft_trading_system.Prelude.{
  ℕ, zero, suc, ◌+◌, ◌*◌, ◌/◌, ◌≤◌, ◌≡◌, ◌∙◌, ap, subst, Option, none, some, List, [], ◌∷◌, arith,
  get_elem?, set, ℤ, pos, abs, All, ◌⊎◌, inl, inr,
}
use hft_trading_system.Types.{Side, buy, sell}
use hft_trading_system.Risk.{
  SymbolRiskState, sum_notional, filled_state, position_after, order_notional,
}
use hft_trading_system.Risk.Consistent.{IsMarked}

-- One state is replaced.
pub sum_notional-set :
    (ss : List SymbolRiskState) (i : ℕ) (v : SymbolRiskState) {s : SymbolRiskState}
    → get_elem? ss i ≡ some s
    → sum_notional (set ss i v) + s.notional ≡ sum_notional ss + v.notional
unfolding sum_notional
sum_notional-set [] i v h = cc
sum_notional-set (t ∷ ss) zero v {s} h =
    let same : t.notional ≡ s.notional = ap notional_of h in omega (arith, same)
  where
    notional_of : Option SymbolRiskState → ℕ
    notional_of none = 0
    notional_of (some x) = x.notional
sum_notional-set (t ∷ ss) (suc i) v h = omega (arith, sum_notional-set ss i v h)

pub All-get_elem? :
    {A : Type 0} (P : A → Type 0) (xs : List A) (i : ℕ) {x : A}
    → All P xs
    → get_elem? xs i ≡ some x
    → P x
All-get_elem? P [] i a h = cc
All-get_elem? {A = A} P (y ∷ xs) zero a h =
    subst (λ (o : Option A). elim o [ none ↦ Unit | some z ↦ P z ]) h a.0
All-get_elem? P (y ∷ xs) (suc i) a h = All-get_elem? P xs i a.1 h

abs-position_after : (side : Side) (p : ℤ) (qty : ℕ) → abs (position_after side p qty) ≤ abs p + qty
abs-position_after buy p qty = ground arith
abs-position_after sell p qty = ground arith

abs-position_after-flat : (side : Side) (qty : ℕ) → abs (position_after side (pos 0) qty) ≡ qty
abs-position_after-flat buy qty = ground arith
abs-position_after-flat sell qty = ground arith

rounded :
    (n p q last price : ℕ)
    → n ≤ p + q
    → price ≤ last
    → n * price / 10000 ≤ p * last / 10000 + q * price / 10000 + 1
rounded n p q last price less lower =
    omega (arith, mul-le-mul_right price less, mul-le-mul_left p lower)

-- The fill does not mark what is held already at a higher price: the symbol is flat, or the price is
-- not above its last price.
abbrev pub IsNotRaised : SymbolRiskState → ℕ → Type 0
IsNotRaised state price = (state.position ≡ pos 0) ⊎ (price ≤ state.last_price)

-- The notional of a symbol then grows by that of the order at most, and by one for rounding.
pub filled_state-notional :
    (state : SymbolRiskState) (side : Side) (qty price : ℕ)
    → IsMarked state
    → IsNotRaised state price
    → (filled_state state side qty price).notional ≤ state.notional + order_notional qty price + 1
filled_state-notional state side qty price marked (inl none_held) =
    let size : abs (position_after side state.position qty) ≡ qty =
      ap (λ (p : ℤ). abs (position_after side p qty)) none_held
      ∙ abs-position_after-flat side qty in
    rw size (omega arith)
filled_state-notional state side qty price marked (inr lower) =
    let size = abs-position_after side state.position qty in
    omega (
      arith,
      marked,
      rounded (abs (position_after side state.position qty)) (abs state.position) qty
          state.last_price price size lower,
    )

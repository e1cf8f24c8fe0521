-- ===== src/Risk/Limits.antt =====
-- What a passed check of include/risk/enhanced_risk_manager.hpp promises for the fill that follows,
-- and how long a halt lasts.
use hft_trading_system.Prelude.{
  ℕ, zero, suc, ◌+◌, ◌*◌, ◌/◌, ◌≤◌, ◌≡◌, refl, true, false, ◌&&◌, some, List, [], ◌∷◌, arith,
  get_elem?, set, ℤ, pos, negsuc, abs, ltb, ltb_ℤ, ◌+ℤ◌, ◌-ℤ◌, Option-cases, Bool-cases, inl, inr,
}
use hft_trading_system.Types.{Side}
use hft_trading_system.Risk.{
  EnhancedRiskManager, SymbolRiskState, SymbolRiskLimit, register_symbol, update_pnl, update_peak,
  check_daily_loss, check_drawdown, new_trading_day, filled_state, on_fill,
  recalculate_total_notional, check_symbol, check_order, halt, order_notional, position_after,
  sum_notional,
}
use hft_trading_system.Risk.Consistent.{IsConsistent, IsMarked}
use hft_trading_system.Risk.Exposure.{
  sum_notional-set, All-get_elem?, IsNotRaised, filled_state-notional,
}

get_elem?-set :
    {A : Type 0} (xs : List A) (i : ℕ) (v : A) {x : A}
    → get_elem? xs i ≡ some x
    → get_elem? (set xs i v) i ≡ some v
get_elem?-set [] i v h = cc
get_elem?-set (y ∷ xs) zero v h = refl
get_elem?-set (y ∷ xs) (suc i) v h = get_elem?-set xs i v h

-- What the check says of the position, of the notional of the symbol, and of the total.
passed :
    (r : EnhancedRiskManager) (index : ℕ) (side : Side) (qty price : ℕ) (limit : SymbolRiskLimit)
    (state : SymbolRiskState)
    → get_elem? r.limits index ≡ some limit
    → get_elem? r.states index ≡ some state
    → check_order r index side qty price ≡ true
    → (ltb_ℤ (pos 0) limit.max_position ≡ true
        → ltb_ℤ limit.max_position (pos (abs (filled_state state side qty price).position)) ≡ false)
      × (ltb_ℤ (pos 0) limit.max_notional ≡ true
          → ltb 0 price ≡ true
          → ltb_ℤ limit.max_notional (pos (state.notional + order_notional qty price)) ≡ false)
      × (r.config.limits_notional ≡ true
          → ltb_ℤ r.config.max_notional (pos (r.total_notional + order_notional qty price)) ≡ false)
unfolding check_order check_symbol
passed r index side qty price limit state l s h = (
  λ has_limit. ground (arith, l, s),
  λ has_limit priced. ground (arith, l, s),
  λ has_limit. ground arith,
)

within_one :
    (limit : ℤ) (a b : ℕ)
    → ltb_ℤ limit (pos a) ≡ false
    → b ≤ a + 1
    → ltb_ℤ (limit +ℤ pos 1) (pos b) ≡ false
within_one (pos n) a b h le = ground arith
within_one (negsuc n) a b h le = ground arith

-- A price of 0 is not checked, but leaves no notional.
symbol_within :
    (limit : ℤ) (state : SymbolRiskState) (side : Side) (qty price : ℕ)
    → ltb_ℤ (pos 0) limit ≡ true
    → (ltb 0 price ≡ true → ltb_ℤ limit (pos (state.notional + order_notional qty price)) ≡ false)
    → (filled_state state side qty price).notional ≤ state.notional + order_notional qty price + 1
    → ltb_ℤ (limit +ℤ pos 1) (pos (filled_state state side qty price).notional) ≡ false
symbol_within limit state side qty zero positive checked grown = worthless limit positive
  where
    worthless :
        (limit : ℤ)
        → ltb_ℤ (pos 0) limit ≡ true
        → ltb_ℤ (limit +ℤ pos 1) (pos (filled_state state side qty zero).notional) ≡ false
    worthless (pos n) h =
        let none_left : abs (position_after side state.position qty) * 0 / 10000 ≡ 0 =
          omega arith in
        rw none_left (ground arith)
    worthless (negsuc n) h = ground arith
symbol_within limit state side qty (suc price) positive checked grown =
    within_one limit _ _ (checked (ground arith)) grown

-- What a fill leaves behind that was filled whole, for an order that passed the check in a consistent
-- state and for a symbol in the tables. The symbol's state is that of the fill, and its position is
-- within its limit where it has one. The total notional changes by as much as the notional of the
-- symbol does. If the symbol was flat, or the price is not above its last price, then the notional of
-- the symbol and the total are within their limits where they have one, but for one unit of rounding.
pub check_order_lem :
    (r : EnhancedRiskManager) (index : ℕ) (side : Side) (qty price : ℕ) (limit : SymbolRiskLimit)
    (state : SymbolRiskState)
    → IsConsistent r
    → get_elem? r.limits index ≡ some limit
    → get_elem? r.states index ≡ some state
    → check_order r index side qty price ≡ true
    → let r' = on_fill r index side qty price in
      let after = filled_state state side qty price in
      (get_elem? r'.states index ≡ some after)
      × (ltb_ℤ (pos 0) limit.max_position ≡ true
          → ltb_ℤ limit.max_position (pos (abs after.position)) ≡ false)
      × (r'.total_notional + state.notional ≡ r.total_notional + after.notional)
      × (IsNotRaised state price
          → (ltb_ℤ (pos 0) limit.max_notional ≡ true
              → ltb_ℤ (limit.max_notional +ℤ pos 1) (pos after.notional) ≡ false)
            × (r.config.limits_notional ≡ true
                → ltb_ℤ (r.config.max_notional +ℤ pos 1) (pos r'.total_notional) ≡ false))
unfolding on_fill recalculate_total_notional
check_order_lem r index side qty price limit state v l s h =
    let after = filled_state state side qty price in
    let (position, symbol_checked, total_checked) =
      passed r index side qty price limit state l s h in
    let changed : sum_notional (set r.states index after) + state.notional
        ≡ r.total_notional + after.notional =
      omega (arith, sum_notional-set r.states index after s, v.total) in
    let marked = All-get_elem? IsMarked r.states index v.marked s in
    rw (on_fill, s)
      (
        get_elem?-set r.states index after s,
        position,
        changed,
        λ not_raised.
            let grown = filled_state-notional state side qty price marked not_raised in
            (
              λ has_limit.
                  symbol_within limit.max_notional state side qty price has_limit
                    (symbol_checked has_limit) grown,
              λ has_limit.
                  within_one r.config.max_notional _ _ (total_checked has_limit)
                    (omega (arith, changed, grown)),
            ),
      )

-- Everything but the two resets.
pub data Continues (r : EnhancedRiskManager) : EnhancedRiskManager → Type 0 where
  here : Continues r r
  registered :
      {q : EnhancedRiskManager}
      → Continues r q
      → (symbol : ℕ) (max_position max_notional : ℤ)
      → Continues r (register_symbol q symbol max_position max_notional).0
  filled :
      {q : EnhancedRiskManager}
      → Continues r q
      → (index : ℕ) (side : Side) (qty price : ℕ) → Continues r (on_fill q index side qty price)
  profit : {q : EnhancedRiskManager} → Continues r q → (pnl : ℤ) → Continues r (update_pnl q pnl)
  next_day : {q : EnhancedRiskManager} → Continues r q → Continues r (new_trading_day q)
  halts : {q : EnhancedRiskManager} → Continues r q → Continues r (halt q)

abbrev pub IsStopped : EnhancedRiskManager → Type 0
IsStopped r = (r.drawdown_breached ≡ true) × (r.halted ≡ true)

register_symbol-IsStopped :
    (q : EnhancedRiskManager) (symbol : ℕ) (p n : ℤ)
    → IsStopped q
    → IsStopped (register_symbol q symbol p n).0
unfolding register_symbol
register_symbol-IsStopped q symbol p n s = elim (Option-cases (q.symbol_to_index symbol)) [
  | inl e ↦ rw (register_symbol, e) s
  | inr (i, e) ↦ rw (register_symbol, e) s
]

on_fill-IsStopped :
    (q : EnhancedRiskManager) (index : ℕ) (side : Side) (qty price : ℕ)
    → IsStopped q
    → IsStopped (on_fill q index side qty price)
unfolding on_fill recalculate_total_notional
on_fill-IsStopped q index side qty price s = elim (Option-cases (get_elem? q.states index)) [
  | inl e ↦ rw (on_fill, e) s
  | inr (x, e) ↦ rw (on_fill, e) s
]

update_peak-IsStopped :
    (q : EnhancedRiskManager) (equity : ℤ) → IsStopped q → IsStopped (update_peak q equity)
update_peak-IsStopped q equity s = elim (Bool-cases (ltb_ℤ q.peak_equity equity)) [
  | inl e ↦ rw e s
  | inr e ↦ rw e s
]

check_daily_loss-IsStopped :
    (q : EnhancedRiskManager) → IsStopped q → IsStopped (check_daily_loss q)
check_daily_loss-IsStopped q s =
    elim (Bool-cases
      (ltb_ℤ (q.current_pnl -ℤ q.daily_start_pnl) (pos 0 -ℤ q.config.daily_loss_limit))) [
        | inl e ↦ rw e (s.0, refl)
        | inr e ↦ rw e s
      ]

check_drawdown-IsStopped :
    (q : EnhancedRiskManager) (equity : ℤ) → IsStopped q → IsStopped (check_drawdown q equity)
check_drawdown-IsStopped q equity s =
    elim (Bool-cases
      (ltb_ℤ (pos 0) q.peak_equity && q.config.drawdown_exceeds q.peak_equity equity)) [
        | inl e ↦ rw e (refl, refl)
        | inr e ↦ rw e s
      ]

update_pnl-IsStopped :
    (q : EnhancedRiskManager) (pnl : ℤ) → IsStopped q → IsStopped (update_pnl q pnl)
unfolding update_pnl
update_pnl-IsStopped q pnl s =
    let q1 = record q { current_pnl = pnl } in
    let equity = q.config.initial_capital +ℤ pnl in
    check_drawdown-IsStopped (check_daily_loss (update_peak q1 equity)) equity
      (check_daily_loss-IsStopped (update_peak q1 equity) (update_peak-IsStopped q1 equity s))

new_trading_day-IsStopped : (q : EnhancedRiskManager) → IsStopped q → IsStopped (new_trading_day q)
unfolding new_trading_day
new_trading_day-IsStopped q (breached, stopped) = (breached, rw breached stopped)

halt-IsStopped : (q : EnhancedRiskManager) → IsStopped q → IsStopped (halt q)
unfolding halt
halt-IsStopped q s = (s.0, refl)

Continues-IsStopped : (r q : EnhancedRiskManager) → IsStopped r → Continues r q → IsStopped q
Continues-IsStopped r _ h here = h
Continues-IsStopped r _ h (registered {q} c symbol p n) =
    register_symbol-IsStopped q symbol p n (Continues-IsStopped r q h c)
Continues-IsStopped r _ h (filled {q} c index side qty price) =
    on_fill-IsStopped q index side qty price (Continues-IsStopped r q h c)
Continues-IsStopped r _ h (profit {q} c pnl) =
    update_pnl-IsStopped q pnl (Continues-IsStopped r q h c)
Continues-IsStopped r _ h (next_day {q} c) =
    new_trading_day-IsStopped q (Continues-IsStopped r q h c)
Continues-IsStopped r _ h (halts {q} c) = halt-IsStopped q (Continues-IsStopped r q h c)

-- Once the drawdown limit has stopped trading, no order passes the check any more, whatever else is
-- called, the start of a new day included, until one of the two resets.
pub drawdown_stops :
    (r q : EnhancedRiskManager)
    → r.drawdown_breached ≡ true
    → r.halted ≡ true
    → Continues r q
    → (index : ℕ) (side : Side) (qty price : ℕ) → check_order q index side qty price ≡ false
unfolding check_order
drawdown_stops r q d h c index side qty price =
    let stopped = (Continues-IsStopped r q (d, h) c).1 in rw (stopped, check_order) refl

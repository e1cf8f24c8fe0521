-- ===== src/Risk/Invariant.antt =====
-- The invariant of include/risk/enhanced_risk_manager.hpp, kept by every operation.
use hft_trading_system.Prelude.{
  ℕ, ◌≡◌, refl, true, ◌&&◌, ◌||◌, arith, ℤ, pos, ltb_ℤ, ◌+ℤ◌, ◌-ℤ◌, Bool-cases, inl, inr,
}
use hft_trading_system.Types.{Side}
use hft_trading_system.Risk.{
  EnhancedRiskConfig, EnhancedRiskManager, risk_manager, register_symbol, update_pnl, update_peak,
  check_daily_loss, check_drawdown, new_trading_day, sum_notional, on_fill, halt, reset_halt,
  reset_all,
}
use hft_trading_system.Risk.Consistent.{
  IsConsistent, All-reset, sum_notional-reset, length-reset, register_symbol-IsConsistent,
  on_fill-IsConsistent,
}

-- Writes to the flags and to the profit alone.
flags-IsConsistent :
    (r r' : EnhancedRiskManager)
    → IsConsistent r
    → r'.limits ≡ r.limits
    → r'.states ≡ r.states
    → r'.index_to_symbol ≡ r.index_to_symbol
    → r'.symbol_to_index ≡ r.symbol_to_index
    → r'.total_notional ≡ r.total_notional
    → ((r'.daily_limit_breached || r'.drawdown_breached) ≡ true → r'.halted ≡ true)
    → IsConsistent r'
flags-IsConsistent r r' v l s n m t breach = record {
  limit_per_symbol = rw (l, s) v.limit_per_symbol;
  name_per_symbol = rw (n, s) v.name_per_symbol;
  marked = rw s v.marked;
  total = rw (t, s) v.total;
  breach_halts = breach;
  indexed = rw (n, m) v.indexed;
}

update_peak-IsConsistent :
    (r : EnhancedRiskManager) (equity : ℤ) → IsConsistent r → IsConsistent (update_peak r equity)
update_peak-IsConsistent r equity v = elim (Bool-cases (ltb_ℤ r.peak_equity equity)) [
  | inl e ↦ rw e (flags-IsConsistent r _ v refl refl refl refl refl v.breach_halts)
  | inr e ↦ rw e v
]

check_daily_loss-IsConsistent :
    (r : EnhancedRiskManager) → IsConsistent r → IsConsistent (check_daily_loss r)
check_daily_loss-IsConsistent r v =
    elim (Bool-cases
      (ltb_ℤ (r.current_pnl -ℤ r.daily_start_pnl) (pos 0 -ℤ r.config.daily_loss_limit))) [
        | inl e ↦ rw e (flags-IsConsistent r _ v refl refl refl refl refl (λ _. refl))
        | inr e ↦ rw e v
      ]

check_drawdown-IsConsistent :
    (r : EnhancedRiskManager) (equity : ℤ) → IsConsistent r → IsConsistent (check_drawdown r equity)
check_drawdown-IsConsistent r equity v =
    elim (Bool-cases
      (ltb_ℤ (pos 0) r.peak_equity && r.config.drawdown_exceeds r.peak_equity equity)) [
        | inl e ↦ rw e (flags-IsConsistent r _ v refl refl refl refl refl (λ _. refl))
        | inr e ↦ rw e v
      ]

update_pnl-IsConsistent :
    (r : EnhancedRiskManager) (pnl : ℤ) → IsConsistent r → IsConsistent (update_pnl r pnl)
unfolding update_pnl
update_pnl-IsConsistent r pnl v =
    let r1 = record r { current_pnl = pnl } in
    let equity = r.config.initial_capital +ℤ pnl in
    let v1 = flags-IsConsistent r r1 v refl refl refl refl refl v.breach_halts in
    check_drawdown-IsConsistent _ equity (
      check_daily_loss-IsConsistent (update_peak r1 equity) (update_peak-IsConsistent r1 equity v1))

new_trading_day-IsConsistent :
    (r : EnhancedRiskManager) → IsConsistent r → IsConsistent (new_trading_day r)
unfolding new_trading_day
new_trading_day-IsConsistent r v =
    flags-IsConsistent r _ v refl refl refl refl refl λ h. ground (arith, v.breach_halts)

reset_all-IsConsistent : (r : EnhancedRiskManager) → IsConsistent r → IsConsistent (reset_all r)
unfolding reset_all
reset_all-IsConsistent r v = record {
  limit_per_symbol = omega (arith, length-reset r.states, v.limit_per_symbol);
  name_per_symbol = omega (arith, length-reset r.states, v.name_per_symbol);
  marked = All-reset r.states;
  total = rw (sum_notional-reset r.states) refl;
  breach_halts = λ h. cc;
  indexed = v.indexed;
}

-- The states that calls of the operations lead to, in any order and with any arguments.
pub data RiskReaches : EnhancedRiskManager → Type 0 where
  created : (config : EnhancedRiskConfig) → RiskReaches (risk_manager config)
  registered :
      {r : EnhancedRiskManager}
      → RiskReaches r
      → (symbol : ℕ) (max_position max_notional : ℤ)
      → RiskReaches (register_symbol r symbol max_position max_notional).0
  filled :
      {r : EnhancedRiskManager}
      → RiskReaches r
      → (index : ℕ) (side : Side) (qty price : ℕ) → RiskReaches (on_fill r index side qty price)
  profit : {r : EnhancedRiskManager} → RiskReaches r → (pnl : ℤ) → RiskReaches (update_pnl r pnl)
  next_day : {r : EnhancedRiskManager} → RiskReaches r → RiskReaches (new_trading_day r)
  halts : {r : EnhancedRiskManager} → RiskReaches r → RiskReaches (halt r)
  halt_reset : {r : EnhancedRiskManager} → RiskReaches r → RiskReaches (reset_halt r)
  all_reset : {r : EnhancedRiskManager} → RiskReaches r → RiskReaches (reset_all r)

-- In every reachable state each symbol has its limits, its name and its state; the notional of a
-- symbol is that of its position at the last price, and the total is their sum; a breached limit
-- has halted trading; and an index that a name is given leads back to the name.
pub risk_invariant : {r : EnhancedRiskManager} → RiskReaches r → IsConsistent r
unfolding risk_manager halt reset_halt sum_notional
risk_invariant (created config) = record {
  limit_per_symbol = refl;
  name_per_symbol = refl;
  marked = tt;
  total = refl;
  breach_halts = λ h. cc;
  indexed = λ symbol i h. cc;
}
risk_invariant (registered {r} before symbol p n) =
    register_symbol-IsConsistent r symbol p n (risk_invariant before)
risk_invariant (filled {r} before index side qty price) =
    on_fill-IsConsistent r index side qty price (risk_invariant before)
risk_invariant (profit {r} before pnl) = update_pnl-IsConsistent r pnl (risk_invariant before)
risk_invariant (next_day {r} before) = new_trading_day-IsConsistent r (risk_invariant before)
risk_invariant (halts {r} before) =
    flags-IsConsistent r _ (risk_invariant before) refl refl refl refl refl (λ _. refl)
risk_invariant (halt_reset {r} before) =
    flags-IsConsistent r _ (risk_invariant before) refl refl refl refl refl (λ h. cc)
risk_invariant (all_reset {r} before) = reset_all-IsConsistent r (risk_invariant before)

-- ===== src/Risk/Tests.antt =====
-- The theorems of include/risk/enhanced_risk_manager.hpp at a small configuration.
use hft_trading_system.Prelude.{
  ◌+◌, ◌+ℤ◌, ◌≡◌, refl, true, false, some, get_elem?, pos, negsuc, abs, ltb_ℤ, ◌*◌,
}
use hft_trading_system.Types.{buy}
use hft_trading_system.Risk.{
  EnhancedRiskConfig, EnhancedRiskManager, SymbolRiskLimit, reset_state, risk_manager,
  register_symbol, check_order, check_symbol, on_fill, filled_state, update_pnl, new_trading_day,
}
use hft_trading_system.Risk.Invariant.{created, registered, filled, risk_invariant}
use hft_trading_system.Risk.Consistent.{IsConsistent}
use hft_trading_system.Risk.Exposure.{IsNotRaised}
use hft_trading_system.Risk.Limits.{here, next_day, check_order_lem, drawdown_stops}

-- A capital of 1000, and a drawdown of a tenth.
abbrev config : EnhancedRiskConfig
config = record {
  initial_capital = pos 1000;
  daily_loss_limit = pos 500;
  drawdown_exceeds = λ peak equity. ltb_ℤ (pos (abs equity * 10)) (pos (abs peak * 9));
  limits_notional = true;
  max_notional = pos 1000;
  max_order_size = 100;
}

abbrev limit : SymbolRiskLimit
limit = record { max_position = pos 50; max_notional = pos 500 }

abbrev one_symbol : EnhancedRiskManager
one_symbol = (register_symbol (risk_manager config) 7 (pos 50) (pos 500)).0

risk_invariant_example : IsConsistent (on_fill one_symbol 0 buy 30 20000)
risk_invariant_example =
    risk_invariant (filled (registered (created config) 7 (pos 50) (pos 500)) 0 buy 30 20000)

has_limit : get_elem? one_symbol.limits 0 ≡ some limit
unfolding register_symbol risk_manager
has_limit = refl

has_state : get_elem? one_symbol.states 0 ≡ some reset_state
unfolding register_symbol risk_manager
has_state = refl

passes : check_order one_symbol 0 buy 30 20000 ≡ true
unfolding check_order check_symbol register_symbol risk_manager
passes = refl

check_order_lem_example :
    let r' = on_fill one_symbol 0 buy 30 20000 in
    let after = filled_state reset_state buy 30 20000 in
    (get_elem? r'.states 0 ≡ some after)
    × (ltb_ℤ (pos 0) (pos 50) ≡ true → ltb_ℤ (pos 50) (pos (abs after.position)) ≡ false)
    × (r'.total_notional + 0 ≡ one_symbol.total_notional + after.notional)
    × (IsNotRaised reset_state 20000
        → (ltb_ℤ (pos 0) (pos 500) ≡ true → ltb_ℤ (pos 500 +ℤ pos 1) (pos after.notional) ≡ false)
          × (one_symbol.config.limits_notional ≡ true
              → ltb_ℤ (one_symbol.config.max_notional +ℤ pos 1) (pos r'.total_notional) ≡ false))
check_order_lem_example =
    check_order_lem one_symbol 0 buy 30 20000 limit reset_state
      (risk_invariant (registered (created config) 7 (pos 50) (pos 500))) has_limit has_state passes

-- A loss of 200 is more than a tenth.
abbrev lost : EnhancedRiskManager
lost = update_pnl one_symbol (negsuc 199)

breached : lost.drawdown_breached ≡ true
unfolding update_pnl register_symbol risk_manager
breached = refl

stopped : lost.halted ≡ true
unfolding update_pnl register_symbol risk_manager
stopped = refl

drawdown_stops_example : check_order (new_trading_day lost) 0 buy 1 20000 ≡ false
drawdown_stops_example =
    drawdown_stops lost (new_trading_day lost) breached stopped (next_day here) 0 buy 1 20000

-- ===== src/World/Risk.antt =====
-- include/strategy/risk_manager.hpp: the limits of one symbol. An int64_t is an unbounded integer.
use hft_trading_system.Prelude.{
  ℕ, Bool, true, false, if◌then◌else◌, ltb, ℤ, pos, abs, ◌+ℤ◌, ◌-ℤ◌, ltb_ℤ,
}
use hft_trading_system.Types.{Side, buy, sell}

pub record RiskConfig : Type 0 where
  pub max_position : ℤ
  pub max_order_size : ℕ
  pub max_loss : ℤ
  pub max_notional : ℤ

abbrev pub default_risk_config : RiskConfig
default_risk_config = record {
  max_position = pos 1000;
  max_order_size = 100;
  max_loss = pos 100000;
  max_notional = pos 10000000;
}

pub record RiskManager : Type 0 where
  pub config : RiskConfig
  pub current_pnl : ℤ
  pub halted : Bool

abbrev pub risk_manager : RiskConfig → RiskManager
risk_manager c = record { config = c; current_pnl = pos 0; halted = false }

-- The position that a trade leads to.
abbrev pub position_after : ℤ → Side → ℕ → ℤ
position_after position buy size = position +ℤ pos size
position_after position sell size = position -ℤ pos size

unfoldable pub can_trade : RiskManager → Side → ℕ → ℤ → Bool
can_trade r side size current_position =
    if r.halted
    then false
    else if ltb r.config.max_order_size size
    then false
    else if ltb_ℤ r.config.max_position (pos (abs (position_after current_position side size)))
    then false
    else true

unfoldable pub update_pnl : RiskManager → ℤ → RiskManager
update_pnl r pnl =
    let r1 = record r { current_pnl = pnl } in
    if ltb_ℤ pnl (pos 0 -ℤ r.config.max_loss) then record r1 { halted = true } else r1

abbrev pub is_halted : RiskManager → Bool
is_halted r = r.halted

unfoldable pub reset_halt : RiskManager → RiskManager
reset_halt r = record r { halted = false }

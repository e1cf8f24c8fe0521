-- ===== src/Risk.antt =====
-- include/risk/enhanced_risk_manager.hpp. The configuration holds the results of the computations on
-- doubles: `daily_loss_limit` and `max_notional` are the truncated products of the initial capital
-- with the percentages, and `drawdown_exceeds peak equity` the comparison of the drawdown. A symbol name
-- is a number, since the code only compares names; int64_t values are integers that do not overflow.
pub mod Consistent
pub mod Exposure
pub mod Invariant
pub mod Limits
mod Tests
use hft_trading_system.Prelude.{
  ℕ, zero, suc, ◌+◌, ◌*◌, ◌/◌, Bool, true, false, ◌&&◌, ◌||◌, not, Option, none, some, List, [],
  ◌∷◌, ◌++◌, ◌==◌, ltb, leb, if◌then◌else◌, length, get_elem?, set, map, ℤ, pos, negsuc, abs, ◌+ℤ◌,
  ◌-ℤ◌, ltb_ℤ,
}
use hft_trading_system.Types.{Side, buy, sell}

abbrev pub invalid_symbol_index : ℕ
invalid_symbol_index = 4294967295

abbrev pub price_scale : ℕ
price_scale = 10000

pub record EnhancedRiskConfig : Type 0 where
  pub initial_capital : ℤ
  pub daily_loss_limit : ℤ
  pub drawdown_exceeds : ℤ → ℤ → Bool
  pub limits_notional : Bool
  pub max_notional : ℤ
  pub max_order_size : ℕ

pub record SymbolRiskLimit : Type 0 where
  pub max_position : ℤ
  pub max_notional : ℤ

pub record SymbolRiskState : Type 0 where
  pub position : ℤ
  pub notional : ℕ
  pub last_price : ℕ

abbrev pub reset_state : SymbolRiskState
reset_state = record { position = pos 0; notional = 0; last_price = 0 }

pub record EnhancedRiskManager : Type 0 where
  pub config : EnhancedRiskConfig
  pub current_pnl : ℤ
  pub peak_equity : ℤ
  pub daily_start_pnl : ℤ
  pub total_notional : ℕ
  pub daily_limit_breached : Bool
  pub drawdown_breached : Bool
  pub halted : Bool
  pub limits : List SymbolRiskLimit
  pub states : List SymbolRiskState
  pub symbol_to_index : ℕ → Option ℕ
  pub index_to_symbol : List ℕ

unfoldable pub risk_manager : EnhancedRiskConfig → EnhancedRiskManager
risk_manager config = record {
  config = config;
  current_pnl = pos 0;
  peak_equity = config.initial_capital;
  daily_start_pnl = pos 0;
  total_notional = 0;
  daily_limit_breached = false;
  drawdown_breached = false;
  halted = false;
  limits = [];
  states = [];
  symbol_to_index = λ _. none;
  index_to_symbol = [];
}

-- `register_symbol`, with the index that it returns.
unfoldable pub register_symbol : EnhancedRiskManager → ℕ → ℤ → ℤ → EnhancedRiskManager × ℕ
register_symbol r symbol max_position max_notional =
    let limit : SymbolRiskLimit = record {
      max_position = max_position;
      max_notional = max_notional;
    } in
    elim (r.symbol_to_index symbol) [
      | some i ↦ (record r { limits = set r.limits i limit }, i)
      | none ↦
          let index = length r.states in
          (
            record r {
              symbol_to_index = λ (s : ℕ). if s == symbol then some index else r.symbol_to_index s;
              index_to_symbol = r.index_to_symbol ++ symbol ∷ [];
              states = r.states ++ reset_state ∷ [];
              limits = r.limits ++ limit ∷ [];
            },
            index,
          )
    ]

unfoldable pub get_symbol_index : EnhancedRiskManager → ℕ → ℕ
get_symbol_index r symbol = elim (r.symbol_to_index symbol) [
  | none ↦ invalid_symbol_index
  | some i ↦ i
]

unfoldable pub daily_pnl : EnhancedRiskManager → ℤ
daily_pnl r = r.current_pnl -ℤ r.daily_start_pnl

-- The three parts of `update_pnl`.
abbrev pub update_peak : EnhancedRiskManager → ℤ → EnhancedRiskManager
update_peak r equity = if ltb_ℤ r.peak_equity equity then record r { peak_equity = equity } else r

abbrev pub check_daily_loss : EnhancedRiskManager → EnhancedRiskManager
check_daily_loss r =
    if ltb_ℤ (r.current_pnl -ℤ r.daily_start_pnl) (pos 0 -ℤ r.config.daily_loss_limit)
    then record r { daily_limit_breached = true; halted = true }
    else r

abbrev pub check_drawdown : EnhancedRiskManager → ℤ → EnhancedRiskManager
check_drawdown r equity =
    if ltb_ℤ (pos 0) r.peak_equity && r.config.drawdown_exceeds r.peak_equity equity
    then record r { drawdown_breached = true; halted = true }
    else r

unfoldable pub update_pnl : EnhancedRiskManager → ℤ → EnhancedRiskManager
update_pnl r pnl =
    let equity = r.config.initial_capital +ℤ pnl in
    check_drawdown (check_daily_loss (update_peak (record r { current_pnl = pnl }) equity)) equity

unfoldable pub new_trading_day : EnhancedRiskManager → EnhancedRiskManager
new_trading_day r = record r {
  daily_start_pnl = r.current_pnl;
  daily_limit_breached = false;
  halted = if not r.drawdown_breached then false else r.halted;
}

abbrev pub order_notional : ℕ → ℕ → ℕ
order_notional qty price = qty * price / price_scale

abbrev pub position_after : Side → ℤ → ℕ → ℤ
position_after buy position qty = position +ℤ pos qty
position_after sell position qty = position -ℤ pos qty

abbrev pub check_position : SymbolRiskLimit → SymbolRiskState → Side → ℕ → Bool
check_position limit state side qty = not (
    ltb_ℤ (pos 0) limit.max_position
    && ltb_ℤ limit.max_position (pos (abs (position_after side state.position qty))))

abbrev pub check_notional : SymbolRiskLimit → SymbolRiskState → ℕ → ℕ → Bool
check_notional limit state qty price = not (
    (ltb_ℤ (pos 0) limit.max_notional && ltb 0 price)
    && ltb_ℤ limit.max_notional (pos (state.notional + order_notional qty price)))

-- The checks of the symbol; an index out of range passes.
unfoldable pub check_symbol : EnhancedRiskManager → ℕ → Side → ℕ → ℕ → Bool
check_symbol r index side qty price = elim (get_elem? r.limits index) [
  | none ↦ true
  | some limit ↦ elim (get_elem? r.states index) [
    | none ↦ true
    | some state ↦ check_position limit state side qty && check_notional limit state qty price
  ]
]

abbrev pub check_total : EnhancedRiskManager → ℕ → ℕ → Bool
check_total r qty price = not (
    r.config.limits_notional
    && ltb_ℤ r.config.max_notional (pos (r.total_notional + order_notional qty price)))

unfoldable pub check_order : EnhancedRiskManager → ℕ → Side → ℕ → ℕ → Bool
unfolding check_symbol
check_order r index side qty price =
    if r.halted
    then false
    else if ltb r.config.max_order_size qty
    then false
    else if not (check_symbol r index side qty price)
    then false
    else check_total r qty price

-- `check_order(const std::string&, …)`
unfoldable pub check_order_by_name : EnhancedRiskManager → ℕ → Side → ℕ → ℕ → Bool
unfolding check_order get_symbol_index
check_order_by_name r symbol side qty price =
    if get_symbol_index r symbol == invalid_symbol_index
    then not r.halted && leb qty r.config.max_order_size
    else check_order r (get_symbol_index r symbol) side qty price

unfoldable pub sum_notional : List SymbolRiskState → ℕ
sum_notional [] = 0
sum_notional (s ∷ ss) = s.notional + sum_notional ss

unfoldable pub recalculate_total_notional : EnhancedRiskManager → EnhancedRiskManager
unfolding sum_notional
recalculate_total_notional r = record r { total_notional = sum_notional r.states }

abbrev pub filled_state : SymbolRiskState → Side → ℕ → ℕ → SymbolRiskState
filled_state state side qty price =
    let position = position_after side state.position qty in
    record {
      position = position;
      notional = abs position * price / price_scale;
      last_price = price;
    }

unfoldable pub on_fill : EnhancedRiskManager → ℕ → Side → ℕ → ℕ → EnhancedRiskManager
unfolding recalculate_total_notional
on_fill r index side qty price = elim (get_elem? r.states index) [
  | none ↦ r
  | some state ↦
      recalculate_total_notional
        (record r { states = set r.states index (filled_state state side qty price) })
]

-- `on_fill(const std::string&, …)`: an unknown symbol is registered.
unfoldable pub on_fill_by_name : EnhancedRiskManager → ℕ → Side → ℕ → ℕ → EnhancedRiskManager
unfolding on_fill get_symbol_index register_symbol
on_fill_by_name r symbol side qty price =
    if get_symbol_index r symbol == invalid_symbol_index
    then on_fill (register_symbol r symbol (pos 0) (pos 0)).0
        (register_symbol r symbol (pos 0) (pos 0)).1 side qty price
    else on_fill r (get_symbol_index r symbol) side qty price

unfoldable pub halt : EnhancedRiskManager → EnhancedRiskManager
halt r = record r { halted = true }

unfoldable pub reset_halt : EnhancedRiskManager → EnhancedRiskManager
reset_halt r = record r { halted = false; daily_limit_breached = false; drawdown_breached = false }

unfoldable pub reset_all : EnhancedRiskManager → EnhancedRiskManager
reset_all r = record r {
  current_pnl = pos 0;
  peak_equity = r.config.initial_capital;
  daily_start_pnl = pos 0;
  total_notional = 0;
  daily_limit_breached = false;
  drawdown_breached = false;
  halted = false;
  states = map (λ _. reset_state) r.states;
}

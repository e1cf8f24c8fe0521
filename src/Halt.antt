-- ===== src/Halt.antt =====
-- include/strategy/halt_manager.hpp: the halt sequence. The manager's callbacks are flags, which say
-- whether they are set, and the list of the calls made to them; what they answer is an argument of
-- the operations. Log messages are left out.
pub mod Closing
pub mod Flatten
pub mod Retry
mod Tests
use hft_trading_system.Prelude.{
  ℕ, ◌+◌, ◌<◌, ◌≡◌, Bool, true, false, ◌&&◌, not, if◌then◌else◌, ltb, leb, ◌==◌, List, [], ◌∷◌,
  ◌++◌, ℤ, pos, abs, ltb_ℤ, u32,
}
use hft_trading_system.Types.{Side, buy, sell}

pub data HaltReason : Type 0 where
  no_reason pool_exhausted pool_critical max_loss_exceeded manual_halt system_error : HaltReason
  connection_lost exchange_halt circuit_breaker : HaltReason

pub data HaltState : Type 0 where
  running halting halted error : HaltState

pub record PositionInfo : Type 0 where
  pub symbol : ℕ
  pub position : ℤ
  pub last_price : ℕ

-- A market order.
pub record MarketOrder : Type 0 where
  pub symbol : ℕ
  pub side : Side
  pub quantity : ℕ

-- A call of a callback.
pub data Call : Type 0 where
  alert : HaltReason → Call
  cancel_all : Call
  get_positions : Call
  send_order : MarketOrder → Call

pub record HaltManager : Type 0 where
  pub state : HaltState
  pub reason : HaltReason
  pub flatten_attempts : ℕ
  pub max_flatten_attempts : ℕ
  pub has_get_positions : Bool
  pub has_cancel_all : Bool
  pub has_send_order : Bool
  pub has_alert : Bool
  pub calls : List Call
  -- how many orders have been sent
  pub sends : ℕ

unfoldable pub halt_manager : HaltManager
halt_manager = record {
  state = running;
  reason = no_reason;
  flatten_attempts = 0;
  max_flatten_attempts = 3;
  has_get_positions = false;
  has_cancel_all = false;
  has_send_order = false;
  has_alert = false;
  calls = [];
  sends = 0;
}

unfoldable pub set_get_positions_callback : HaltManager → HaltManager
set_get_positions_callback m = record m { has_get_positions = true }

unfoldable pub set_cancel_all_callback : HaltManager → HaltManager
set_cancel_all_callback m = record m { has_cancel_all = true }

unfoldable pub set_send_order_callback : HaltManager → HaltManager
set_send_order_callback m = record m { has_send_order = true }

unfoldable pub set_alert_callback : HaltManager → HaltManager
set_alert_callback m = record m { has_alert = true }

abbrev pub is_running : HaltState → Bool
is_running running = true
is_running halting = false
is_running halted = false
is_running error = false

abbrev pub is_error : HaltState → Bool
is_error running = false
is_error halting = false
is_error halted = false
is_error error = true

unfoldable pub can_trade : HaltManager → Bool
can_trade m = is_running m.state

unfoldable pub is_halted : HaltManager → Bool
is_halted m = not (is_running m.state)

abbrev pub called : HaltManager → Call → HaltManager
called m c = record m { calls = m.calls ++ c ∷ [] }

-- The order that flattens a position. `abs` gives an int64_t, and the cast keeps its low 32 bits.
unfoldable pub closing_order : PositionInfo → MarketOrder
closing_order p = record {
  symbol = p.symbol;
  side = if ltb_ℤ (pos 0) p.position then sell else buy;
  quantity = u32 (abs p.position);
}

-- One round of the loop of `flatten_positions`, with `all_success`. `accepts` is what the callback
-- answers to each order sent.
unfoldable pub flatten_one : (ℕ → Bool) → HaltManager → Bool → PositionInfo → HaltManager × Bool
unfolding closing_order
flatten_one accepts m all_success p = if abs p.position == 0 then (m, all_success) else (
  record (called m (send_order (closing_order p))) { sends = m.sends + 1 },
  all_success && accepts m.sends,
)

unfoldable pub flatten_each :
    (ℕ → Bool) → HaltManager → Bool → List PositionInfo → HaltManager × Bool
unfolding flatten_one
flatten_each accepts m all_success [] = (m, all_success)
flatten_each accepts m all_success (p ∷ ps) =
    let (m', all_success') = flatten_one accepts m all_success p in
    flatten_each accepts m' all_success' ps

unfoldable pub flatten_positions : (ℕ → Bool) → HaltManager → List PositionInfo → HaltManager × Bool
unfolding flatten_each
flatten_positions accepts m positions =
    let m1 = record m { flatten_attempts = u32 (m.flatten_attempts + 1) } in
    elim positions [
      | [] ↦ (m1, true)
      | p ∷ ps ↦
          if not m1.has_send_order then (m1, false) else flatten_each accepts m1 true (p ∷ ps)
    ]

-- The positions that the callback gives, if it is set.
abbrev pub ask_positions : HaltManager → List PositionInfo → HaltManager × List PositionInfo
ask_positions m positions =
    if m.has_get_positions then (called m get_positions, positions) else (m, [])

abbrev pub final_state : Bool → HaltState
final_state success = if success then halted else error

-- The transition to `halting`, with the calls that alert operations and cancel all orders.
unfoldable pub begin_halt : HaltManager → HaltReason → HaltManager
begin_halt m reason =
    let m1 = record m { state = halting; reason = reason } in
    let m2 = if m1.has_alert then called m1 (alert reason) else m1 in
    if m2.has_cancel_all then called m2 cancel_all else m2

-- What `halt` does once it has won the transition.
unfoldable pub run_halt : (ℕ → Bool) → List PositionInfo → HaltManager → HaltReason → HaltManager
unfolding begin_halt flatten_positions
run_halt accepts positions m reason =
    let (m1, found) = ask_positions (begin_halt m reason) positions in
    let (m2, all_flattened) = flatten_positions accepts m1 found in
    record m2 { state = final_state all_flattened }

unfoldable pub halt : (ℕ → Bool) → List PositionInfo → HaltManager → HaltReason → HaltManager × Bool
halt accepts positions m reason =
    if not (is_running m.state) then (m, false) else (run_halt accepts positions m reason, true)

-- What `retry_flatten` does behind its two guards.
unfoldable pub run_retry : (ℕ → Bool) → List PositionInfo → HaltManager → HaltManager × Bool
unfolding flatten_positions
run_retry accepts positions m =
    let (m1, found) = ask_positions (record m { state = halting }) positions in
    let (m2, success) = flatten_positions accepts m1 found in
    (record m2 { state = final_state success }, success)

unfoldable pub retry_flatten : (ℕ → Bool) → List PositionInfo → HaltManager → HaltManager × Bool
retry_flatten accepts positions m =
    if not (is_error m.state)
    then (m, false)
    else if leb m.max_flatten_attempts m.flatten_attempts
    then (m, false)
    else run_retry accepts positions m

unfoldable pub reset : HaltManager → HaltManager
reset m = record m { state = running; reason = no_reason; flatten_attempts = 0 }

unfoldable pub set_max_flatten_attempts : HaltManager → ℕ → HaltManager
set_max_flatten_attempts m attempts = record m { max_flatten_attempts = attempts }

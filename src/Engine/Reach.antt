-- ===== src/Engine/Reach.antt =====
-- The states that the operations of include/trading_engine.hpp reach from its constructor.
use hft_trading_system.Prelude.{ℕ, refl, sym, arith, Bool, List, [], Bool-cases, inl, inr, subst}
use hft_trading_system.OrderBook.Invariant.{IsValid}
use hft_trading_system.OrderBook.Add.{add_order-IsValid}
use hft_trading_system.OrderBook.Remove.{cancel_order-Effect, execute_order-Effect}
use hft_trading_system.Halt
use hft_trading_system.Halt.{
  HaltManager, HaltReason, PositionInfo, is_running, set_alert_callback, run_halt,
}
use hft_trading_system.Halt.Flatten.{run_halt_lem}
use hft_trading_system.Engine.{
  TradingEngine, trading_engine, setup_halt_manager, find_ticker, with_book, on_add_order,
  on_cancel_order, on_execute_order, send_order_to, cancel_order, halt, get_all_positions,
}
use hft_trading_system.Engine.Halting.{IsWired}
use hft_trading_system.Engine.Named.{
  TradingReaches, IsEngine, changed, added, started, symbol_added, order_added, order_cancelled,
  order_executed, symbol_changed, order_sent, cancel_sent, alert_set, halted, halt_reset,
}

halt-IsWired :
    (accepts : ℕ → Bool) (ps : List PositionInfo) (m : HaltManager) (why : HaltReason)
    → IsWired m
    → IsWired (Halt.halt accepts ps m why).0
unfolding Halt.halt
halt-IsWired accepts ps m why (asks, cancels, sends) = elim (Bool-cases (is_running m.state)) [
  | inl on ↦ rw (on, run_halt_lem accepts ps m why asks sends) (asks, cancels, sends)
  | inr off ↦ rw off (asks, cancels, sends)
]

-- In every reachable engine the ids of the symbols rise from 1 and stay below the next id, each
-- symbol has its own id and a valid order book, each ticker in the map names a symbol of that
-- ticker, and the callbacks of the halt manager for positions, cancels and orders are set.
pub reachable-IsEngine : {e : TradingEngine} → TradingReaches e → IsEngine e
unfolding trading_engine setup_halt_manager with_book on_add_order on_cancel_order on_execute_order
    send_order_to cancel_order halt Halt.reset Halt.set_alert_callback
    Halt.set_get_positions_callback Halt.set_cancel_all_callback Halt.set_send_order_callback
    find_ticker
reachable-IsEngine started = record {
  ids = omega arith;
  named = λ ticker id found. cc;
  wired = (refl, refl, refl);
}
reachable-IsEngine (symbol_added {e} before c room) = added e c (reachable-IsEngine before) room
reachable-IsEngine (order_added {e} before symbol id side price quantity fits) =
    changed e symbol _ (reachable-IsEngine before) (λ w. (refl, refl))
      (λ w found valid. add_order-IsValid w.book id side price quantity valid (fits w found))
reachable-IsEngine (order_cancelled {e} before symbol id) =
    changed e symbol _ (reachable-IsEngine before) (λ w. (refl, refl))
      (λ w found valid. (cancel_order-Effect w.book id valid).valid)
reachable-IsEngine (order_executed {e} before symbol id quantity) =
    changed e symbol _ (reachable-IsEngine before) (λ w. (refl, refl))
      (λ w found valid. (execute_order-Effect w.book id quantity valid).valid)
reachable-IsEngine (symbol_changed {e} before symbol f keeps) =
    changed e symbol f (reachable-IsEngine before) (λ w. ((keeps w).0, (keeps w).1))
      (λ w found valid. subst IsValid (sym (keeps w).2) valid)
reachable-IsEngine (order_sent {e} before answer symbol side qty is_market) =
    let ok = reachable-IsEngine before in
    record { ids = ok.ids; named = ok.named; wired = ok.wired }
reachable-IsEngine (cancel_sent {e} before answer symbol id) =
    let ok = reachable-IsEngine before in
    record { ids = ok.ids; named = ok.named; wired = ok.wired }
reachable-IsEngine (alert_set {e} before) =
    let ok = reachable-IsEngine before in
    record { ids = ok.ids; named = ok.named; wired = ok.wired }
reachable-IsEngine (halted {e} before accepts why) =
    let ok = reachable-IsEngine before in
    record {
      ids = ok.ids;
      named = ok.named;
      wired =
          halt-IsWired accepts (get_all_positions e) (record e.halt_manager { calls = [] }) why
            ok.wired;
    }
reachable-IsEngine (halt_reset {e} before) =
    let ok = reachable-IsEngine before in
    record { ids = ok.ids; named = ok.named; wired = ok.wired }

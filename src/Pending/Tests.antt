-- ===== src/Pending/Tests.antt =====
-- The expiry of include/execution/limit_manager.hpp at one pending order.
use hft_trading_system.Prelude.{◌-◌, ◌≤◌, ◌<◌, ◌&&◌, leb, ◌≡◌, refl, arith, [], ◌∷◌, ◌++◌, map}
use hft_trading_system.Types.{buy}
use hft_trading_system.Pending.{
  LimitManager, limit_manager, track, cancel_slot, cancel_all_for_symbol, cancel_specific,
  on_limit_cancel, publish, check_slot, check_from, check_timeouts,
}
use hft_trading_system.Pending.Expiry.{overdue_slots}
use hft_trading_system.Pending.Slots.{expired, cancel_of}
use hft_trading_system.Pending.Reach.{LimitReaches, created, tracked, check_timeouts_lem}

-- The order 77 of the symbol 5, sent at 1000 ns.
abbrev one_order : LimitManager
one_order = track 1000 limit_manager 5 77 buy 100

one_order-LimitReaches : LimitReaches one_order
one_order-LimitReaches = tracked created 1000 5 77 buy 100 (omega arith)

-- Six seconds later it is overdue.
check_timeouts_lem_example :
    let m' = check_timeouts 6000001000 one_order in
    let late = overdue_slots 6000001000 one_order.timeout_ns one_order.pending 64 0 in
    (m'.pending 5 ≡ expired 6000001000 one_order.timeout_ns (one_order.pending 5))
    × (m'.cancels ≡ one_order.cancels ++ map (λ p. p.order_id) late)
    × (m'.published ≡ one_order.published ++ map cancel_of late)
    × ((one_order.pending 5).submit_time_ns ≤ 6000001000
        → 6000001000 < 18446744073709551616
        → (m'.pending 5).active ≡ (
            (one_order.pending 5).active
            && leb (6000001000 - (one_order.pending 5).submit_time_ns) one_order.timeout_ns))
check_timeouts_lem_example =
    check_timeouts_lem 6000001000 one_order 5 one_order-LimitReaches (omega arith)

cancelled_once : (check_timeouts 6000001000 one_order).cancels ≡ 77 ∷ []
unfolding check_timeouts check_from check_slot publish on_limit_cancel cancel_all_for_symbol
    cancel_specific cancel_slot track limit_manager
cancelled_once = refl

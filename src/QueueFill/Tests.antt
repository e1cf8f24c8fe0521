-- ===== src/QueueFill/Tests.antt =====
-- Fills of include/paper/queue_fill_detector.hpp in one queue.
use hft_trading_system.Prelude.{
  ℕ, ◌≡◌, refl, arith, true, false, List, [], ◌∷◌, map, some, get, put, alter,
}
use hft_trading_system.Types.{buy, sell}
use hft_trading_system.QueueFill.{
  remove_from_front, register_order, set_initial_queue_depth, on_l2_update, on_trade, cancel_order,
  report_fill, confirm_orders, confirm_fill, remove_ours,
}
use hft_trading_system.QueueFill.State.{
  LevelKey, QueueFillDetector, queue_fill_detector, with_level,
}
use hft_trading_system.QueueFill.Level.{
  QueueEntry, PriceLevelQueue, calculate_total_remaining, any_ours, update_has_our_order,
  remove_loop,
}
use hft_trading_system.QueueFill.Fifo.{on_trade-on_l2_update}
use hft_trading_system.QueueFill.Accounts.{reported, Accounts}
use hft_trading_system.QueueFill.Conserve.{created, depth_set, registered, traded, fills-Accounts}

abbrev bids : LevelKey
bids = record { symbol = 1; price = 100; side = buy }

-- Our order 7 for 10, with 30 ahead of it.
abbrev waiting : QueueFillDetector
waiting = set_initial_queue_depth (register_order queue_fill_detector 7 bids 10 5) bids 30

abbrev queue : List QueueEntry
queue =
    record { sequence = 0; quantity = 30; remaining = 30; is_ours = false; our_order_id = 0 }
    ∷ record { sequence = 1; quantity = 10; remaining = 10; is_ours = true; our_order_id = 7 }
    ∷ []

abbrev level : PriceLevelQueue
level = record {
  price = 100;
  queue = queue;
  has_our_order = true;
  our_position = 1;
  our_sequence = 1;
  our_order_id = 7;
  total_ahead_at_entry = 30;
  volume_traded = 0;
}

at_level : waiting.levels bids ≡ some level
unfolding queue_fill_detector register_order set_initial_queue_depth calculate_total_remaining
at_level = refl

on_trade-on_l2_update_example :
    on_trade waiting 1 100 40 sell 9 0
    ≡ on_l2_update (with_level waiting bids (record level { volume_traded = 40 })) bids 45 5 9
on_trade-on_l2_update_example =
    on_trade-on_l2_update waiting 1 100 40 5 sell 9 level at_level refl
      (omega arith, (omega arith, tt)) (omega arith)

abbrev filled_detector : QueueFillDetector
filled_detector = on_trade waiting 1 100 40 sell 9 0

fills-Accounts_example : Accounts (reported 7 filled_detector.fills) (get 7 filled_detector.orders)
unfolding queue_fill_detector get
fills-Accounts_example =
    fills-Accounts
      (traded (depth_set (registered created 7 bids 10 5 refl (omega arith)) bids 30) 1 100 40 sell
        9 0)
      7

-- Orders 7 and 8 wait at one price, and 8 is cancelled. A small reduction marks the level as ours
-- again, and a trade behind it then reports the cancelled order as filled.
abbrev cancelled_then_traded : QueueFillDetector
cancelled_then_traded =
    on_trade (on_l2_update (cancel_order (register_order waiting 8 bids 20 6) 8) bids 40 39 7) 1 100
      5 sell 9 50

cancelled_filled :
    map {B = ℕ × ℕ} (λ f. (f.order_id, f.quantity)) cancelled_then_traded.fills ≡ (8, 20) ∷ []
unfolding queue_fill_detector register_order set_initial_queue_depth calculate_total_remaining
    on_trade on_l2_update cancel_order remove_ours remove_from_front remove_loop confirm_orders
    update_has_our_order any_ours confirm_fill report_fill get put alter
cancelled_filled = refl

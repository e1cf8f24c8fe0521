-- ===== src/Pending.antt =====
-- include/execution/limit_manager.hpp: the pending limit orders, at most one for a symbol, and their
-- expiry. The event bus of include/core/event_bus.hpp calls the handlers of an event as it is
-- published, so that the manager's own handler runs within `check_timeouts`. The engine that cancels
-- is outside: the state keeps the calls made to it. The quantity, a double that is only stored, is
-- left out. The slots are those below 64; a symbol beyond them is undefined behaviour in the source.
pub mod Slots
pub mod Expiry
pub mod Reach
mod Tests
use hft_trading_system.Prelude.{
  ℕ, zero, suc, ◌+◌, ◌-◌, ◌%◌, Bool, true, false, ◌&&◌, ◌==◌, ltb, leb, if◌then◌else◌, List, [],
  ◌∷◌, ◌++◌, Option, none, some,
}
use hft_trading_system.Types.{Side, buy, sell}

pub record PendingLimit : Type 0 where
  pub order_id : ℕ
  pub symbol : ℕ
  pub side : Side
  pub limit_price : ℕ
  pub submit_time_ns : ℕ
  pub active : Bool

abbrev pub cleared_limit : PendingLimit
cleared_limit = record {
  order_id = 0;
  symbol = 0;
  side = buy;
  limit_price = 0;
  submit_time_ns = 0;
  active = false;
}

abbrev pub inactive : PendingLimit → PendingLimit
inactive p = record p { active = false }

-- The reason, always a timeout where the manager publishes, and the time are left out.
pub record LimitCancelEvent : Type 0 where
  pub symbol : ℕ
  pub order_id : ℕ

pub record LimitManager : Type 0 where
  pub pending : ℕ → PendingLimit
  pub timeout_ns : ℕ
  pub published : List LimitCancelEvent
  pub cancels : List ℕ

abbrev pub max_pending : ℕ
max_pending = 64

unfoldable pub limit_manager : LimitManager
limit_manager = record {
  pending = λ _. cleared_limit;
  timeout_ns = 5000000000;
  published = [];
  cancels = [];
}

abbrev pub set_slot : (ℕ → PendingLimit) → ℕ → PendingLimit → ℕ → PendingLimit
set_slot slots i p = λ j. if j == i then p else slots j

unfoldable pub track : ℕ → LimitManager → ℕ → ℕ → Side → ℕ → LimitManager
track now m id order_id side price =
    let p : PendingLimit = record {
      order_id = order_id;
      symbol = id;
      side = side;
      limit_price = price;
      submit_time_ns = now;
      active = true;
    } in
    record m { pending = set_slot m.pending id p }

-- `spot_engine_->cancel_order(p.order_id); p.active = false;`
unfoldable pub cancel_slot : LimitManager → ℕ → LimitManager
cancel_slot m id =
    let p = m.pending id in
    record m {
      pending = set_slot m.pending id (inactive p);
      cancels = m.cancels ++ p.order_id ∷ [];
    }

unfoldable pub cancel_all_for_symbol : LimitManager → ℕ → LimitManager
cancel_all_for_symbol m id =
    if leb max_pending id then m else if (m.pending id).active then cancel_slot m id else m

unfoldable pub cancel_specific : LimitManager → ℕ → ℕ → LimitManager
cancel_specific m id order_id =
    if leb max_pending id
    then m
    else if (m.pending id).active && (m.pending id).order_id == order_id
    then cancel_slot m id
    else m

-- The handler that the constructor subscribes.
unfoldable pub on_limit_cancel : LimitManager → LimitCancelEvent → LimitManager
on_limit_cancel m e =
    if e.order_id == 0
    then cancel_all_for_symbol m e.symbol
    else cancel_specific m e.symbol e.order_id

unfoldable pub publish : LimitManager → LimitCancelEvent → LimitManager
publish m e = on_limit_cancel (record m { published = m.published ++ e ∷ [] }) e

-- `(now - p.submit_time_ns) > timeout_ns_`, in uint64_t
abbrev pub is_overdue : ℕ → ℕ → PendingLimit → Bool
is_overdue now timeout p =
    p.active && ltb timeout ((now + 18446744073709551616 - p.submit_time_ns) % 18446744073709551616)

-- One round of the loop of `check_timeouts`.
unfoldable pub check_slot : ℕ → LimitManager → ℕ → LimitManager
check_slot now m i =
    let p = m.pending i in
    let m1 = publish m (record { symbol = p.symbol; order_id = p.order_id }) in
    if is_overdue now m.timeout_ns p
    then record m1 { pending = set_slot m1.pending i (inactive (m1.pending i)) }
    else m

unfoldable pub check_from : ℕ → ℕ → ℕ → LimitManager → LimitManager
check_from now zero i m = m
check_from now (suc n) i m = check_from now n (i + 1) (check_slot now m i)

unfoldable pub check_timeouts : ℕ → LimitManager → LimitManager
check_timeouts now m = check_from now max_pending 0 m

-- The first active slot of an order, among `n` slots from `i` on.
unfoldable pub slot_of : LimitManager → ℕ → ℕ → ℕ → Option ℕ
slot_of m order_id zero i = none
slot_of m order_id (suc n) i =
    let rest = slot_of m order_id n (i + 1) in
    if (m.pending i).active && (m.pending i).order_id == order_id then some i else rest

abbrev pub clear_slot : LimitManager → Option ℕ → LimitManager
clear_slot m none = m
clear_slot m (some i) = record m { pending = set_slot m.pending i cleared_limit }

unfoldable pub on_fill : LimitManager → ℕ → LimitManager
on_fill m order_id = clear_slot m (slot_of m order_id max_pending 0)

unfoldable pub get_pending : LimitManager → ℕ → Option PendingLimit
get_pending m id =
    if leb max_pending id then none else if (m.pending id).active then some (m.pending id) else none

unfoldable pub set_timeout_ns : LimitManager → ℕ → LimitManager
set_timeout_ns m timeout_ns = record m { timeout_ns = timeout_ns }

-- The active ones among the first `n` slots.
unfoldable pub pending_count : LimitManager → ℕ → ℕ
pending_count m zero = 0
pending_count m (suc n) =
    let rest = pending_count m n in if (m.pending n).active then rest + 1 else rest

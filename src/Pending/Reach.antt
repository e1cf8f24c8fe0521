-- ===== src/Pending/Reach.antt =====
-- The states of include/execution/limit_manager.hpp, and what an expiry does in each of them.
use hft_trading_system.Prelude.{
  ℕ, ◌+◌, ◌-◌, ◌%◌, ◌≤◌, ◌<◌, ap, ◌∙◌, ◌≡◌, refl, sym, arith, Bool, true, false, ◌&&◌, ◌==◌, ==→eq,
  ltb, ltb→lt, leb, if◌then◌else◌, [], ◌∷◌, ◌++◌, map, Bool-cases, inl, inr, subst, Option, none,
  some,
}
use hft_trading_system.Types.{Side}
use hft_trading_system.Pending.{
  PendingLimit, LimitCancelEvent, LimitManager, limit_manager, track, cancel_slot,
  cancel_all_for_symbol, cancel_specific, on_limit_cancel, publish, check_timeouts, on_fill,
  set_slot, clear_slot, is_overdue, set_timeout_ns, slot_of, cleared_limit, inactive,
}
use hft_trading_system.Pending.Expiry.{overdue_slots, inactive-IsOwn, check_from-Checked}
use hft_trading_system.Pending.Slots.{IsOwn, IsSlotted, expired, cancel_of}

-- The states that calls of the operations lead to, in any order, for symbols below 64.
pub data LimitReaches : LimitManager → Type 0 where
  created : LimitReaches limit_manager
  tracked :
      {m : LimitManager}
      → LimitReaches m
      → (now id order_id : ℕ) (side : Side) (price : ℕ) → id < 64
      → LimitReaches (track now m id order_id side price)
  checked : {m : LimitManager} → LimitReaches m → (now : ℕ) → LimitReaches (check_timeouts now m)
  cancel_asked :
      {m : LimitManager} → LimitReaches m → (e : LimitCancelEvent) → LimitReaches (publish m e)
  order_filled :
      {m : LimitManager} → LimitReaches m → (order_id : ℕ) → LimitReaches (on_fill m order_id)
  timeout_set :
      {m : LimitManager} → LimitReaches m → (timeout : ℕ) → LimitReaches (set_timeout_ns m timeout)

set_slot-IsSlotted :
    (slots : ℕ → PendingLimit) (i : ℕ) (p : PendingLimit)
    → IsSlotted slots
    → IsOwn p i
    → IsSlotted (set_slot slots i p)
set_slot-IsSlotted slots i p slotted own j = elim (Bool-cases (j == i)) [
  | inl same ↦ rw same (subst (λ (k : ℕ). IsOwn p k) (sym (==→eq j i same)) own)
  | inr other ↦ rw other (slotted j)
]

-- Each operation writes slots that are inactive, or their own.
one_of :
    (b : Bool) (x y : LimitManager)
    → IsSlotted x.pending
    → IsSlotted y.pending
    → IsSlotted (if b then x else y).pending
one_of true x y hx hy = hx
one_of false x y hx hy = hy

cancel_slot-IsSlotted :
    (m : LimitManager) (id : ℕ) → IsSlotted m.pending → IsSlotted (cancel_slot m id).pending
unfolding cancel_slot
cancel_slot-IsSlotted m id slotted =
    set_slot-IsSlotted m.pending id (inactive (m.pending id)) slotted (λ h. cc)

publish-IsSlotted :
    (m : LimitManager) (e : LimitCancelEvent)
    → IsSlotted m.pending
    → IsSlotted (publish m e).pending
unfolding publish on_limit_cancel cancel_all_for_symbol cancel_specific
publish-IsSlotted m e slotted =
    let m1 = record m { published = m.published ++ e ∷ [] } in
    let done = cancel_slot-IsSlotted m1 e.symbol slotted in
    one_of (e.order_id == 0) _ _
      (one_of (leb 64 e.symbol) m1 _ slotted
        (one_of (m.pending e.symbol).active (cancel_slot m1 e.symbol) m1 done slotted))
      (one_of (leb 64 e.symbol) m1 _ slotted (
        one_of ((m.pending e.symbol).active && (m.pending e.symbol).order_id == e.order_id)
          (cancel_slot m1 e.symbol) m1 done slotted))

clear_slot-IsSlotted :
    (m : LimitManager) (found : Option ℕ)
    → IsSlotted m.pending
    → IsSlotted (clear_slot m found).pending
clear_slot-IsSlotted m none slotted = slotted
clear_slot-IsSlotted m (some i) slotted =
    set_slot-IsSlotted m.pending i cleared_limit slotted (λ h. cc)

on_fill-IsSlotted :
    (m : LimitManager) (order_id : ℕ) → IsSlotted m.pending → IsSlotted (on_fill m order_id).pending
unfolding on_fill
on_fill-IsSlotted m order_id slotted = clear_slot-IsSlotted m (slot_of m order_id 64 0) slotted

reachable-IsSlotted : {m : LimitManager} → LimitReaches m → IsSlotted m.pending
unfolding limit_manager track check_timeouts set_timeout_ns
reachable-IsSlotted created = λ j h. cc
reachable-IsSlotted (tracked {m} before now id order_id side price below) =
    set_slot-IsSlotted m.pending id _ (reachable-IsSlotted before) (λ h. refl)
reachable-IsSlotted (checked {m} before now) =
    let slotted = reachable-IsSlotted before in
    let c = check_from-Checked now 64 0 m (omega arith) slotted in
    λ j. elim (Bool-cases (ltb j 64)) [
      | inl below ↦
          subst (λ (p : PendingLimit). IsOwn p j)
            (sym (c.within j (omega arith) (ltb→lt j 64 below)))
            (inactive-IsOwn (is_overdue now m.timeout_ns (m.pending j)) (m.pending j) j (slotted j))
      | inr beyond ↦
          subst (λ (p : PendingLimit). IsOwn p j) (sym (c.after j (ground (arith, beyond))))
            (slotted j)
    ]
reachable-IsSlotted (cancel_asked {m} before e) = publish-IsSlotted m e (reachable-IsSlotted before)
reachable-IsSlotted (order_filled {m} before order_id) =
    on_fill-IsSlotted m order_id (reachable-IsSlotted before)
reachable-IsSlotted (timeout_set {m} before timeout) = reachable-IsSlotted before

-- An order that was not submitted in the future stays if it is not older than the timeout.
expired-active :
    (now timeout : ℕ) (p : PendingLimit)
    → p.submit_time_ns ≤ now
    → now < 18446744073709551616
    → (expired now timeout p).active ≡ (p.active && leb (now - p.submit_time_ns) timeout)
expired-active now timeout p past small =
    let age : (now + 18446744073709551616 - p.submit_time_ns) % 18446744073709551616
        ≡ now - p.submit_time_ns =
      omega (arith, past, small) in
    rw age (ground arith)

-- In every reachable state `check_timeouts` cancels exactly the pending orders that are overdue, each
-- once and in the order of the slots: it publishes an event for each, its own handler asks the engine
-- to cancel that order, and after it each slot is as before, but inactive where its order was overdue.
-- If the clock has not run back behind the time of an order and fits 64 bits, the order is active after
-- it exactly if it was active and is not older than the timeout.
pub check_timeouts_lem :
    (now : ℕ) (m : LimitManager) (j : ℕ)
    → LimitReaches m
    → j < 64
    → let m' = check_timeouts now m in
      let late = overdue_slots now m.timeout_ns m.pending 64 0 in
      (m'.pending j ≡ expired now m.timeout_ns (m.pending j))
      × (m'.cancels ≡ m.cancels ++ map (λ p. p.order_id) late)
      × (m'.published ≡ m.published ++ map cancel_of late)
      × ((m.pending j).submit_time_ns ≤ now
          → now < 18446744073709551616
          → (m'.pending j).active
            ≡ ((m.pending j).active && leb (now - (m.pending j).submit_time_ns) m.timeout_ns))
unfolding check_timeouts
check_timeouts_lem now m j reaches below =
    let c = check_from-Checked now 64 0 m (omega arith) (reachable-IsSlotted reaches) in
    let slot = c.within j (omega arith) below in
    (
      slot,
      c.cancels,
      c.published,
      λ past small.
          ap (λ (p : PendingLimit). p.active) slot
          ∙ expired-active now m.timeout_ns (m.pending j) past small,
    )

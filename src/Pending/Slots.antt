-- ===== src/Pending/Slots.antt =====
-- One round of the expiry of include/execution/limit_manager.hpp, and what it does to the slots.
use mathlib.Core.List.{append-nil}
use hft_trading_system.Prelude.{
  ℕ, ◌<◌, ◌≡◌, refl, sym, ap, ◌∙◌, arith, Bool, true, false, ◌&&◌, ◌==◌, ==_refl, leb,
  if◌then◌else◌, [], ◌∷◌, ◌++◌, Bool-cases, inl, inr, if_so, if_not, subst,
}
use hft_trading_system.Pending.{
  PendingLimit, LimitCancelEvent, LimitManager, cancel_slot, cancel_all_for_symbol, cancel_specific,
  on_limit_cancel, publish, is_overdue, check_slot, set_slot, inactive,
}

-- An active slot holds an order of its own symbol.
abbrev pub IsOwn : PendingLimit → ℕ → Type 0
IsOwn p j = p.active ≡ true → p.symbol ≡ j

abbrev pub IsSlotted : (ℕ → PendingLimit) → Type 0
IsSlotted slots = (j : ℕ) → IsOwn (slots j) j

abbrev pub expired : ℕ → ℕ → PendingLimit → PendingLimit
expired now timeout p = if is_overdue now timeout p then inactive p else p

abbrev pub cancel_of : PendingLimit → LimitCancelEvent
cancel_of p = record { symbol = p.symbol; order_id = p.order_id }

-- The handler of an event for the active slot `i` cancels its order.
on_limit_cancel_lem :
    (m : LimitManager) (i symbol order_id : ℕ)
    → i < 64
    → symbol ≡ i
    → (m.pending i).active ≡ true
    → (m.pending i).order_id ≡ order_id
    → on_limit_cancel m (record { symbol = symbol; order_id = order_id }) ≡ cancel_slot m i
unfolding on_limit_cancel cancel_all_for_symbol cancel_specific
on_limit_cancel_lem m i symbol order_id within own active same =
    let in_range : leb 64 i ≡ false = ground (arith, within) in
    let this : ((m.pending i).order_id == order_id) ≡ true = rw same (==_refl order_id) in
    rw (own, in_range, active, this) (both (order_id == 0) (cancel_slot m i))
  where
    both : (b : Bool) (x : LimitManager) → (if b then x else x) ≡ x
    both true x = refl
    both false x = refl

pub record SlotChecked (now : ℕ) (m m' : LimitManager) (i : ℕ) : Type 0 where
  pub same_timeout : m'.timeout_ns ≡ m.timeout_ns
  pub here : m'.pending i ≡ expired now m.timeout_ns (m.pending i)
  pub elsewhere : (j : ℕ) → (j == i) ≡ false → m'.pending j ≡ m.pending j
  pub cancels :
      m'.cancels
      ≡ m.cancels
        ++ (if is_overdue now m.timeout_ns (m.pending i) then (m.pending i).order_id ∷ [] else [])
  pub published :
      m'.published
      ≡ m.published
        ++ (if is_overdue now m.timeout_ns (m.pending i) then cancel_of (m.pending i) ∷ [] else [])

closed : LimitManager → ℕ → LimitManager
closed m i = record m { pending = set_slot m.pending i (inactive (m.pending i)) }

check_slot-late :
    (now : ℕ) (m : LimitManager) (i : ℕ)
    → i < 64
    → IsSlotted m.pending
    → is_overdue now m.timeout_ns (m.pending i) ≡ true
    → check_slot now m i
      ≡ closed
          (cancel_slot (record m { published = m.published ++ cancel_of (m.pending i) ∷ [] }) i)
          i
unfolding check_slot publish closed
check_slot-late now m i within slotted late =
    let p = m.pending i in
    let active : p.active ≡ true = active_of p.active _ late in
    let m1 = record m { published = m.published ++ cancel_of p ∷ [] } in
    if_so (is_overdue now m.timeout_ns p) _ m late
    ∙ ap (λ (x : LimitManager). closed x i)
        (on_limit_cancel_lem m1 i p.symbol p.order_id within (slotted i active) active refl)
  where
    active_of : (a b : Bool) → (a && b) ≡ true → a ≡ true
    active_of true b h = refl
    active_of false b h = h

closed-SlotChecked :
    (now : ℕ) (m : LimitManager) (i : ℕ)
    → is_overdue now m.timeout_ns (m.pending i) ≡ true
    → SlotChecked now m
        (closed
          (cancel_slot (record m { published = m.published ++ cancel_of (m.pending i) ∷ [] }) i)
          i)
        i
unfolding closed cancel_slot
closed-SlotChecked now m i late = record {
  same_timeout = refl;
  here = rw (==_refl i, late) refl;
  elsewhere = λ j other. rw other refl;
  cancels = rw late refl;
  published = rw late refl;
}

pub check_slot-SlotChecked :
    (now : ℕ) (m : LimitManager) (i : ℕ)
    → i < 64
    → IsSlotted m.pending
    → SlotChecked now m (check_slot now m i) i
unfolding check_slot
check_slot-SlotChecked now m i within slotted =
    elim (Bool-cases (is_overdue now m.timeout_ns (m.pending i))) [
      | inl late ↦
          subst (λ (m' : LimitManager). SlotChecked now m m' i)
            (sym (check_slot-late now m i within slotted late)) (closed-SlotChecked now m i late)
      | inr early ↦
          subst (λ (m' : LimitManager). SlotChecked now m m' i) (sym (unchanged early))
            (record {
              same_timeout = refl;
              here = rw early refl;
              elsewhere = λ j other. refl;
              cancels = rw early (sym (append-nil m.cancels));
              published = rw early (sym (append-nil m.published));
            })
    ]
  where
    unchanged : is_overdue now m.timeout_ns (m.pending i) ≡ false → check_slot now m i ≡ m
    unchanged early = if_not (is_overdue now m.timeout_ns (m.pending i)) _ m early

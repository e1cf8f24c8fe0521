-- ===== src/Pending/Expiry.antt =====
-- The expiry of the pending orders of include/execution/limit_manager.hpp.
use mathlib.Core.List.{append_assoc, append-nil}
use hft_trading_system.Prelude.{
  ℕ, zero, suc, ◌+◌, ◌≤◌, ◌<◌, ◌≡◌, refl, sym, ap, ◌∙◌, arith, Bool, true, false, ◌==◌, ==→eq,
  if◌then◌else◌, List, [], ◌∷◌, ◌++◌, map, Bool-cases, inl, inr, subst,
}
use hft_trading_system.Pending.{
  PendingLimit, LimitCancelEvent, LimitManager, is_overdue, check_slot, check_from, inactive,
}
use hft_trading_system.Pending.Slots.{
  IsOwn, IsSlotted, expired, cancel_of, SlotChecked, check_slot-SlotChecked,
}

-- The overdue orders in `n` slots from `i` on, in order.
pub overdue_slots : ℕ → ℕ → (ℕ → PendingLimit) → ℕ → ℕ → List PendingLimit
overdue_slots now timeout slots zero i = []
overdue_slots now timeout slots (suc n) i =
    let rest = overdue_slots now timeout slots n (i + 1) in
    if is_overdue now timeout (slots i) then slots i ∷ rest else rest

overdue_slots-same :
    (now timeout : ℕ) (s s' : ℕ → PendingLimit) (n i : ℕ)
    → ((j : ℕ) → i ≤ j → s' j ≡ s j)
    → overdue_slots now timeout s' n i ≡ overdue_slots now timeout s n i
unfolding overdue_slots
overdue_slots-same now timeout s s' zero i same = refl
overdue_slots-same now timeout s s' (suc n) i same =
    let rest = overdue_slots-same now timeout s s' n (i + 1) (λ j h. same j (omega (arith, h))) in
    rw (same i (omega arith), rest) refl

-- What the rounds on `n` slots from `i` on have done.
pub record Checked (now : ℕ) (m m' : LimitManager) (n i : ℕ) : Type 0 where
  pub before : (j : ℕ) → j < i → m'.pending j ≡ m.pending j
  pub within : (j : ℕ) → i ≤ j → j < i + n → m'.pending j ≡ expired now m.timeout_ns (m.pending j)
  pub after : (j : ℕ) → i + n ≤ j → m'.pending j ≡ m.pending j
  pub cancels :
      m'.cancels ≡ m.cancels ++ map (λ p. p.order_id) (overdue_slots now m.timeout_ns m.pending n i)
  pub published :
      m'.published ≡ m.published ++ map cancel_of (overdue_slots now m.timeout_ns m.pending n i)

pub inactive-IsOwn :
    (b : Bool) (p : PendingLimit) (j : ℕ) → IsOwn p j → IsOwn (if b then inactive p else p) j
inactive-IsOwn true p j own = λ h. cc
inactive-IsOwn false p j own = own

check_slot-IsSlotted :
    (now : ℕ) (m m' : LimitManager) (i : ℕ)
    → SlotChecked now m m' i
    → IsSlotted m.pending
    → IsSlotted m'.pending
check_slot-IsSlotted now m m' i c slotted j = elim (Bool-cases (j == i)) [
  | inl same ↦
      let here : m'.pending j ≡ expired now m.timeout_ns (m.pending j) =
        subst (λ (k : ℕ). m'.pending k ≡ expired now m.timeout_ns (m.pending k))
          (sym (==→eq j i same)) c.here in
      subst (λ (p : PendingLimit). IsOwn p j) (sym here)
        (inactive-IsOwn (is_overdue now m.timeout_ns (m.pending j)) (m.pending j) j (slotted j))
  | inr other ↦ subst (λ (p : PendingLimit). IsOwn p j) (sym (c.elsewhere j other)) (slotted j)
]

joined :
    {A : Type 0} (f : PendingLimit → A) (b : Bool) (xs : List A) (p : PendingLimit)
    (late : List PendingLimit)
    → (xs ++ (if b then f p ∷ [] else [])) ++ map f late
      ≡ xs ++ map f (if b then p ∷ late else late)
joined f true xs p late = append_assoc xs (f p ∷ []) (map f late)
joined f false xs p late = append_assoc xs [] (map f late)

pub check_from-Checked :
    (now n i : ℕ) (m : LimitManager)
    → i + n ≤ 64
    → IsSlotted m.pending
    → Checked now m (check_from now n i m) n i
unfolding check_from overdue_slots
check_from-Checked now zero i m room slotted = record {
  before = λ j h. refl;
  within = λ j h h'. absurd (omega (arith, h, h'));
  after = λ j h. refl;
  cancels = sym (append-nil m.cancels);
  published = sym (append-nil m.published);
}
check_from-Checked now (suc n) i m room slotted =
    let m1 = check_slot now m i in
    let c : SlotChecked now m m1 i = check_slot-SlotChecked now m i (omega (arith, room)) slotted in
    let rest =
      check_from-Checked now n (i + 1) m1 (omega (arith, room))
        (check_slot-IsSlotted now m m1 i c slotted) in
    let late : overdue_slots now m1.timeout_ns m1.pending n (i + 1)
        ≡ overdue_slots now m.timeout_ns m.pending n (i + 1) =
      ap (λ (t : ℕ). overdue_slots now t m1.pending n (i + 1)) c.same_timeout
      ∙ overdue_slots-same now m.timeout_ns m.pending m1.pending n (i + 1)
          (λ j h. c.elsewhere j (ground (arith, h))) in
    record {
      before = λ j h. rest.before j (omega (arith, h)) ∙ c.elsewhere j (ground (arith, h));
      within = λ j h h'. elim (Bool-cases (j == i)) [
        | inl same ↦
            rest.before j (ground (arith, same))
            ∙ subst (λ (k : ℕ). m1.pending k ≡ expired now m.timeout_ns (m.pending k))
                (sym (==→eq j i same)) c.here
        | inr other ↦
            rest.within j (ground (arith, other, h)) (omega (arith, h'))
            ∙ ap (λ (t : ℕ). expired now t (m1.pending j)) c.same_timeout
            ∙ ap (expired now m.timeout_ns) (c.elsewhere j other)
      ];
      after = λ j h. rest.after j (omega (arith, h)) ∙ c.elsewhere j (ground (arith, h));
      cancels =
          rest.cancels
          ∙ ap (λ (l : List PendingLimit). m1.cancels ++ map (λ p. p.order_id) l) late
          ∙ ap
              (λ (xs : List ℕ).
                xs ++ map (λ p. p.order_id) (overdue_slots now m.timeout_ns m.pending n (i + 1)))
              c.cancels
          ∙ joined (λ p. p.order_id) (is_overdue now m.timeout_ns (m.pending i)) m.cancels
              (m.pending i) (overdue_slots now m.timeout_ns m.pending n (i + 1));
      published =
          rest.published
          ∙ ap (λ (l : List PendingLimit). m1.published ++ map cancel_of l) late
          ∙ ap
              (λ (xs : List LimitCancelEvent).
                xs ++ map cancel_of (overdue_slots now m.timeout_ns m.pending n (i + 1)))
              c.published
          ∙ joined cancel_of (is_overdue now m.timeout_ns (m.pending i)) m.published (m.pending i)
              (overdue_slots now m.timeout_ns m.pending n (i + 1));
    }

-- ===== src/QueueFill/Conserve.antt =====
-- What include/paper/queue_fill_detector.hpp reports as filled, in every state.
use hft_trading_system.Prelude.{
  ℕ, ◌+◌, ◌-◌, ◌<◌, ◌≡◌, refl, Bool, true, false, ◌&&◌, not, ◌==◌, ==_refl, ==→eq, ltb,
  if◌then◌else◌, Option, none, some, Bool-cases, Option-cases, inl, inr, u32, get, alter, get-put,
  get-alter, subst,
}
use hft_trading_system.Types.{Side}
use hft_trading_system.QueueFill.{
  remove_from_front, set_initial_queue_depth, register_order, on_l2_update, trade_through, on_trade,
  cancel_order, passive_side,
}
use hft_trading_system.QueueFill.State.{
  PaperOrderState, LevelKey, QueueFillDetector, queue_fill_detector, with_level,
}
use hft_trading_system.QueueFill.Level.{remove_loop, consume, cleanup}
use hft_trading_system.QueueFill.Accounts.{
  reported, Accounts, IsConserved, one_of, confirm_orders-IsConserved, confirm_fill-IsConserved,
}

on_l2_update-IsConserved :
    (d : QueueFillDetector) (key : LevelKey) (old_size new_size time : ℕ)
    → IsConserved d
    → IsConserved (on_l2_update d key old_size new_size time)
unfolding on_l2_update remove_from_front
on_l2_update-IsConserved d key old_size new_size time ok = elim (Option-cases (d.levels key)) [
  | inl missing ↦ rw (missing, on_l2_update) ok
  | inr (l, found) ↦
      let (l', filled_orders) = remove_loop l.queue l (old_size - new_size) in
      let removed = confirm_orders-IsConserved d filled_orders l'.price time ok in
      rw (found, on_l2_update)
        (one_of (ltb old_size new_size) _ _ ok (one_of (ltb new_size old_size) _ d removed ok))
]

on_trade-IsConserved :
    (d : QueueFillDetector) (symbol price qty : ℕ) (side : Side) (time sequence : ℕ)
    → IsConserved d
    → IsConserved (on_trade d symbol price qty side time sequence)
unfolding on_trade trade_through
on_trade-IsConserved d symbol price qty side time sequence ok =
    let key : LevelKey = record { symbol = symbol; price = price; side = passive_side side } in
    elim (Option-cases (d.levels key)) [
      | inl missing ↦ rw (missing, on_trade) ok
      | inr (l, found) ↦
          let l1 = record l { volume_traded = u32 (l.volume_traded + qty) } in
          let d1 = with_level d key l1 in
          let (queue', filled_orders) = consume qty l.queue in
          let traded =
            confirm_orders-IsConserved d1 filled_orders (cleanup queue' l1).price time ok in
          rw (found, on_trade)
            (one_of (not l1.has_our_order) d1 _ ok (
              one_of (ltb 0 sequence && ltb l1.our_sequence sequence) _ _
                (confirm_fill-IsConserved d1 key l1 time ok) traded))
    ]

register_order-IsConserved :
    (d : QueueFillDetector) (id : ℕ) (key : LevelKey) (qty time : ℕ)
    → get id d.orders ≡ none
    → qty < 4294967296
    → IsConserved d
    → IsConserved (register_order d id key qty time)
unfolding register_order
register_order-IsConserved d id key qty time fresh_id small ok j = elim (Bool-cases (j == id)) [
  | inl same ↦
      let here : j ≡ id = ==→eq j id same in
      let none_told : reported id d.fills ≡ 0 =
        subst (λ (x : Option PaperOrderState). Accounts (reported id d.fills) x) fresh_id (ok id) in
      rw (here, get-put id id (registered d qty time) d.orders, ==_refl id)
        (small, none_told, inl refl)
  | inr other ↦ rw (get-put j id (registered d qty time) d.orders, other) (ok j)
]
  where
    registered : QueueFillDetector → ℕ → ℕ → PaperOrderState
    registered d qty time = record {
      quantity = qty;
      filled = 0;
      submit_time_ns = time;
      sequence = d.next_sequence;
      is_active = true;
    }

deactivated-Accounts :
    (d : QueueFillDetector) (id j : ℕ)
    → IsConserved d
    → Accounts
        (reported j d.fills)
        (get j (alter id (λ (x : PaperOrderState). record x { is_active = false }) d.orders))
deactivated-Accounts d id j ok =
    rw (get-alter j id (λ (x : PaperOrderState). record x { is_active = false }) d.orders)
      (closed (j == id) (get j d.orders) (ok j))
  where
    closed :
        (b : Bool) (x : Option PaperOrderState)
        → Accounts (reported j d.fills) x
        → Accounts (reported j d.fills) (
            if b
            then elim x [ none ↦ none | some a ↦ some (record a { is_active = false }) ]
            else x)
    closed true none h = h
    closed true (some a) h = h
    closed false x h = h

cancel_order-IsConserved :
    (d : QueueFillDetector) (id : ℕ) → IsConserved d → IsConserved (cancel_order d id)
unfolding cancel_order
cancel_order-IsConserved d id ok j = elim (Option-cases (get id d.orders)) [
  | inl missing ↦ rw (missing, cancel_order) (ok j)
  | inr (o, found) ↦ elim (Option-cases (get id d.order_to_level)) [
    | inl nowhere ↦ rw (found, cancel_order, nowhere) (deactivated-Accounts d id j ok)
    | inr (key, at_level) ↦ rw (found, cancel_order, at_level) (deactivated-Accounts d id j ok)
  ]
]

depth_set-IsConserved :
    (d : QueueFillDetector) (key : LevelKey) (depth : ℕ)
    → IsConserved d
    → IsConserved (set_initial_queue_depth d key depth)
unfolding set_initial_queue_depth
depth_set-IsConserved d key depth ok = elim (Option-cases (d.levels key)) [
  | inl missing ↦ rw (missing, set_initial_queue_depth) ok
  | inr (l, found) ↦ rw (found, set_initial_queue_depth) (one_of (not l.has_our_order) d _ ok ok)
]

-- The detectors that calls of the operations lead to, in any order and with any arguments; only the
-- orders that are registered have new ids.
pub data DetectorReaches : QueueFillDetector → Type 0 where
  created : DetectorReaches queue_fill_detector
  depth_set :
      {d : QueueFillDetector}
      → DetectorReaches d
      → (key : LevelKey) (depth : ℕ) → DetectorReaches (set_initial_queue_depth d key depth)
  registered :
      {d : QueueFillDetector}
      → DetectorReaches d
      → (id : ℕ) (key : LevelKey) (qty time : ℕ) → get id d.orders ≡ none
      → qty < 4294967296
      → DetectorReaches (register_order d id key qty time)
  level_changed :
      {d : QueueFillDetector}
      → DetectorReaches d
      → (key : LevelKey) (old_size new_size time : ℕ)
      → DetectorReaches (on_l2_update d key old_size new_size time)
  traded :
      {d : QueueFillDetector}
      → DetectorReaches d
      → (symbol price qty : ℕ) (side : Side) (time sequence : ℕ)
      → DetectorReaches (on_trade d symbol price qty side time sequence)
  cancelled :
      {d : QueueFillDetector} → DetectorReaches d → (id : ℕ) → DetectorReaches (cancel_order d id)

-- In every reachable state, and for every order: nothing is reported of an id that is not registered,
-- and of a registered order either nothing or exactly its quantity, in all its fills together, and
-- that much is recorded as filled.
pub fills-Accounts :
    {d : QueueFillDetector}
    → DetectorReaches d
    → (id : ℕ) → Accounts (reported id d.fills) (get id d.orders)
unfolding queue_fill_detector reported get
fills-Accounts created id = refl
fills-Accounts (depth_set {d} before key depth) id =
    depth_set-IsConserved d key depth (fills-Accounts before) id
fills-Accounts (registered {d} before new key qty time fresh_id small) id =
    register_order-IsConserved d new key qty time fresh_id small (fills-Accounts before) id
fills-Accounts (level_changed {d} before key old_size new_size time) id =
    on_l2_update-IsConserved d key old_size new_size time (fills-Accounts before) id
fills-Accounts (traded {d} before symbol price qty side time sequence) id =
    on_trade-IsConserved d symbol price qty side time sequence (fills-Accounts before) id
fills-Accounts (cancelled {d} before gone) id =
    cancel_order-IsConserved d gone (fills-Accounts before) id

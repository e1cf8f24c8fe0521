-- ===== src/QueueFill/Accounts.antt =====
-- What include/paper/queue_fill_detector.hpp reports when it confirms fills.
use hft_trading_system.Prelude.{
  ℕ, ◌+◌, ◌-◌, ◌%◌, ◌<◌, ◌≡◌, refl, arith, Bool, true, false, ◌==◌, ==_refl, ==→eq, if◌then◌else◌,
  List, [], ◌∷◌, ◌++◌, Option, none, some, Bool-cases, Option-cases, inl, inr, ◌⊎◌, sub32, get,
  get-alter, subst,
}
use hft_trading_system.QueueFill.{report_fill, confirm_fill_order, confirm_orders, confirm_fill}
use hft_trading_system.QueueFill.State.{PaperOrderState, Fill, LevelKey, QueueFillDetector}
use hft_trading_system.QueueFill.Level.{PriceLevelQueue}

-- How much of an order has been reported as filled.
unfoldable pub reported : ℕ → List Fill → ℕ
reported id [] = 0
reported id (f ∷ fs) = (if f.order_id == id then f.quantity else 0) + reported id fs

reported-append :
    (id : ℕ) (fs gs : List Fill) → reported id (fs ++ gs) ≡ reported id fs + reported id gs
unfolding reported
reported-append id [] gs = omega arith
reported-append id (f ∷ fs) gs = omega (arith, reported-append id fs gs)

-- An order has been filled whole or not at all, and as much of it is reported as is filled.
abbrev pub Accounts : ℕ → Option PaperOrderState → Type 0
Accounts n none = n ≡ 0
Accounts n (some o) =
    (o.quantity < 4294967296) × (n ≡ o.filled) × ((o.filled ≡ 0) ⊎ (o.filled ≡ o.quantity))

abbrev pub IsConserved : QueueFillDetector → Type 0
IsConserved d = (id : ℕ) → Accounts (reported id d.fills) (get id d.orders)

open_unfilled :
    (o : PaperOrderState) (n : ℕ)
    → Accounts n (some o)
    → (sub32 o.quantity o.filled == 0) ≡ false
    → (n ≡ 0) × (sub32 o.quantity o.filled ≡ o.quantity)
open_unfilled o n (small, told, inl none_filled) some_left =
    (omega (arith, told, none_filled), omega (arith, small, none_filled))
open_unfilled o n (small, told, inr all_filled) some_left =
    absurd (ground (arith, all_filled, some_left, small))

report_fill-IsConserved :
    (d : QueueFillDetector) (id : ℕ) (o : PaperOrderState) (price time : ℕ)
    → get id d.orders ≡ some o
    → (sub32 o.quantity o.filled == 0) ≡ false
    → IsConserved d
    → IsConserved (report_fill d id o price time)
unfolding report_fill reported
report_fill-IsConserved d id o price time found some_left ok j = elim (Bool-cases (j == id)) [
  | inl same ↦
      let here : j ≡ id = ==→eq j id same in
      let account : Accounts (reported id d.fills) (some o) =
        subst (λ (x : Option PaperOrderState). Accounts (reported id d.fills) x) found (ok id) in
      let (none_told, all_left) = open_unfilled o (reported id d.fills) account some_left in
      rw
        (
          here,
          get-alter id id fill_all d.orders,
          ==_refl id,
          found,
          reported-append id d.fills (told ∷ []),
          ==_refl id,
        )
        (account.0, omega (arith, none_told, all_left), inr refl)
  | inr other ↦
      let apart : (id == j) ≡ false = ground (arith, other) in
      rw (get-alter j id fill_all d.orders, other, reported-append j d.fills (told ∷ []), apart)
        (subst (λ (n : ℕ). Accounts n (get j d.orders)) (omega arith) (ok j))
]
  where
    fill_all : PaperOrderState → PaperOrderState
    fill_all x = record x { filled = x.quantity; is_active = false }

    told : Fill
    told = record {
      order_id = id;
      quantity = sub32 o.quantity o.filled;
      price = price;
      time_ns = time;
      wait_ns = (time + 18446744073709551616 - o.submit_time_ns) % 18446744073709551616;
    }

pub one_of :
    (b : Bool) (x y : QueueFillDetector)
    → IsConserved x
    → IsConserved y
    → IsConserved (if b then x else y)
one_of true x y hx hy = hx
one_of false x y hx hy = hy

confirm_fill_order-IsConserved :
    (d : QueueFillDetector) (id price time : ℕ)
    → IsConserved d
    → IsConserved (confirm_fill_order d id price time)
unfolding confirm_fill_order report_fill
confirm_fill_order-IsConserved d id price time ok = elim (Option-cases (get id d.orders)) [
  | inl missing ↦ rw (missing, confirm_fill_order) ok
  | inr (o, found) ↦ elim (Bool-cases o.is_active) [
    | inr closed ↦ rw (found, confirm_fill_order, closed) ok
    | inl open_still ↦ elim (Bool-cases (sub32 o.quantity o.filled == 0)) [
      | inl nothing ↦ rw (found, confirm_fill_order, open_still, nothing) ok
      | inr some_left ↦
          rw (found, confirm_fill_order, open_still, some_left)
            (report_fill-IsConserved d id o price time found some_left ok)
    ]
  ]
]

pub confirm_orders-IsConserved :
    (d : QueueFillDetector) (ids : List ℕ) (price time : ℕ)
    → IsConserved d
    → IsConserved (confirm_orders d ids price time)
unfolding confirm_orders
confirm_orders-IsConserved d [] price time ok = ok
confirm_orders-IsConserved d (id ∷ ids) price time ok =
    confirm_orders-IsConserved (confirm_fill_order d id price time) ids price time
      (confirm_fill_order-IsConserved d id price time ok)

pub confirm_fill-IsConserved :
    (d : QueueFillDetector) (key : LevelKey) (l : PriceLevelQueue) (time : ℕ)
    → IsConserved d
    → IsConserved (confirm_fill d key l time)
unfolding confirm_fill report_fill
confirm_fill-IsConserved d key l time ok = elim (Bool-cases l.has_our_order) [
  | inr none_here ↦ rw (none_here, confirm_fill) ok
  | inl ours ↦ elim (Option-cases (get l.our_order_id d.orders)) [
    | inl missing ↦ rw (ours, confirm_fill, missing) ok
    | inr (o, found) ↦ elim (Bool-cases (sub32 o.quantity o.filled == 0)) [
      | inl nothing ↦ rw (ours, confirm_fill, found, nothing) ok
      | inr some_left ↦
          rw (ours, confirm_fill, found, some_left)
            (report_fill-IsConserved d l.our_order_id o l.price time found some_left ok)
    ]
  ]
]

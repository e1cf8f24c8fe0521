-- ===== src/Pool.antt =====
-- include/order_pool.hpp: a pool of orders with a free list, thresholds, and a halt manager to call.
-- An order is its index in the array of the pool, and the free list, linked through the orders'
-- `next`, is a list of indices; `Order::reset` clears no more than the links. The halt manager, which
-- other parts share, is the one the pool points at, with what its callbacks answer as an argument
-- (`Halt`). The calls of the warning callback are a list.
pub mod Accounts
pub mod Ownership
pub mod Critical
mod Tests
use hft_trading_system.Prelude.{
  ℕ, zero, suc, ◌+◌, ◌-◌, ◌*◌, ◌/◌, ◌%◌, ◌<◌, Bool, true, false, leb, ◌==◌, if◌then◌else◌, Option,
  none, some, List, [], ◌∷◌, ◌++◌,
}
use hft_trading_system.Halt.{
  HaltReason, pool_exhausted, pool_critical, PositionInfo, HaltManager, halt,
}

abbrev pub warning_threshold_percent : ℕ
warning_threshold_percent = 10

abbrev pub critical_threshold_percent : ℕ
critical_threshold_percent = 1

pub record OrderPool : Type 0 where
  pub free_list : List ℕ
  pub pool_size : ℕ
  pub free_count : ℕ
  pub warning_threshold : ℕ
  pub critical_threshold : ℕ
  pub halt_manager : Option HaltManager
  pub has_warning_callback : Bool
  -- remaining and total, of each call
  pub warnings : List (ℕ × ℕ)

-- The chain from the order `i` on, with `n` orders.
pub chain : ℕ → ℕ → List ℕ
chain i zero = []
chain i (suc n) = i ∷ chain (i + 1) n

-- For a size of 0 the code writes outside of its array.
unfoldable pub new : (pool_size : ℕ) → 0 < pool_size → OrderPool
unfolding chain
new pool_size _ = record {
  free_list = chain 0 pool_size;
  pool_size = pool_size;
  free_count = pool_size;
  warning_threshold = pool_size * warning_threshold_percent / 100;
  critical_threshold = pool_size * critical_threshold_percent / 100;
  halt_manager = none;
  has_warning_callback = false;
  warnings = [];
}

unfoldable pub set_halt_manager : OrderPool → HaltManager → OrderPool
set_halt_manager p m = record p { halt_manager = some m }

unfoldable pub set_warning_callback : OrderPool → OrderPool
set_warning_callback p = record p { has_warning_callback = true }

unfoldable pub free_count : OrderPool → ℕ
free_count p = p.free_count

unfoldable pub used_count : OrderPool → ℕ
used_count p = p.pool_size - p.free_count

unfoldable pub is_critical : OrderPool → Bool
is_critical p = leb p.free_count p.critical_threshold

unfoldable pub is_warning : OrderPool → Bool
is_warning p = leb p.free_count p.warning_threshold

module _ (accepts : ℕ → Bool) (positions : List PositionInfo) where
  -- `if (halt_manager_) halt_manager_->halt(reason, …);`
  unfoldable pub raise : OrderPool → HaltReason → OrderPool
  raise p reason = elim p.halt_manager [
    | none ↦ p
    | some m ↦ record p { halt_manager = some (halt accepts positions m reason).0 }
  ]

  unfoldable pub check_thresholds : OrderPool → ℕ → OrderPool
  unfolding raise
  check_thresholds p remaining =
      if remaining == p.critical_threshold
      then raise p pool_critical
      else if remaining == p.warning_threshold
      then (if p.has_warning_callback
          then record p { warnings = p.warnings ++ (remaining, p.pool_size) ∷ [] }
          else p)
      else p

  -- `allocate` on what `free_list_` holds. `none` is the null pointer.
  unfoldable pub allocate_from : OrderPool → List ℕ → OrderPool × Option ℕ
  unfolding check_thresholds
  allocate_from p [] = (raise p pool_exhausted, none)
  allocate_from p (order ∷ rest) =
      let remaining = (p.free_count + 18446744073709551615) % 18446744073709551616 in
      let taken = record p { free_list = rest; free_count = remaining } in
      (check_thresholds taken remaining, some order)

  unfoldable pub allocate : OrderPool → OrderPool × Option ℕ
  allocate p = allocate_from p p.free_list

unfoldable pub deallocate : OrderPool → Option ℕ → OrderPool
deallocate p none = p
deallocate p (some order) = record p {
  free_list = order ∷ p.free_list;
  free_count = (p.free_count + 1) % 18446744073709551616;
}

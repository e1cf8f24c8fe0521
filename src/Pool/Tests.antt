-- ===== src/Pool/Tests.antt =====
-- The theorems on include/order_pool.hpp at a pool of two orders.
use hft_trading_system.Prelude.{ℕ, ◌≡◌, refl, inr, Bool, true, some, [], ◌∷◌, arith}
use hft_trading_system.Halt.{HaltManager, halt_manager, is_halted}
use hft_trading_system.Pool.{OrderPool, new, set_halt_manager, allocate_from, allocate}
use hft_trading_system.Pool.Ownership.{Outcome, exclusive_ownership}
use hft_trading_system.Pool.Accounts.{Accounts}
use hft_trading_system.Pool.Ownership
use hft_trading_system.Pool.Critical.{Monitored, started, taken, low_pool_halts}

abbrev always : ℕ → Bool
always _ = true

-- The pool, and the pool with one and with both orders taken.
abbrev pool : OrderPool
pool = set_halt_manager (new 2 (omega arith)) halt_manager

abbrev one_taken : OrderPool
one_taken = (allocate always [] pool).0

abbrev both_taken : OrderPool
both_taken = (allocate always [] one_taken).0

first : (allocate always [] pool).1 ≡ some 0
unfolding new set_halt_manager allocate allocate_from
first = refl

second : (allocate always [] one_taken).1 ≡ some 1
unfolding new set_halt_manager allocate allocate_from
second = refl

both : Monitored always [] both_taken (1 ∷ 0 ∷ [])
both = taken (taken (started 2 halt_manager (omega arith) (omega arith)) 0 first) 1 second

exclusive_ownership_example : Accounts pool [] × Outcome pool [] (allocate always [] pool)
exclusive_ownership_example =
    exclusive_ownership always []
      (Ownership.managed (Ownership.created 2 (omega arith) (omega arith)) halt_manager)

none_left : both_taken.free_list ≡ []
unfolding new set_halt_manager allocate allocate_from
none_left = refl

low_pool_halts_example :
    (m : HaltManager) × (both_taken.halt_manager ≡ some m) × (is_halted m ≡ true)
low_pool_halts_example = low_pool_halts always [] both (inr none_left)

-- ===== src/RingBuffer.antt =====
-- include/ipc/shared_ring_buffer.hpp: a ring in shared memory for one producer and one consumer. The
-- functions below are calls that nothing interrupts; `RingBuffer.Threads` has the two threads, one
-- shared access at a time. The capacity `n` is the template's N: it is a power of two, and
-- `& (N - 1)` is `% n`. The constructor's mapping of the memory is left out.
pub mod Threads
pub mod Cells
pub mod Valid
pub mod Producing
pub mod Consuming
pub mod Invariant
pub mod Fifo
mod Tests
use hft_trading_system.Prelude.{
  ℕ, ◌+◌, ◌-◌, ◌%◌, Bool, true, false, ltb, leb, ◌==◌, if◌then◌else◌, Option, none, some, List, set,
  get_elem?, replicate,
}

pub record Ring {ℓ} (A : Type ℓ) : Type ℓ where
  pub head : ℕ
  pub tail : ℕ
  -- `data_`
  pub cells : List A

-- `a - b` and `a + 1` on uint64_t.
abbrev pub sub64 : ℕ → ℕ → ℕ
sub64 a b = (a + 18446744073709551616 - b) % 18446744073709551616

abbrev pub next64 : ℕ → ℕ
next64 a = (a + 1) % 18446744073709551616

module _ {ℓ} {A : Type ℓ} (n : ℕ) where
  -- The memory of the producer's constructor: `zero_cell` is the value of cleared bytes.
  unfoldable pub create : A → Ring A
  create zero_cell = record { head = 0; tail = 0; cells = replicate n zero_cell }

  unfoldable pub push : Ring A → A → Ring A × Bool
  push r item =
      if leb n (sub64 r.head r.tail)
      then (r, false)
      else (record r { cells = set r.cells (r.head % n) item; head = next64 r.head }, true)

  -- `none` is the result false.
  unfoldable pub pop : Ring A → Ring A × Option A
  pop r =
      if leb r.head r.tail
      then (r, none)
      else (record r { tail = next64 r.tail }, get_elem? r.cells (r.tail % n))

  unfoldable pub peek : Ring A → Option A
  peek r = if leb r.head r.tail then none else get_elem? r.cells (r.tail % n)

  unfoldable pub size : Ring A → ℕ
  size r = sub64 r.head r.tail

  unfoldable pub empty : Ring A → Bool
  unfolding size
  empty r = size r == 0

  unfoldable pub full : Ring A → Bool
  unfolding size
  full r = leb n (size r)

unfoldable pub total_produced {ℓ} : {A : Type ℓ} → Ring A → ℕ
total_produced r = r.head

unfoldable pub total_consumed {ℓ} : {A : Type ℓ} → Ring A → ℕ
total_consumed r = r.tail

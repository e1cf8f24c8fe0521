-- ===== src/RingBuffer/Valid.antt =====
-- What holds in every state of the two threads of include/ipc/shared_ring_buffer.hpp.
use hft_trading_system.Prelude.{
  ℕ, ◌+◌, ◌%◌, ◌≤◌, ◌<◌, ◌≡◌, ap, some, List, ◌++◌, arith, get_elem?, length, length-append,
}
use hft_trading_system.RingBuffer.{Ring}
use hft_trading_system.RingBuffer.Threads.{
  Producer, idle, loaded_head, loaded_both, written, Consumer, waiting, loaded_tail, loaded_ends,
  taken, System,
}
use hft_trading_system.RingBuffer.Cells.{}

module _ {A : Type 0} (n : ℕ) where
  -- What the producer has loaded and written, against shared memory.
  abbrev pub ProducerOk : Ring A → Producer A → Type 0
  ProducerOk r idle = Unit
  ProducerOk r (loaded_head item head) = head ≡ r.head
  ProducerOk r (loaded_both item head tail) = (head ≡ r.head) × (tail ≤ r.tail) × (head ≤ tail + n)
  ProducerOk r (written item head) =
      (head ≡ r.head) × (head < r.tail + n) × (get_elem? r.cells (head % n) ≡ some item)

  -- What the consumer has loaded and read, against shared memory and the items not yet popped.
  abbrev pub ConsumerOk : List A → Ring A → Consumer A → Type 0
  ConsumerOk queue r waiting = Unit
  ConsumerOk queue r (loaded_tail tail) = tail ≡ r.tail
  ConsumerOk queue r (loaded_ends tail head) = (tail ≡ r.tail) × (head ≤ r.head)
  ConsumerOk queue r (taken tail item) = (tail ≡ r.tail) × (get_elem? queue 0 ≡ some item)

  pub record IsValid (s : System A) : Type 0 where
    pub queue : List A
    pub ordered : s.pushed ≡ s.popped ++ queue
    pub tail_counts : s.ring.tail ≡ length s.popped
    pub head_counts : s.ring.head ≡ s.ring.tail + length queue
    pub room : length queue ≤ n
    pub sized : length s.ring.cells ≡ n
    pub stored :
        (j : ℕ) (x : A)
        → get_elem? queue j ≡ some x
        → get_elem? s.ring.cells ((s.ring.tail + j) % n) ≡ some x
    pub producer_ok : ProducerOk s.ring s.producer
    pub consumer_ok : ConsumerOk queue s.ring s.consumer

  -- The counters count the items pushed and popped, so they do not wrap around.
  pub head_is : {s : System A} → IsValid s → s.ring.head ≡ length s.pushed
  head_is {s} v =
      omega
        (arith, v.head_counts, v.tail_counts, ap length v.ordered, length-append s.popped v.queue)

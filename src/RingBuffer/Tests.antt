-- ===== src/RingBuffer/Tests.antt =====
-- The theorems on include/ipc/shared_ring_buffer.hpp at a ring of two cells, and its end at 2^64.
use hft_trading_system.Prelude.{ℕ, ◌≤◌, ◌≡◌, refl, true, none, List, [], ◌∷◌, ◌++◌, arith, length}
use hft_trading_system.RingBuffer.{Ring, create, push, pop, size}
use hft_trading_system.RingBuffer.Threads.{
  idle, taken, System, Reach, start, here, next, load_own_tail, load_other_head, read,
}
use hft_trading_system.RingBuffer.Fifo.{IsNext, fifo, push-Reach, Pushes, Pops, calls_lem}

-- A 7 is pushed.
abbrev holding : System ℕ
holding = record (start 2 0) {
  producer = idle;
  ring = (push 2 (start 2 0).ring 7).0;
  pushed = 7 ∷ [];
}

holding-Reach : Reach 2 0 holding
unfolding create
holding-Reach = push-Reach 2 7 here refl (omega arith)

-- The consumer has read it, and not advanced.
abbrev reading : System ℕ
reading = record holding { consumer = taken 0 7 }

reading-Reach : Reach 2 0 reading
unfolding create push
reading-Reach =
    next (next (next holding-Reach (load_own_tail refl)) (load_other_head 0 refl))
      (read 0 1 7 refl (omega arith) refl)

fifo_example :
    (queue : List ℕ) × (reading.pushed ≡ reading.popped ++ queue)
    × (length queue ≤ 2)
    × IsNext queue reading.consumer
fifo_example = fifo 2 reading-Reach (omega arith)

calls_lem_example :
    (queue : List ℕ) × (holding.pushed ≡ holding.popped ++ queue)
    × (size 2 holding.ring ≡ length queue)
    × Pushes 2 0 holding 8 queue
    × Pops 2 0 holding queue
calls_lem_example = calls_lem 2 8 holding-Reach refl refl (omega arith)

-- Once the counter of pushed items has wrapped around, items in the ring are not found.
wrapped_around :
    let r : Ring ℕ = record {
      head = 18446744073709551615;
      tail = 18446744073709551615;
      cells = 0 ∷ 0 ∷ [];
    } in
    let (r', ok) = push 2 r 7 in (ok ≡ true) × (size 2 r' ≡ 1) × ((pop 2 r').1 ≡ none)
unfolding push pop size
wrapped_around = (refl, refl, refl)

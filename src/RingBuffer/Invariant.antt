-- ===== src/RingBuffer/Invariant.antt =====
-- Every step of the two threads of include/ipc/shared_ring_buffer.hpp keeps the invariant.
use hft_trading_system.Prelude.{
  ℕ, ◌≤◌, ◌<◌, refl, [], ◌∷◌, arith, length, length-append, length-replicate,
}
use hft_trading_system.RingBuffer.{create}
use hft_trading_system.RingBuffer.Threads.{
  Producer, idle, loaded_head, loaded_both, Consumer, waiting, loaded_tail, loaded_ends, taken,
  System, Step, Reach, start, here, next, load_head, load_tail, find_full, write, publish,
  load_own_tail, load_other_head, find_empty, read, keep, advance,
}
use hft_trading_system.RingBuffer.Cells.{}
use hft_trading_system.RingBuffer.Valid.{ProducerOk, ConsumerOk, IsValid}
use hft_trading_system.RingBuffer.Producing.{write-IsValid, publish-IsValid}
use hft_trading_system.RingBuffer.Consuming.{read-front, advance-IsValid}

module _ {A : Type 0} (n : ℕ) where
  start-IsValid : (zero_cell : A) → IsValid n (start n zero_cell)
  unfolding create
  start-IsValid zero_cell = record {
    queue = [];
    ordered = refl;
    tail_counts = refl;
    head_counts = omega arith;
    room = omega arith;
    sized = length-replicate n zero_cell;
    stored = λ j x h. cc;
    producer_ok = tt;
    consumer_ok = tt;
  }

  -- A change of what a thread has loaded.
  loads :
      {s : System A} (p : Producer A) (c : Consumer A)
      → (v : IsValid n s) → ProducerOk n s.ring p
      → ConsumerOk n v.queue s.ring c
      → IsValid n (record s { producer = p; consumer = c })
  loads p c v hp hc = record {
    queue = v.queue;
    ordered = v.ordered;
    tail_counts = v.tail_counts;
    head_counts = v.head_counts;
    room = v.room;
    sized = v.sized;
    stored = v.stored;
    producer_ok = hp;
    consumer_ok = hc;
  }

  Step-IsValid :
      {s t : System A}
      → Step n s t
      → length t.pushed < 18446744073709551616
      → IsValid n s
      → IsValid n t
  Step-IsValid {s} (load_head item e) small v =
      loads (loaded_head item s.ring.head) s.consumer v refl v.consumer_ok
  Step-IsValid {s} (load_tail item head e) small v =
      let p : ProducerOk n s.ring (loaded_head item head) = rw e at v.producer_ok in
      loads (loaded_both item head s.ring.tail) s.consumer v
        (p, omega arith, omega (arith, p, v.head_counts, v.room)) v.consumer_ok
  Step-IsValid {s} (find_full item head tail e full) small v =
      loads idle s.consumer v tt v.consumer_ok
  Step-IsValid {s} (write item head tail e free) small v =
      write-IsValid n s item head tail e free small v
  Step-IsValid {s} (publish item head e) small v =
      publish-IsValid n s item head e (omega (arith, small, length-append s.pushed (item ∷ []))) v
  Step-IsValid {s} (load_own_tail e) small v =
      loads s.producer (loaded_tail s.ring.tail) v v.producer_ok refl
  Step-IsValid {s} (load_other_head tail e) small v =
      let c : ConsumerOk n v.queue s.ring (loaded_tail tail) = rw e at v.consumer_ok in
      loads s.producer (loaded_ends tail s.ring.head) v v.producer_ok (c, omega arith)
  Step-IsValid {s} (find_empty tail head e empty) small v =
      loads s.producer waiting v v.producer_ok tt
  Step-IsValid {s} (read tail head item e some_left at_tail) small v =
      loads s.producer (taken tail item) v v.producer_ok
        (read-front n s tail head item e some_left at_tail v)
  Step-IsValid {s} (keep tail item e) small v = loads s.producer waiting v v.producer_ok tt
  Step-IsValid {s} (advance tail item e) small v = advance-IsValid n s tail item e small v

  pushed_grows : {s t : System A} → Step n s t → length s.pushed ≤ length t.pushed
  pushed_grows (load_head item e) = omega arith
  pushed_grows (load_tail item head e) = omega arith
  pushed_grows (find_full item head tail e full) = omega arith
  pushed_grows (write item head tail e free) = omega arith
  pushed_grows {s} (publish item head e) = omega (arith, length-append s.pushed (item ∷ []))
  pushed_grows (load_own_tail e) = omega arith
  pushed_grows (load_other_head tail e) = omega arith
  pushed_grows (find_empty tail head e empty) = omega arith
  pushed_grows (read tail head item e some_left at_tail) = omega arith
  pushed_grows (keep tail item e) = omega arith
  pushed_grows (advance tail item e) = omega arith

  pub Reach-IsValid :
      {zero_cell : A} {s : System A}
      → Reach n zero_cell s
      → length s.pushed < 18446744073709551616
      → IsValid n s
  Reach-IsValid {zero_cell} here small = start-IsValid zero_cell
  Reach-IsValid (next r st) small =
      Step-IsValid st small (Reach-IsValid r (omega (arith, pushed_grows st, small)))

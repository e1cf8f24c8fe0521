-- ===== src/RingBuffer/Fifo.antt =====
-- The ring of include/ipc/shared_ring_buffer.hpp as a queue: between the threads, and call by call.
use hft_trading_system.Prelude.{
  ℕ, ◌+◌, ◌%◌, ◌≤◌, ◌<◌, ◌≡◌, refl, subst, true, false, some, none, List, [], ◌∷◌, ◌++◌, arith,
  get_elem?, length, ltb, leb, Bool-cases, inl, inr, if◌then◌else◌, ltb→lt,
}
use hft_trading_system.RingBuffer.{Ring, sub64, push, pop, peek, size}
use hft_trading_system.RingBuffer.Threads.{
  idle, Consumer, waiting, loaded_tail, loaded_ends, taken, System, Reach, next, load_head,
  load_tail, write, publish, load_own_tail, load_other_head, read, advance,
}
use hft_trading_system.RingBuffer.Valid.{head_is, ConsumerOk}
use hft_trading_system.RingBuffer.Invariant.{Reach-IsValid}

-- The items that the consumer is about to return are at the front.
abbrev pub IsNext : {A : Type 0} → List A → Consumer A → Type 0
IsNext queue waiting = Unit
IsNext queue (loaded_tail tail) = Unit
IsNext queue (loaded_ends tail head) = Unit
IsNext queue (taken tail item) = get_elem? queue 0 ≡ some item

module _ {A : Type 0} (n : ℕ) where
  upcoming-IsNext :
      (queue : List A) (r : Ring A) (c : Consumer A) → ConsumerOk n queue r c → IsNext queue c
  upcoming-IsNext queue r waiting h = tt
  upcoming-IsNext queue r (loaded_tail tail) h = tt
  upcoming-IsNext queue r (loaded_ends tail head) h = tt
  upcoming-IsNext queue r (taken tail item) h = h.1

  -- In whatever order the steps of the two threads follow one another, while fewer than 2^64 items
  -- have been pushed: the items popped are those pushed, in the same order and none twice or lost, up
  -- to at most n that are not popped yet; and an item that the consumer has read and will return is
  -- the oldest of these.
  pub fifo :
      {zero_cell : A} {s : System A}
      → Reach n zero_cell s
      → length s.pushed < 18446744073709551616
      → (queue : List A) × (s.pushed ≡ s.popped ++ queue)
        × (length queue ≤ n)
        × IsNext queue s.consumer
  fifo {s = s} r small =
      let v = Reach-IsValid n r small in
      (v.queue, v.ordered, v.room, upcoming-IsNext v.queue s.ring s.consumer v.consumer_ok)

  -- A call of `push` that nothing interrupts, in the steps of the thread.
  pub push-Reach :
      {zero_cell : A} {s : System A} (item : A)
      → Reach n zero_cell s
      → s.producer ≡ idle
      → sub64 s.ring.head s.ring.tail < n
      → Reach n zero_cell (record s {
        producer = idle;
        ring = (push n s.ring item).0;
        pushed = s.pushed ++ item ∷ [];
      })
  unfolding push
  push-Reach {s = s} item r e free =
      let h = s.ring.head in
      let t = s.ring.tail in
      let go : leb n (sub64 h t) ≡ false = ground arith in
      rw go (
        next
          (next (next (next r (load_head item e)) (load_tail item h refl))
            (write item h t refl free))
          (publish item h refl))

  pop-Reach :
      {zero_cell : A} {s : System A} (item : A)
      → Reach n zero_cell s
      → s.consumer ≡ waiting
      → s.ring.tail < s.ring.head
      → get_elem? s.ring.cells (s.ring.tail % n) ≡ some item
      → Reach n zero_cell
          (record s { consumer = waiting; ring = (pop n s.ring).0; popped = s.popped ++ item ∷ [] })
  unfolding pop
  pop-Reach {s = s} item r e left at_tail =
      let h = s.ring.head in
      let t = s.ring.tail in
      let go : leb h t ≡ false = ground arith in
      rw go (
        next
          (next (next (next r (load_own_tail e)) (load_other_head t refl))
            (read t h item refl left at_tail))
          (advance t item refl))

  -- What a call of `push` makes of the queue of the items that are not popped yet.
  abbrev pub Pushes : A → System A → A → List A → Type 0
  Pushes zero_cell s item queue =
      let (ring, ok) = push n s.ring item in
      if ltb (length queue) n
      then ((ok ≡ true)
          × Reach n zero_cell
              (record s { producer = idle; ring = ring; pushed = s.pushed ++ item ∷ [] }))
      else ((ok ≡ false) × (ring ≡ s.ring))

  -- And a call of `pop` or `peek`.
  abbrev pub Pops : A → System A → List A → Type 0
  Pops zero_cell s [] = (pop n s.ring ≡ (s.ring, none)) × (peek n s.ring ≡ none)
  Pops zero_cell s (x ∷ queue) =
      ((pop n s.ring).1 ≡ some x)
      × (peek n s.ring ≡ some x)
      × Reach n zero_cell
          (record s { consumer = waiting; ring = (pop n s.ring).0; popped = s.popped ++ x ∷ [] })

  pops :
      {zero_cell : A} {s : System A} (queue : List A)
      → Reach n zero_cell s
      → s.consumer ≡ waiting
      → s.ring.head ≡ s.ring.tail + length queue
      → ((x : A) → get_elem? queue 0 ≡ some x → get_elem? s.ring.cells (s.ring.tail % n) ≡ some x)
      → Pops zero_cell s queue
  unfolding pop peek
  pops {s = s} [] r e count stored =
      let none_left : leb s.ring.head s.ring.tail ≡ true = ground arith in rw none_left (refl, refl)
  pops {s = s} (x ∷ queue) r e count stored =
      let left : s.ring.tail < s.ring.head = omega (arith, count) in
      let go : leb s.ring.head s.ring.tail ≡ false = ground arith in
      let popped = pop-Reach x r e left (stored x refl) in
      (rw go (stored x refl), rw go (stored x refl), popped)

  pushes :
      {zero_cell : A} {s : System A} (item : A) (queue : List A)
      → Reach n zero_cell s
      → s.producer ≡ idle
      → size n s.ring ≡ length queue
      → Pushes zero_cell s item queue
  unfolding push size
  pushes {s = s} item queue r e count = elim (Bool-cases (ltb (length queue) n)) [
    | inl free ↦
        let below : sub64 s.ring.head s.ring.tail < n = omega (arith, count, ltb→lt _ _ free) in
        let go : leb n (sub64 s.ring.head s.ring.tail) ≡ false = ground arith in
        rw free (rw go refl, push-Reach item r e below)
    | inr full ↦
        let stop : leb n (sub64 s.ring.head s.ring.tail) ≡ true = ground arith in
        rw (full, stop) (refl, refl)
  ]

  -- Calls that nothing interrupts, in any state that the threads reach between calls while fewer than
  -- 2^64 items have been pushed. With the queue of the items pushed and not popped: `size` is its
  -- length; `push` succeeds exactly if it is shorter than n, and then appends the item, and otherwise
  -- changes nothing; `pop` and `peek` give its first item, which `pop` removes, or nothing if it is
  -- empty. The states that they lead to are reached by steps of the threads.
  pub calls_lem :
      {zero_cell : A} {s : System A} (item : A)
      → Reach n zero_cell s
      → s.producer ≡ idle
      → s.consumer ≡ waiting
      → length s.pushed < 18446744073709551616
      → (queue : List A) × (s.pushed ≡ s.popped ++ queue)
        × (size n s.ring ≡ length queue)
        × Pushes zero_cell s item queue
        × Pops zero_cell s queue
  unfolding size
  calls_lem {zero_cell} {s} item r at_push at_pop small =
      let v = Reach-IsValid n r small in
      let sized : size n s.ring ≡ length v.queue =
        omega (arith, small, head_is n v, v.head_counts) in
      let here_is : s.ring.tail + 0 ≡ s.ring.tail = omega arith in
      (
        v.queue,
        v.ordered,
        sized,
        pushes item v.queue r at_push sized,
        pops v.queue r at_pop v.head_counts (λ x h.
            subst (λ (k : ℕ). get_elem? s.ring.cells (k % n) ≡ some x) here_is (v.stored 0 x h)),
      )

-- ===== src/RingBuffer/Consuming.antt =====
-- The loads and stores of the consumer of include/ipc/shared_ring_buffer.hpp keep the invariant.
use mathlib.Core.List.{append_assoc}
use hft_trading_system.Prelude.{
  ℕ, suc, ◌+◌, ◌%◌, ◌≤◌, ◌<◌, ◌≡◌, refl, sym, ap, subst, ◌∙◌, some, List, [], ◌∷◌, ◌++◌, arith,
  get_elem?, length, length-append,
}
use hft_trading_system.RingBuffer.{Ring, next64}
use hft_trading_system.RingBuffer.Threads.{
  Producer, idle, loaded_head, loaded_both, written, waiting, loaded_ends, taken, System,
}
use hft_trading_system.RingBuffer.Cells.{}
use hft_trading_system.RingBuffer.Valid.{ProducerOk, ConsumerOk, IsValid, head_is}

module _ {A : Type 0} (n : ℕ) where
  producer_kept :
      (r r' : Ring A) (p : Producer A)
      → r'.head ≡ r.head
      → r.tail ≤ r'.tail
      → r'.cells ≡ r.cells
      → ProducerOk n r p
      → ProducerOk n r' p
  producer_kept r r' idle same grows cells h = tt
  producer_kept r r' (loaded_head item head) same grows cells h = h ∙ sym same
  producer_kept r r' (loaded_both item head tail) same grows cells h =
      (h.0 ∙ sym same, omega (arith, h.1, grows), h.2)
  producer_kept r r' (written item head) same grows cells h =
      (h.0 ∙ sym same, omega (arith, h.1, grows), rw cells h.2)

  front : (q : List A) → 0 < length q → (x : A) × (get_elem? q 0 ≡ some x)
  front [] h = absurd (omega (arith, h))
  front (x ∷ q) h = (x, refl)

  uncons : (q : List A) (x : A) → get_elem? q 0 ≡ some x → (rest : List A) × (q ≡ x ∷ rest)
  uncons [] x h = cc
  uncons (y ∷ q) x h = (q, cc)

  pub read-front :
      (s : System A) (tail head : ℕ) (item : A)
      → s.consumer ≡ loaded_ends tail head
      → tail < head
      → get_elem? s.ring.cells (tail % n) ≡ some item
      → (v : IsValid n s) → ConsumerOk n v.queue s.ring (taken tail item)
  read-front s tail head item e left at_tail v =
      let c : ConsumerOk n v.queue s.ring (loaded_ends tail head) = rw e at v.consumer_ok in
      let (first, at_front) = front v.queue (omega (arith, c.0, c.1, left, v.head_counts)) in
      let is_tail : s.ring.tail + 0 ≡ tail = omega (arith, c.0) in
      let found : get_elem? s.ring.cells (tail % n) ≡ some first =
        subst (λ (k : ℕ). get_elem? s.ring.cells (k % n) ≡ some first) is_tail
          (v.stored 0 first at_front) in
      (c.0, cc)

  pub advance-IsValid :
      (s : System A) (tail : ℕ) (item : A)
      → s.consumer ≡ taken tail item
      → length s.pushed < 18446744073709551616
      → IsValid n s
      → IsValid n (record s {
        consumer = waiting;
        ring = record (s.ring) { tail = next64 tail };
        popped = s.popped ++ item ∷ [];
      })
  advance-IsValid s tail item e small v =
      let c : ConsumerOk n v.queue s.ring (taken tail item) = rw e at v.consumer_ok in
      let (rest, split) = uncons v.queue item c.1 in
      let shorter : length v.queue ≡ suc (length rest) = ap length split in
      let grown : next64 tail ≡ tail + 1 =
        omega (arith, small, head_is n v, c.0, v.head_counts, shorter) in
      record {
        queue = rest;
        ordered =
            v.ordered
            ∙ ap (λ (l : List A). s.popped ++ l) split
            ∙ sym (append_assoc s.popped (item ∷ []) rest);
        tail_counts = omega (arith, grown, c.0, v.tail_counts, length-append s.popped (item ∷ []));
        head_counts = omega (arith, grown, c.0, v.head_counts, shorter);
        room = omega (arith, shorter, v.room);
        sized = v.sized;
        stored = λ j x h.
            let in_queue : get_elem? v.queue (suc j) ≡ some x =
              ap (λ (l : List A). get_elem? l (suc j)) split ∙ h in
            let place : s.ring.tail + suc j ≡ next64 tail + j = omega (arith, grown, c.0) in
            subst (λ (k : ℕ). get_elem? s.ring.cells (k % n) ≡ some x) place
              (v.stored (suc j) x in_queue);
        producer_ok =
            producer_kept s.ring (record (s.ring) { tail = next64 tail }) s.producer refl
              (omega (arith, grown, c.0)) refl v.producer_ok;
        consumer_ok = tt;
      }

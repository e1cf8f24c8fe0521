-- ===== src/RingBuffer/Producing.antt =====
-- The stores of the producer of include/ipc/shared_ring_buffer.hpp keep the invariant.
use native.Mathlib.Nat.{mod-lt}
use mathlib.Core.List.{append_assoc}
use hft_trading_system.Prelude.{
  ℕ, ◌+◌, ◌%◌, ◌≤◌, ◌<◌, ◌≡◌, ◌≢◌, refl, sym, ap, ◌∙◌, some, List, [], ◌∷◌, ◌++◌, arith, set,
  get_elem?, length, length-append, inl, inr,
}
use hft_trading_system.RingBuffer.{Ring, sub64, next64}
use hft_trading_system.RingBuffer.Threads.{
  idle, loaded_both, written, Consumer, waiting, loaded_tail, loaded_ends, taken, System,
}
use hft_trading_system.RingBuffer.Cells.{
  places_differ, get_elem?-append, get_elem?-lt, get_elem?-snoc, length-set, get_elem?-set_self,
  get_elem?-set_ne,
}
use hft_trading_system.RingBuffer.Valid.{ProducerOk, ConsumerOk, IsValid, head_is}

module _ {A : Type 0} (n : ℕ) where
  consumer_kept :
      (q q' : List A) (r r' : Ring A) (c : Consumer A)
      → r'.tail ≡ r.tail
      → r.head ≤ r'.head
      → ((x : A) → get_elem? q 0 ≡ some x → get_elem? q' 0 ≡ some x)
      → ConsumerOk n q r c
      → ConsumerOk n q' r' c
  consumer_kept q q' r r' waiting same grows front h = tt
  consumer_kept q q' r r' (loaded_tail tail) same grows front h = h ∙ sym same
  consumer_kept q q' r r' (loaded_ends tail head) same grows front h =
      (h.0 ∙ sym same, omega (arith, h.1, grows))
  consumer_kept q q' r r' (taken tail item) same grows front h = (h.0 ∙ sym same, front item h.1)

  pub write-IsValid :
      (s : System A) (item : A) (head tail : ℕ)
      → s.producer ≡ loaded_both item head tail
      → sub64 head tail < n
      → length s.pushed < 18446744073709551616
      → IsValid n s
      → IsValid n (record s {
        producer = written item head;
        ring = record (s.ring) { cells = set s.ring.cells (head % n) item };
      })
  write-IsValid s item head tail e free small v =
      let p : ProducerOk n s.ring (loaded_both item head tail) = rw e at v.producer_ok in
      let (at_head, behind, ahead) = p in
      let below : head < s.ring.tail + n =
        omega (arith, free, small, head_is n v, at_head, behind, ahead, v.head_counts) in
      let place : head % n < length s.ring.cells =
        omega
          (arith, v.sized, mod-lt head {m = n} (omega (arith, below, at_head, v.head_counts))) in
      record {
        queue = v.queue;
        ordered = v.ordered;
        tail_counts = v.tail_counts;
        head_counts = v.head_counts;
        room = v.room;
        sized = length-set s.ring.cells (head % n) item ∙ v.sized;
        stored = λ j x h.
            let apart : (s.ring.tail + j) % n ≢ (s.ring.tail + length v.queue) % n =
              places_differ n s.ring.tail j (length v.queue) (get_elem?-lt v.queue j x h)
                (omega (arith, below, at_head, v.head_counts)) in
            let is_head : head ≡ s.ring.tail + length v.queue = at_head ∙ v.head_counts in
            let other : head % n ≢ (s.ring.tail + j) % n =
              λ meet. apart (sym meet ∙ ap (λ (k : ℕ). k % n) is_head) in
            get_elem?-set_ne s.ring.cells (head % n) ((s.ring.tail + j) % n) item other
            ∙ v.stored j x h;
        producer_ok = (at_head, below, get_elem?-set_self s.ring.cells (head % n) item place);
        consumer_ok =
            consumer_kept v.queue v.queue s.ring
              (record (s.ring) { cells = set s.ring.cells (head % n) item }) s.consumer refl
              (omega arith) (λ x h. h) v.consumer_ok;
      }

  pub publish-IsValid :
      (s : System A) (item : A) (head : ℕ)
      → s.producer ≡ written item head
      → length s.pushed + 1 < 18446744073709551616
      → IsValid n s
      → IsValid n (record s {
        producer = idle;
        ring = record (s.ring) { head = next64 head };
        pushed = s.pushed ++ item ∷ [];
      })
  publish-IsValid s item head e small v =
      let p : ProducerOk n s.ring (written item head) = rw e at v.producer_ok in
      let (at_head, below, at_cell) = p in
      let grown : next64 head ≡ head + 1 = omega (arith, small, head_is n v, at_head) in
      let queue = v.queue ++ item ∷ [] in
      let longer = length-append v.queue (item ∷ []) in
      record {
        queue = queue;
        ordered =
            ap (λ (l : List A). l ++ item ∷ []) v.ordered
            ∙ append_assoc s.popped v.queue (item ∷ []);
        tail_counts = v.tail_counts;
        head_counts = omega (arith, grown, at_head, v.head_counts, longer);
        room = omega (arith, longer, below, at_head, v.head_counts);
        sized = v.sized;
        stored = λ j x h. elim (get_elem?-snoc v.queue item x j h) [
          | inl old ↦ v.stored j x old
          | inr (last, is_item) ↦
              let is_head : s.ring.tail + j ≡ head = omega (arith, last, at_head, v.head_counts) in
              rw (is_head, ← is_item) at_cell
        ];
        producer_ok = tt;
        consumer_ok =
            consumer_kept v.queue queue s.ring (record (s.ring) { head = next64 head }) s.consumer
              refl (omega (arith, grown, at_head))
              (λ x h. get_elem?-append v.queue (item ∷ []) 0 x h) v.consumer_ok;
      }

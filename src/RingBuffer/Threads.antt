-- ===== src/RingBuffer/Threads.antt =====
-- The producer in `push` and the consumer in `pop` or `peek` of include/ipc/shared_ring_buffer.hpp,
-- interleaved: each step is one access to shared memory, or a test of what was loaded. The acquire and
-- release orders of the code make the accesses of either thread visible to the other in this order.
use hft_trading_system.Prelude.{ℕ, ◌%◌, ◌≤◌, ◌<◌, ◌≡◌, some, List, [], ◌∷◌, ◌++◌, set, get_elem?}
use hft_trading_system.RingBuffer.{Ring, sub64, next64, create}

-- Where the producer stands in `push`, with what it has loaded.
pub data Producer {ℓ} (A : Type ℓ) : Type ℓ where
  idle : Producer A
  loaded_head : (item : A) (head : ℕ) → Producer A
  loaded_both : (item : A) (head tail : ℕ) → Producer A
  written : (item : A) (head : ℕ) → Producer A

-- Where the consumer stands in `pop` or `peek`.
pub data Consumer {ℓ} (A : Type ℓ) : Type ℓ where
  waiting : Consumer A
  loaded_tail : (tail : ℕ) → Consumer A
  loaded_ends : (tail head : ℕ) → Consumer A
  taken : (tail : ℕ) (item : A) → Consumer A

-- `pushed` and `popped` are the items for which `push` and `pop` returned true, oldest first.
pub record System {ℓ} (A : Type ℓ) : Type ℓ where
  pub ring : Ring A
  pub producer : Producer A
  pub consumer : Consumer A
  pub pushed : List A
  pub popped : List A

module _ {ℓ} {A : Type ℓ} (n : ℕ) where
  pub data Step (s : System A) : System A → Type ℓ where
    load_head :
        (item : A)
        → s.producer ≡ idle
        → Step s (record s { producer = loaded_head item s.ring.head })
    load_tail :
        (item : A) (head : ℕ)
        → s.producer ≡ loaded_head item head
        → Step s (record s { producer = loaded_both item head s.ring.tail })
    find_full :
        (item : A) (head tail : ℕ)
        → s.producer ≡ loaded_both item head tail
        → n ≤ sub64 head tail
        → Step s (record s { producer = idle })
    write :
        (item : A) (head tail : ℕ)
        → s.producer ≡ loaded_both item head tail
        → sub64 head tail < n
        → Step s (record s {
          producer = written item head;
          ring = record (s.ring) { cells = set s.ring.cells (head % n) item };
        })
    publish :
        (item : A) (head : ℕ)
        → s.producer ≡ written item head
        → Step s (record s {
          producer = idle;
          ring = record (s.ring) { head = next64 head };
          pushed = s.pushed ++ item ∷ [];
        })
    load_own_tail : s.consumer ≡ waiting → Step s (record s { consumer = loaded_tail s.ring.tail })
    load_other_head :
        (tail : ℕ)
        → s.consumer ≡ loaded_tail tail
        → Step s (record s { consumer = loaded_ends tail s.ring.head })
    find_empty :
        (tail head : ℕ)
        → s.consumer ≡ loaded_ends tail head
        → head ≤ tail
        → Step s (record s { consumer = waiting })
    read :
        (tail head : ℕ) (item : A)
        → s.consumer ≡ loaded_ends tail head
        → tail < head
        → get_elem? s.ring.cells (tail % n) ≡ some item
        → Step s (record s { consumer = taken tail item })
    -- the end of `peek`
    keep :
        (tail : ℕ) (item : A)
        → s.consumer ≡ taken tail item
        → Step s (record s { consumer = waiting })
    advance :
        (tail : ℕ) (item : A)
        → s.consumer ≡ taken tail item
        → Step s (record s {
          consumer = waiting;
          ring = record (s.ring) { tail = next64 tail };
          popped = s.popped ++ item ∷ [];
        })

  abbrev pub start : A → System A
  start zero_cell = record {
    ring = create n zero_cell;
    producer = idle;
    consumer = waiting;
    pushed = [];
    popped = [];
  }

  pub data Reach (zero_cell : A) : System A → Type ℓ where
    here : Reach zero_cell (start zero_cell)
    next : {s t : System A} → Reach zero_cell s → Step s t → Reach zero_cell t

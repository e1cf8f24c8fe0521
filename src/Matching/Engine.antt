-- ===== src/Matching/Engine.antt =====
-- `add_order` of include/matching_engine.hpp as a whole: the match, and what is done with the rest.
use hft_trading_system.Prelude.{
  ℕ, ◌≤◌, ◌<◌, ◌≡◌, refl, true, false, ◌&&◌, not, none, some, List, ◌++◌, if◌then◌else◌, ◌==◌,
  arith, Bool-cases, Option-cases, inl, inr, ◌∙◌, subst, ==→eq,
}
use hft_trading_system.Types.{Side, buy, sell, Order, is_valid_order_id}
use hft_trading_system.Book.Sides.{order_at}
use hft_trading_system.OrderBook.{OrderBook, book_side, place, forget, allocate_level}
use hft_trading_system.OrderBook.Invariant.{IsValid, IsValid-free, Edits, same_side}
use hft_trading_system.OrderBook.Edits.{place-Edits}
use hft_trading_system.OrderBook.Preserve.{with_slot, valid_lt, insert-IsValid, entry_after}
use hft_trading_system.OrderBook.Add.{Fits, restored, sides, unindexed, slot_side}
use hft_trading_system.Matching.{MatchingEngine, opposite, settle, add_to_book}
use hft_trading_system.Matching.Priority.{Matched, match_queue, match_queue-total}
use hft_trading_system.Matching.Front.{Pending, queue_against}
use hft_trading_system.Matching.Rounds.{reports}
use hft_trading_system.Matching.Refine.{Refines}
use hft_trading_system.Matching.Edits.{place-other}

-- Something is left of the order, and a level to put it in.
module _ (order : Order) (r : ℕ) (e : MatchingEngine) (b : OrderBook) (v : IsValid b)
    (valid : is_valid_order_id order.id ≡ true) (pos : 0 < r)
    (fits : Fits b order.side order.price r) (pending : Pending order e b)
    (some_level : 0 < b.free_levels) where
  abbrev resting : Order
  resting = record order { quantity = r }

  placed : (b' : OrderBook) × (place (with_slot b order) resting ≡ some b')
  unfolding place allocate_level
  placed = elim (Option-cases (place (with_slot b order) resting)) [
    | inl e ↦ absurd (ground arith)
    | inr (b', e) ↦ (b', e)
  ]

  rested-Edits :
      Edits order.side order.price order.id
        (some resting)
        (with_slot b order)
        (settle (e, r) order).book
  unfolding settle add_to_book
  rested-Edits =
      let same = slot_side b order order.side in
      let left : (r == 0) ≡ false = ground arith in
      let (b', at) = placed in
      rw (left, pending.slot, add_to_book, at)
        (place-Edits (with_slot b order) (sides v) resting pos
          (rw same (unindexed v order.side order.price order.id pending.unindexed))
          (rw same fits.volume_fits) (rw same fits.band) b' at)

  rested-other :
      book_side (settle (e, r) order).book (opposite order.side) ≡ book_side b (opposite order.side)
  unfolding settle add_to_book
  rested-other =
      let left : (r == 0) ≡ false = ground arith in
      let (b', at) = placed in
      rw (left, pending.slot, add_to_book, at)
        (place-other (with_slot b order) b' resting at ∙ slot_side b order (opposite order.side))

  rested-IsValid : IsValid (settle (e, r) order).book
  rested-IsValid = insert-IsValid b _ v resting pending.unindexed valid rested-Edits

  rested-entry :
      (sd : Side) (p j : ℕ)
      → order_at (book_side (settle (e, r) order).book sd) p j ≡ (
          if same_side sd order.side && (p == order.price && j == order.id)
          then some resting
          else order_at (book_side b sd) p j)
  rested-entry =
      entry_after b (with_slot b order) _ order.side order.price order.id (some resting) refl refl
        rested-Edits

-- Nothing is left of the order, and its slot is given back.
settled :
    (order : Order) (e : MatchingEngine) (b : OrderBook)
    → is_valid_order_id order.id ≡ true
    → Pending order e b
    → (settle (e, 0) order).book ≡ b
unfolding settle forget
settled order e b valid pending =
    rw pending.slot
      (restored b order pending.unindexed (valid_lt order.id valid) (IsValid-free pending.valid))

settle-kept :
    (e : MatchingEngine) (r : ℕ) (order : Order)
    → ((settle (e, r) order).trades ≡ e.trades)
      × ((settle (e, r) order).current_timestamp ≡ e.current_timestamp)
      × ((settle (e, r) order).has_callback ≡ e.has_callback)
unfolding settle
settle-kept e r order = elim (Bool-cases (r == 0)) [
  | inl done ↦ rw done (refl, refl, refl)
  | inr more ↦ rw more (refl, refl, refl)
]

-- What an accepted order does, in terms of the match of the queue of the opposite side.
pub record Outcome (order : Order) (e : MatchingEngine) (m : Matched) (after : MatchingEngine)
    : Type 0 where
  pub valid : IsValid after.book
  -- The opposite side is consumed from the front.
  pub queue : queue_against order after.book ≡ m.rest
  -- The callback is given the fills in order.
  pub trades : after.trades ≡ e.trades ++ reports e order m.fills
  -- What remains rests at the order's price; nothing else changes on its own side.
  pub own_side :
      (p j : ℕ)
      → order_at (book_side after.book order.side) p j ≡ (
          if not (m.remaining == 0) && (p == order.price && j == order.id)
          then some (record order { quantity = m.remaining })
          else order_at (book_side e.book order.side) p j)
  -- No order appears on the opposite side.
  pub absent :
      (p j : ℕ)
      → order_at (book_side e.book (opposite order.side)) p j ≡ none
      → order_at (book_side after.book (opposite order.side)) p j ≡ none
  pub time : after.current_timestamp ≡ e.current_timestamp
  pub callback : after.has_callback ≡ e.has_callback

same : (sd : Side) → same_side sd sd ≡ true
same buy = refl
same sell = refl

pub record Accepts (b : OrderBook) (order : Order) : Type 0 where
  pub fits : Fits b order.side order.price order.quantity
  pub some_level : 0 < b.free_levels

remaining_le :
    (order : Order) (r : ℕ) (queue : List Order) → (match_queue order r queue).remaining ≤ r
remaining_le order r queue = ground (arith, match_queue-total order r queue)

module _ (order : Order) (e : MatchingEngine) (b : OrderBook)
    (valid : is_valid_order_id order.id ≡ true) (accepts : Accepts b order) where
  abbrev m : Matched
  m = match_queue order order.quantity (queue_against order b)

  module _ (e' : MatchingEngine) (f : Refines order order.quantity e b (e', m.remaining)) where
    rest-Fits : Fits f.after order.side order.price m.remaining
    rest-Fits =
        let less = remaining_le order order.quantity (queue_against order b) in
        record {
          band = rw f.other accepts.fits.band;
          volume_fits = rw f.other (omega (arith, less, accepts.fits.volume_fits));
        }

    -- Nothing remains.
    done_Outcome :
        m.remaining ≡ 0 → Outcome order (record e { book = b }) m (settle (e', m.remaining) order)
    done_Outcome none_left =
        let back : (settle (e', m.remaining) order).book ≡ f.after =
          rw none_left (settled order e' f.after valid f.pending) in
        let (trades, time, callback) = settle-kept e' m.remaining order in
        let zero : (m.remaining == 0) ≡ true = rw none_left refl in
        record {
          valid = rw back f.pending.valid;
          queue = rw back f.rest;
          trades = trades ∙ f.trades;
          own_side = λ p j. rw (back, zero, f.other) refl;
          absent = λ p j h. rw back (f.absent (opposite order.side) p j h);
          time = time ∙ f.time;
          callback = callback ∙ f.callback;
        }

    -- What remains goes to the book.
    rest_Outcome :
        0 < m.remaining → Outcome order (record e { book = b }) m (settle (e', m.remaining) order)
    rest_Outcome more =
        let (trades, time, callback) = settle-kept e' m.remaining order in
        let left : (m.remaining == 0) ≡ false = ground arith in
        let levels : 0 < f.after.free_levels = omega (arith, accepts.some_level, f.levels) in
        let other =
          rested-other order m.remaining e' f.after f.pending.valid valid more rest-Fits f.pending
            levels in
        let entry =
          rested-entry order m.remaining e' f.after f.pending.valid valid more rest-Fits f.pending
            levels in
        record {
          valid =
              rested-IsValid order m.remaining e' f.after f.pending.valid valid more rest-Fits
                f.pending levels;
          queue = rw other f.rest;
          trades = trades ∙ f.trades;
          own_side = λ p j. rw (left, ← f.other) (rw (same order.side) at (entry order.side p j));
          absent = λ p j h. rw other (f.absent (opposite order.side) p j h);
          time = time ∙ f.time;
          callback = callback ∙ f.callback;
        }

  pub settle-Outcome :
      (result : MatchingEngine × ℕ)
      → Refines order order.quantity e b result
      → Outcome order (record e { book = b }) m (settle result order)
  settle-Outcome (e', rest) f =
      let here : Refines order order.quantity e b (e', m.remaining) =
        subst (λ n. Refines order order.quantity e b (e', n)) f.remaining f in
      rw f.remaining (elim (Bool-cases (m.remaining == 0)) [
        | inl none_left ↦ done_Outcome e' here (==→eq _ 0 none_left)
        | inr more ↦ rest_Outcome e' here (ground arith)
      ])

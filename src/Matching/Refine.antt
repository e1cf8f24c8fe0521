-- ===== src/Matching/Refine.antt =====
-- The loop of include/matching_engine.hpp implements the matching of `Priority`.
use mathlib.Core.List.{append-nil}
use hft_trading_system.Prelude.{
  ℕ, zero, suc, ◌+◌, ◌≤◌, ◌<◌, ◌≡◌, refl, true, false, none, List, [], ◌∷◌, ◌++◌, ◌==◌, arith, sym,
  ◌∙◌, Bool-cases, inl, inr, min, length, sub32, ==→eq,
}
use hft_trading_system.Types.{Side, buy, sell, Order, PriceLevel}
use hft_trading_system.Book.Sides.{order_at}
use hft_trading_system.OrderBook.Invariant.{IsValid-side}
use hft_trading_system.OrderBook.{OrderBook, book_side, execute_at}
use hft_trading_system.Matching.{
  MatchingEngine, opposite, queue_of, is_matchable, would_self_trade, stop, next, match_round,
  match_loop, try_match,
}
use hft_trading_system.Matching.Priority.{match_queue}
use hft_trading_system.Matching.Pending.{execute_at-levels}
use hft_trading_system.Matching.Head.{Front, Front-queue, queue-execute_at, execute_at-other}
use hft_trading_system.Matching.Step.{
  same_side_against, filled, filled-Effect, filled-Pending, filled-trades, filled-kept, round_done,
  round_empty, round_unmatched, round_own, round_fill,
}
use hft_trading_system.Matching.Front.{Pending, against, queue_against, nothing, front, view}
use hft_trading_system.Matching.Rounds.{
  reports, queue_after, rounds, match_queue-stop, match_queue-own, match_queue-fill, reports-nil,
  reports-cons,
}

-- A match of the book by the engine does to the queue what `match_queue` does.
pub record Refines (order : Order) (r : ℕ) (e : MatchingEngine) (b : OrderBook)
    (result : MatchingEngine × ℕ) : Type 0 where
  pub after : OrderBook
  pub pending : Pending order result.0 after
  pub rest : queue_against order after ≡ (match_queue order r (queue_against order b)).rest
  pub remaining : result.1 ≡ (match_queue order r (queue_against order b)).remaining
  pub trades :
      result.0.trades
      ≡ e.trades ++ reports e order (match_queue order r (queue_against order b)).fills
  pub absent :
      (sd : Side) (p j : ℕ)
      → order_at (book_side b sd) p j ≡ none
      → order_at (book_side after sd) p j ≡ none
  pub levels : b.free_levels ≤ after.free_levels
  pub other : book_side after order.side ≡ book_side b order.side
  pub time : result.0.current_timestamp ≡ e.current_timestamp
  pub callback : result.0.has_callback ≡ e.has_callback

opposite-opposite : (side : Side) → opposite (opposite side) ≡ side
opposite-opposite buy = refl
opposite-opposite sell = refl

module _ (order : Order) where
  -- The loop leaves at once.
  stopped :
      (r rest : ℕ) (e : MatchingEngine) (b : OrderBook)
      → Pending order e b
      → match_queue order r (queue_against order b)
        ≡ record { rest = queue_against order b; remaining = rest; fills = [] }
      → Refines order r e b (e, rest)
  stopped r rest e b p h = record {
    after = b;
    pending = p;
    rest = rw h;
    remaining = rw h;
    trades = rw (h, reports-nil e order) (sym (append-nil e.trades));
    absent = λ sd p j h. h;
    levels = omega arith;
    other = refl;
    time = refl;
    callback = refl;
  }

  -- One fill, and then the rest of the loop.
  module _ (r : ℕ) (e : MatchingEngine) (b : OrderBook) (pending : Pending order e b)
      (l : PriceLevel) (ls : List PriceLevel) (p : Order) (ps : List Order)
      (f : Front (against order b) l ls p ps) (more : (r == 0) ≡ false)
      (ok : is_matchable order.side p.price order.price ≡ true)
      (other : would_self_trade order p ≡ false) (small : r < 4294967296) where
    quantity : ℕ
    quantity = min r p.quantity

    b' : OrderBook
    b' = execute_at b (opposite order.side) l p quantity

    e' : MatchingEngine
    e' = filled order e b pending l ls p ps f quantity

    queue_next : queue_against order b' ≡ queue_after p (ps ++ queue_of ls) quantity
    unfolding b'
    queue_next =
        queue-execute_at b (opposite order.side) (IsValid-side (opposite order.side) pending.valid)
          l ls p ps f quantity

    -- The match of the whole queue is the fill and the match of what it leaves.
    whole_match :
        let deeper = match_queue order (sub32 r quantity) (queue_against order b') in
        match_queue order r (queue_against order b)
        ≡ record deeper { fills = (p, quantity) ∷ deeper.fills }
    unfolding quantity
    whole_match =
        rw (Front-queue f, queue_next)
          (match_queue-fill order r p (ps ++ queue_of ls) more ok other small)

    other_side : book_side b' order.side ≡ book_side b order.side
    unfolding b'
    other_side =
        rw (opposite-opposite order.side) at (execute_at-other b (opposite order.side) l p quantity)

    kept : (e'.has_callback ≡ e.has_callback) × (e'.current_timestamp ≡ e.current_timestamp)
    unfolding e'
    kept = filled-kept order e b pending l ls p ps f quantity

    continued :
        (result : MatchingEngine × ℕ)
        → Refines order (sub32 r quantity) e' b' result
        → Refines order r e b result
    unfolding e' b'
    continued result ih = record {
      after = ih.after;
      pending = ih.pending;
      rest = rw whole_match ih.rest;
      remaining = rw whole_match ih.remaining;
      trades =
          ih.trades
          ∙ rw whole_match (
              reports-cons e e' order p quantity _
                (filled-trades order e b pending l ls p ps f quantity) kept.0 kept.1);
      absent = λ sd q j h.
          ih.absent sd q j ((filled-Effect order e b pending l ls p ps f quantity).absent sd q j h);
      levels = omega (arith, ih.levels, execute_at-levels b (opposite order.side) l p quantity);
      other = ih.other ∙ other_side;
      time = ih.time ∙ kept.1;
      callback = ih.callback ∙ kept.0;
    }

  loop-stop :
      (fuel r rest : ℕ) (e : MatchingEngine)
      → match_round e order r ≡ stop rest
      → match_loop (suc fuel) e order r ≡ (e, rest)
  unfolding match_loop
  loop-stop fuel r rest e h = rw (h, match_loop)

  loop-next :
      (fuel r rest : ℕ) (e e2 : MatchingEngine)
      → match_round e order r ≡ next e2 rest
      → match_loop (suc fuel) e order r ≡ match_loop fuel e2 order rest
  unfolding match_loop
  loop-next fuel r rest e e2 h = rw (h, match_loop)

  at-Front :
      (fuel r : ℕ) (e : MatchingEngine) (b : OrderBook) (pending : Pending order e b)
      (l : PriceLevel) (ls : List PriceLevel) (p : Order) (ps : List Order)
      (f : Front (against order b) l ls p ps)
      → r < 4294967296
      → (is_matchable order.side p.price order.price ≡ true
          → would_self_trade order p ≡ false
          → (r == 0) ≡ false
          → let quantity = min r p.quantity in
            Refines order
              (sub32 r quantity)
              (filled order e b pending l ls p ps f quantity)
              (execute_at b (opposite order.side) l p quantity)
              (match_loop fuel
                (filled order e b pending l ls p ps f quantity)
                order
                (sub32 r quantity)))
      → Refines order r e b (match_loop (suc fuel) e order r)
  unfolding quantity b' e'
  at-Front fuel r e b pending l ls p ps f small deeper = elim (Bool-cases (r == 0)) [
    | inl done ↦
        let zero_left : r ≡ 0 = ==→eq r 0 done in
        let round : match_round e order r ≡ stop r = rw zero_left (round_done order e b pending) in
        rw (loop-stop fuel r r e round)
          (stopped r r e b pending (rw (Front-queue f) (match_queue-stop order r p _ (rw done))))
    | inr more ↦ elim (Bool-cases (is_matchable order.side p.price order.price)) [
      | inr unmatched ↦
          rw (loop-stop fuel r r e (round_unmatched order e b pending l ls p ps f r more unmatched))
            (stopped r r e b pending
              (rw (Front-queue f) (match_queue-stop order r p _ (rw (more, unmatched)))))
      | inl ok ↦ elim (Bool-cases (would_self_trade order p)) [
        | inl own ↦
            rw (loop-stop fuel r 0 e (round_own order e b pending l ls p ps f r more ok own)) (
              stopped r 0 e b pending
                (rw (Front-queue f) (match_queue-own order r p _ more ok own)))
        | inr other ↦
            rw (loop-next fuel r _ e _ (round_fill order e b pending l ls p ps f r more ok other))
              (continued r e b pending l ls p ps f more ok other small _ (deeper ok other more))
      ]
    ]
  ]

  -- One fill shortens the rounds that are left.
  fewer :
      (r : ℕ) (p : Order) (ps : List Order) (fuel : ℕ)
      → r < 4294967296
      → rounds r (p ∷ ps) < suc fuel
      → (r == 0) ≡ false
      → rounds (sub32 r (min r p.quantity)) (queue_after p ps (min r p.quantity)) < fuel
  fewer r p ps fuel small h more = ground arith

  pub match_loop-Refines :
      (fuel r : ℕ) (e : MatchingEngine) (b : OrderBook)
      → Pending order e b
      → r < 4294967296
      → rounds r (queue_against order b) < fuel
      → Refines order r e b (match_loop fuel e order r)
  unfolding match_queue b' quantity
  match_loop-Refines zero r e b pending small h = absurd (omega (arith, h))
  match_loop-Refines (suc fuel) r e b pending small h =
      elim (view (opposite order.side) (against order b)
        (IsValid-side (opposite order.side) pending.valid)) [
          | nothing empty ↦
              rw (loop-stop fuel r r e (round_empty order e b pending r empty))
                (stopped r r e b pending (rw empty refl))
          | front l ls p ps f ↦ at-Front fuel r e b pending l ls p ps f small (λ ok other more.
              match_loop-Refines fuel (sub32 r (min r p.quantity)) _ _
                (filled-Pending order e b pending l ls p ps f (min r p.quantity) (ground arith))
                (ground arith)
                (rw (queue_next r e b pending l ls p ps f more ok other small)
                  (fewer r p (ps ++ queue_of ls) fuel small (rw (Front-queue f) at (h)) more)))
        ]

  -- The fuel that `try_match` gives is enough.
  pub try_match-Refines :
      (e : MatchingEngine) (b : OrderBook)
      → Pending order e b
      → order.quantity < 4294967296
      → Refines order order.quantity e b (try_match e order)
  unfolding try_match
  try_match-Refines e b pending small = rw (same_side_against order e b pending) (
      match_loop-Refines (length (queue_against order b) + 1) order.quantity e b pending small
        (ground arith))

-- ===== src/Matching/Rounds.antt =====
-- The matching of `Priority` round by round, and the reports of its fills to the trade callback of
-- include/matching_engine.hpp.
use mathlib.Core.List.{append-nil, append_assoc}
use hft_trading_system.Prelude.{
  ℕ, ◌-◌, ◌<◌, ◌≡◌, true, false, List, [], ◌∷◌, ◌++◌, ◌==◌, leb, ltb, not, ◌||◌, arith, Bool-cases,
  inl, inr, if◌then◌else◌, min, length, sub32, map,
}
use hft_trading_system.Types.{Order, Trade, reduce_quantity}
use hft_trading_system.Matching.{MatchingEngine, is_matchable, would_self_trade, trade_of}
use hft_trading_system.Matching.Priority.{match_queue}
use hft_trading_system.Matching.Pending.{}
use hft_trading_system.Matching.Head.{}
use hft_trading_system.Matching.Step.{}

-- What the callback is given for a list of fills.
abbrev pub reports : MatchingEngine → Order → List (Order × ℕ) → List Trade
reports e order fills =
    if e.has_callback
    then map (λ (f : Order × ℕ). trade_of e.current_timestamp order f.0 f.1) fills
    else []

-- Nothing is done where the first order cannot be matched.
pub match_queue-stop :
    (order : Order) (r : ℕ) (p : Order) (ps : List Order)
    → (r == 0 || not (is_matchable order.side p.price order.price)) ≡ true
    → match_queue order r (p ∷ ps) ≡ record { rest = p ∷ ps; remaining = r; fills = [] }
unfolding match_queue
match_queue-stop order r p ps h = rw h

pub match_queue-own :
    (order : Order) (r : ℕ) (p : Order) (ps : List Order)
    → (r == 0) ≡ false
    → is_matchable order.side p.price order.price ≡ true
    → would_self_trade order p ≡ true
    → match_queue order r (p ∷ ps) ≡ record { rest = p ∷ ps; remaining = 0; fills = [] }
unfolding match_queue
match_queue-own order r p ps more ok own = rw (more, ok, own)

-- What the fill of the first order leaves of the queue.
abbrev pub queue_after : Order → List Order → ℕ → List Order
queue_after p ps quantity = if leb p.quantity quantity then ps else reduce_quantity p quantity ∷ ps

-- One fill, and then the rest of the match.
pub match_queue-fill :
    (order : Order) (r : ℕ) (p : Order) (ps : List Order)
    → (r == 0) ≡ false
    → is_matchable order.side p.price order.price ≡ true
    → would_self_trade order p ≡ false
    → r < 4294967296
    → let quantity = min r p.quantity in
      let deeper = match_queue order (sub32 r quantity) (queue_after p ps quantity) in
      match_queue order r (p ∷ ps) ≡ record deeper { fills = (p, quantity) ∷ deeper.fills }
unfolding match_queue
match_queue-fill order r p ps more ok other small = elim (Bool-cases (ltb r p.quantity)) [
  | inl part ↦
      let all : min r p.quantity ≡ r = ground arith in
      let left : leb p.quantity r ≡ false = ground arith in
      let none_left : sub32 r r ≡ 0 = ground arith in
      rw (all, left, none_left, more, ok, other, part)
  | inr whole ↦
      let all : min r p.quantity ≡ p.quantity = ground arith in
      let gone : leb p.quantity p.quantity ≡ true = ground arith in
      let less : sub32 r p.quantity ≡ r - p.quantity = ground arith in
      rw (all, gone, less, more, ok, other, whole)
]

-- The rounds that a match takes before the one that leaves the loop.
abbrev pub rounds : ℕ → List Order → ℕ
rounds r queue = if r == 0 then 0 else length queue

pub reports-nil : (e : MatchingEngine) (order : Order) → reports e order [] ≡ []
reports-nil e order = ground arith

pub reports-cons :
    (e e' : MatchingEngine) (order p : Order) (quantity : ℕ) (fills : List (Order × ℕ))
    → e'.trades
      ≡ e.trades
        ++ (if e.has_callback then trade_of e.current_timestamp order p quantity ∷ [] else [])
    → e'.has_callback ≡ e.has_callback
    → e'.current_timestamp ≡ e.current_timestamp
    → e'.trades ++ reports e' order fills ≡ e.trades ++ reports e order ((p, quantity) ∷ fills)
reports-cons e e' order p quantity fills t c n = elim (Bool-cases e.has_callback) [
  | inl on ↦ rw (t, c, n, on) (append_assoc e.trades _ _)
  | inr off ↦ rw (t, c, n, off) (append-nil _)
]

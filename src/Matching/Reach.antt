-- ===== src/Matching/Reach.antt =====
-- Refused orders, and the states that the operations of include/matching_engine.hpp reach.
use hft_trading_system.Prelude.{
  ℕ, ◌<◌, ◌≡◌, ◌≢◌, refl, ◌||◌, ◌==◌, arith, Bool-cases, Option-cases, inl, inr, ◌⊎◌,
}
use hft_trading_system.Types.{
  Side, buy, sell, OrderResult, success, invalid_id, invalid_order_price, invalid_quantity,
  duplicate_order_id, invalid_price, is_valid_order_id,
}
use hft_trading_system.Book.{new_side, level_at}
use hft_trading_system.Book.Sides.{order_at}
use hft_trading_system.OrderBook
use hft_trading_system.OrderBook.{is_indexed, allocate_order}
use hft_trading_system.OrderBook.Invariant.{IsValid}
use hft_trading_system.OrderBook.Add.{Passes}
use hft_trading_system.OrderBook.Reach.{new-IsValid}
use hft_trading_system.Matching.{MatchingEngine, new, set_trade_callback, add_order, cancel}
use hft_trading_system.Matching.Engine.{Accepts}
use hft_trading_system.Matching.Edits.{incoming}
use hft_trading_system.Matching.Correct.{add_order_matches}
use hft_trading_system.Matching.Uncrossed.{IsUncrossed, add_order-IsUncrossed, cancel-IsUncrossed}

-- Every order is refused with the engine as it was, or passes all the checks.
pub add_order_decides :
    (e : MatchingEngine) (id : ℕ) (side : Side) (price quantity trader : ℕ)
    → ((r : OrderResult) × (r ≢ success) × (add_order e id side price quantity trader ≡ (e, r)))
      ⊎ Passes e.book id price quantity
unfolding add_order
add_order_decides e id side price quantity trader = elim (Bool-cases (is_valid_order_id id)) [
  | inr bad_id ↦ inl (invalid_id, λ p. cc, rw bad_id refl)
  | inl valid ↦ elim (Bool-cases (price == invalid_price || price == 0)) [
    | inl bad_price ↦ inl (invalid_order_price, λ p. cc, rw (valid, bad_price) refl)
    | inr priced ↦ elim (Bool-cases (quantity == 0)) [
      | inl no_quantity ↦ inl (invalid_quantity, λ p. cc, rw (valid, priced, no_quantity) refl)
      | inr some_quantity ↦ elim (Option-cases (e.book.order_index id)) [
        | inr (r, held) ↦
            inl (
              duplicate_order_id,
              λ p. cc,
              rw (valid, priced, some_quantity, is_indexed, held) refl,
            )
        | inl free ↦ inr (record {
          id_valid = valid;
          price_valid = priced;
          some_quantity = ground arith;
          id_free = free;
        })
      ]
    ]
  ]
]

-- The engines that calls of the operations lead to, in any order and with any arguments; only the
-- orders given to `add_order` have to fit, and a level has to be left for them.
pub data EngineReaches : MatchingEngine → Type 0 where
  created : (base range : ℕ) → EngineReaches (new base range)
  callback_set : {e : MatchingEngine} → EngineReaches e → EngineReaches (set_trade_callback e)
  added :
      {e : MatchingEngine}
      → EngineReaches e
      → (id : ℕ) (side : Side) (price quantity trader : ℕ) → price < 4294967296
      → Accepts e.book (incoming e id side price quantity trader)
      → EngineReaches (add_order e id side price quantity trader).0
  cancelled : {e : MatchingEngine} → EngineReaches e → (id : ℕ) → EngineReaches (cancel e id).0

new-IsUncrossed : (base range : ℕ) → IsUncrossed (new base range).book
unfolding new OrderBook.new new_side order_at level_at
new-IsUncrossed base range = record {
  apart = λ p q i j x y. cc;
  real = elim [ buy ↦ λ p i h. cc | sell ↦ λ p i h. cc ];
}

-- In every reachable engine the book is valid, and no bid rests at or above an ask.
pub engine_invariant : {e : MatchingEngine} → EngineReaches e → IsValid e.book × IsUncrossed e.book
unfolding new set_trade_callback
engine_invariant (created base range) = (new-IsValid base range, new-IsUncrossed base range)
engine_invariant (callback_set before) = engine_invariant before
engine_invariant (added {e} before id side price quantity trader small accepts) =
    let (v, u) = engine_invariant before in
    elim (add_order_decides e id side price quantity trader) [
      | inl (r, _, same) ↦ rw same (v, u)
      | inr passes ↦ (
        (add_order_matches e id side price quantity trader v passes accepts).1.valid,
        add_order-IsUncrossed e id side price quantity trader v passes accepts small u,
      )
    ]
engine_invariant (cancelled {e} before id) =
    let (v, u) = engine_invariant before in cancel-IsUncrossed e id v u

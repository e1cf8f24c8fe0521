-- ===== src/OrderBook/Remove.antt =====
-- `cancel_order` and `execute_order` of include/orderbook.hpp.
use hft_trading_system.Prelude.{
  ℕ, ◌<◌, ◌≡◌, refl, Bool, true, false, Option, none, some, if◌then◌else◌, ◌==◌, arith, Bool-cases,
  Option-cases, inl, inr, sym, ◌∙◌, subst, leb,
}
use hft_trading_system.Types.{Side, buy, sell, Order, PriceLevel, reduce_quantity}
use hft_trading_system.Book.Level
use hft_trading_system.Book.{update_level}
use hft_trading_system.Book.Sides.{order_at}
use hft_trading_system.OrderBook.Invariant.{IsValid, Edits}
use hft_trading_system.OrderBook.Edits.{unlink-Edits, reduce-Edits}
use hft_trading_system.OrderBook.Preserve.{
  remove-IsValid, refill-IsValid, entry_after, ref, same_side-eq, same_side_refl,
}
use hft_trading_system.OrderBook.{
  OrderRef, OrderBook, book_side, with_side, unlink, forget, cancel_order, execute_at,
  execute_order, is_indexed,
}
use hft_trading_system.OrderBook.Locate.{Located, locate-Located}

-- The effect of a call that changes or removes what rests under one id.
pub record Effect (b : OrderBook) (id : ℕ) (after : Order → Option Order) (r : OrderBook × Bool)
    : Type 0 where
  -- The call succeeds exactly if the id is indexed.
  pub result : r.1 ≡ is_indexed b id
  pub valid : IsValid r.0
  pub orders :
      (sd : Side) (p j : ℕ) (o : Order)
      → order_at (book_side b sd) p j ≡ some o
      → order_at (book_side r.0 sd) p j ≡ (if j == id then after o else some o)
  pub absent :
      (sd : Side) (p j : ℕ)
      → order_at (book_side b sd) p j ≡ none
      → order_at (book_side r.0 sd) p j ≡ none

-- An id that is not indexed.
missing-Effect :
    (b : OrderBook) (id : ℕ) (after : Order → Option Order)
    → IsValid b
    → b.order_index id ≡ none
    → Effect b id after (b, false)
missing-Effect b id after v h = record {
  result = rw (h, is_indexed);
  valid = v;
  orders = λ sd p j o e. ground (arith, v.resting sd p j);
  absent = λ sd p j e. e;
}

pub forgotten : (b : OrderBook) (id : ℕ) (sd : Side) → book_side (forget b id) sd ≡ book_side b sd
unfolding forget
forgotten b id buy = ground arith
forgotten b id sell = ground arith

removed-Effect :
    (b b' : OrderBook) (id : ℕ) (sd : Side) (price : ℕ) (after : Order → Option Order)
    → IsValid b
    → b.order_index id ≡ some (ref sd price)
    → ((o : Order) → order_at (book_side b sd) price id ≡ some o → after o ≡ none)
    → Edits sd price id none b b'
    → Effect b id after (forget b' id, true)
removed-Effect b b' id sd price after v held none_after e = record {
  result = rw (held, is_indexed);
  valid = remove-IsValid b b' v sd price id held e;
  orders = λ q p j o h. rw (forgotten b' id q) (
      ground (
        arith,
        entry_after b b b' sd price id none refl refl e q p j,
        v.resting q p j,
        none_after o,
        same_side_refl sd,
        same_side-eq q sd,
      ));
  absent = λ q p j h.
      rw (forgotten b' id q)
        (ground (arith, entry_after b b b' sd price id none refl refl e q p j));
}

refilled-Effect :
    (b b' : OrderBook) (id : ℕ) (sd : Side) (price : ℕ) (o' : Order) (after : Order → Option Order)
    → IsValid b
    → b.order_index id ≡ some (ref sd price)
    → ((o : Order) → order_at (book_side b sd) price id ≡ some o → after o ≡ some o')
    → Edits sd price id (some o') b b'
    → Effect b id after (b', true)
refilled-Effect b b' id sd price o' after v held after_is e = record {
  result = rw (held, is_indexed);
  valid = refill-IsValid b b' v sd price id held {o = o'} e;
  orders = λ q p j o h. ground (
    arith,
    entry_after b b b' sd price id (some o') refl refl e q p j,
    v.resting q p j,
    after_is o,
    same_side_refl sd,
    same_side-eq q sd,
  );
  absent = λ q p j h. ground (
    arith,
    entry_after b b b' sd price id (some o') refl refl e q p j,
    v.indexed id {r = ref sd price} held,
    same_side-eq q sd,
  );
}

-- The writes to the book at the place of an indexed order.
module _ (b : OrderBook) (id : ℕ) (r : OrderRef) (v : IsValid b) {l : PriceLevel} {o : Order}
    (at : Located b id r l o) where
  moved :
      (entry : Option Order) (b' : OrderBook)
      → Edits r.side o.price o.id entry b b'
      → Edits r.side r.price id entry b b'
  moved entry b' e =
      subst (λ p. Edits r.side p id entry b b') (at.same ∙ at.at_price)
        (subst (λ j. Edits r.side o.price j entry b b') at.own_id e)

  unlinked : Edits r.side r.price id none b (unlink b r.side l o)
  unlinked =
      moved none _ (unlink-Edits b (v.bid_side, v.ask_side) r.side o l at.level at.same at.queued)

  reduced :
      (quantity : ℕ)
      → quantity < o.quantity
      → Edits r.side r.price id (some (reduce_quantity o quantity)) b (
          with_side b r.side
            (update_level (book_side b r.side) l.price (Level.reduce_order o quantity)))
  reduced quantity less =
      moved _ _ (
        reduce-Edits b (v.bid_side, v.ask_side) r.side o l at.level at.same at.queued quantity less)

  -- It is the order that rests there.
  only : {x : Order} → order_at (book_side b r.side) r.price id ≡ some x → x ≡ o
  only {x} h = ground (arith, at.rests)

-- What is left of an order from which a quantity is filled.
abbrev pub filled : ℕ → Order → Option Order
filled quantity o = if leb o.quantity quantity then none else some (reduce_quantity o quantity)

-- `cancel_order` succeeds exactly on an indexed id. Then no order rests under that id, every other
-- order rests unchanged where it did, and the book stays valid.
pub cancel_order-Effect :
    (b : OrderBook) (id : ℕ) → IsValid b → Effect b id (λ _. none) (cancel_order b id)
unfolding cancel_order
cancel_order-Effect b id v = elim (Option-cases (b.order_index id)) [
  | inl e ↦
      let same : cancel_order b id ≡ (b, false) = ground arith in
      subst (Effect b id (λ _. none)) (sym same) (missing-Effect b id _ v e)
  | inr (r, e) ↦
      let (l, o, at) = locate-Located b id r v e in
      rw (v.ids id (rw e), e, at.found)
        (removed-Effect b _ id r.side r.price _ v e (λ _ _. refl) (unlinked b id r v at))
]

-- The writes of `execute_order`, once the order is found.
pub execute_at-Effect :
    (b : OrderBook) (id quantity : ℕ) (r : OrderRef) {l : PriceLevel} {o : Order}
    → IsValid b
    → b.order_index id ≡ some r
    → Located b id r l o
    → Effect b id (filled quantity) (execute_at b r.side l o quantity, true)
unfolding execute_at
execute_at-Effect b id quantity r {l} {o} v e at = elim (Bool-cases (leb o.quantity quantity)) [
  | inl all ↦
      simp (all, at.own_id)
        (removed-Effect b _ id r.side r.price _ v e (λ x h. rw (only b id r v at h, all))
          (unlinked b id r v at))
  | inr part ↦ rw part (
      refilled-Effect b _ id r.side r.price (reduce_quantity o quantity) _ v e
        (λ x h. rw (only b id r v at h, part)) (reduced b id r v at quantity (ground arith)))
]

-- `execute_order` succeeds exactly on an indexed id. It takes the quantity from the order of that
-- id, which goes if nothing is left of it; every other order rests unchanged where it did, and the
-- book stays valid.
pub execute_order-Effect :
    (b : OrderBook) (id quantity : ℕ)
    → IsValid b
    → Effect b id (filled quantity) (execute_order b id quantity)
unfolding execute_order
execute_order-Effect b id quantity v = elim (Option-cases (b.order_index id)) [
  | inl e ↦
      let same : execute_order b id quantity ≡ (b, false) = ground arith in
      subst (Effect b id (filled quantity)) (sym same) (missing-Effect b id _ v e)
  | inr (r, e) ↦
      let (l, o, at) = locate-Located b id r v e in
      rw (v.ids id (rw e), e, at.found) (execute_at-Effect b id quantity r v e at)
]

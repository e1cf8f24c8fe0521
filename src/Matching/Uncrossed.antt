-- ===== src/Matching/Uncrossed.antt =====
-- The book of include/matching_engine.hpp is never crossed: no resting bid at or above a resting
-- ask.
use hft_trading_system.Prelude.{
  ℕ, ◌<◌, ◌≡◌, refl, true, false, ◌&&◌, not, none, List, [], ◌∷◌, ◌++◌, ◌==◌, arith, Bool-cases,
  Option-cases, inl, inr, ◌⊎◌,
}
use hft_trading_system.Types.{Side, buy, sell, Order, PriceLevel, invalid_price}
use hft_trading_system.Book.{BookSide, level_at, bid_compare, ask_compare}
use hft_trading_system.Book.Sides.{SideInv, order_at, compare_of}
use hft_trading_system.OrderBook.{OrderBook, book_side, cancel_order}
use hft_trading_system.OrderBook.Remove.{cancel_order-Effect}
use hft_trading_system.OrderBook.Invariant.{IsValid, IsValid-side, is_some}
use hft_trading_system.OrderBook.Add.{Passes}
use hft_trading_system.OrderBook.Queries.{best_first}
use hft_trading_system.Matching.{
  MatchingEngine, opposite, queue_of, is_matchable, add_order, cancel,
}
use hft_trading_system.Matching.Priority.{Matched, match_queue-Stops, Stops}
use hft_trading_system.Matching.Front.{queue_against, against, nothing, front, view}
use hft_trading_system.Matching.Head.{Front, Front-queue, head-IsOwn, head_at, head_queued}
use hft_trading_system.Matching.Engine.{Accepts, Outcome}
use hft_trading_system.Matching.Edits.{incoming}
use hft_trading_system.Matching.Correct.{ticked, add_order_matches}

abbrev pub Rests : OrderBook → Side → ℕ → ℕ → Type 0
Rests b sd price id = is_some (order_at (book_side b sd) price id) ≡ true

pub record IsUncrossed (b : OrderBook) : Type 0 where
  pub apart : (p q i j : ℕ) → Rests b buy p i → Rests b sell q j → p < q
  pub real : (sd : Side) (p i : ℕ) → Rests b sd p i → p < invalid_price

-- On the far side of the limit of an order.
abbrev Beyond : Side → ℕ → ℕ → Type 0
Beyond buy limit q = limit < q
Beyond sell limit q = q < limit

Beyond-best :
    (sd : Side) (best limit q : ℕ)
    → is_matchable sd best limit ≡ false
    → limit < invalid_price
    → best < invalid_price
    → (q ≡ best) ⊎ (compare_of (opposite sd) best q ≡ true)
    → Beyond sd limit q
unfolding ask_compare bid_compare
Beyond-best buy best limit q h l b place = ground arith
Beyond-best sell best limit q h l b place = ground arith

Front-Rests :
    (sd : Side) (s : BookSide) (v : SideInv sd s) (l : PriceLevel) (ls : List PriceLevel)
    (p : Order) (ps : List Order)
    → Front s l ls p ps
    → is_some (order_at s l.price p.id) ≡ true
unfolding order_at
Front-Rests sd s v l ls p ps f =
    rw (head_at sd s v l ls p ps f, head_queued sd s v l ls p ps f, order_at) refl

no_order : (s : BookSide) (q j : ℕ) → s.levels ≡ [] → order_at s q j ≡ none
unfolding order_at level_at
no_order s q j h = rw h refl

-- Once the match has stopped with something left, every order of the opposite side lies beyond the
-- limit.
stopped-Beyond :
    (order : Order) (r : ℕ) (b : OrderBook)
    → SideInv (opposite order.side) (against order b)
    → Stops order r (queue_against order b)
    → 0 < r
    → order.price < invalid_price
    → ((p i : ℕ) → Rests b (opposite order.side) p i → p < invalid_price)
    → (q j : ℕ) → Rests b (opposite order.side) q j
    → Beyond order.side order.price q
stopped-Beyond order r b v stops more limit real q j h =
    let s = against order b in
    elim (view (opposite order.side) s v) [
      | nothing empty ↦ absurd (ground (arith, no_order s q j empty))
      | front l ls p ps f ↦
          let own = head-IsOwn (opposite order.side) s v l ls p ps f in
          let here : Stops order r (p ∷ (ps ++ queue_of ls)) = rw (Front-queue f) at (stops) in
          elim here [
            | inl zero_left ↦ absurd (omega (arith, more, zero_left))
            | inr unmatched ↦
                Beyond-best order.side l.price order.price q (rw own.1 at (unmatched)) limit
                  (real l.price p.id (Front-Rests _ s v l ls p ps f))
                  (best_first s v l ls f.levels q j h)
          ]
    ]

module _ {order : Order} {e after : MatchingEngine} {m : Matched}
    (out : Outcome order e m after) where
  -- What Rests after the match on the opposite side did so before.
  opposite_before :
      (p j : ℕ)
      → Rests after.book (opposite order.side) p j
      → Rests e.book (opposite order.side) p j
  opposite_before p j h =
      elim (Option-cases (order_at (book_side e.book (opposite order.side)) p j)) [
        | inl none_before ↦ absurd (ground (arith, out.absent p j none_before))
        | inr (o, e) ↦ rw e refl
      ]

  -- What Rests on the order's own side did so before, or is what is left of the order.
  own_before :
      (p j : ℕ)
      → Rests after.book order.side p j
      → Rests e.book order.side p j ⊎ ((p ≡ order.price) × (0 < m.remaining))
  own_before p j h =
      elim (Bool-cases (not (m.remaining == 0) && (p == order.price && j == order.id))) [
        | inl new ↦ inr (ground arith, ground arith)
        | inr old ↦ inl (rw (out.own_side p j, old) at (h))
      ]

-- The same from the point of view of one side.
abbrev ApartFrom : OrderBook → Side → Type 0
ApartFrom b sd = (p q i j : ℕ) → Rests b sd p i → Rests b (opposite sd) q j → Beyond sd p q

to_side : (b : OrderBook) (sd : Side) → IsUncrossed b → ApartFrom b sd
to_side b buy u p q i j x y = u.apart p q i j x y
to_side b sell u p q i j x y = u.apart q p j i y x

from_side :
    (b : OrderBook) (sd : Side)
    → ApartFrom b sd
    → (p q i j : ℕ) → Rests b buy p i
    → Rests b sell q j
    → p < q
from_side b buy h p q i j x y = h p q i j x y
from_side b sell h p q i j x y = h q p j i y x

either_side : (P : Side → Type 0) (sd : Side) → P sd → P (opposite sd) → (sd' : Side) → P sd'
either_side P buy x y = elim [ buy ↦ x | sell ↦ y ]
either_side P sell x y = elim [ buy ↦ y | sell ↦ x ]

Outcome-IsUncrossed :
    {order : Order} {e after : MatchingEngine} {m : Matched}
    → (out : Outcome order e m after) → Stops order m.remaining m.rest
    → order.price < invalid_price
    → IsUncrossed e.book
    → IsUncrossed after.book
Outcome-IsUncrossed {order} {e} {after} {m} out stops limit u =
    let real_opposite : (p i : ℕ) → Rests after.book (opposite order.side) p i → p < invalid_price =
      λ p i h. u.real (opposite order.side) p i (opposite_before out p i h) in
    record {
      apart = from_side after.book order.side λ p q i j x y. elim (own_before out p i x) [
        | inl before ↦ to_side e.book order.side u p q i j before (opposite_before out q j y)
        | inr (same, more) ↦ rw same (
            stopped-Beyond order m.remaining after.book
              (IsValid-side (opposite order.side) out.valid) (rw out.queue stops) more limit
              real_opposite q j y)
      ];
      real =
          either_side (λ sd. (p i : ℕ) → Rests after.book sd p i → p < invalid_price) order.side
            (λ p i h. elim (own_before out p i h) [
              | inl before ↦ u.real order.side p i before
              | inr (same, _) ↦ rw same limit
            ])
            real_opposite;
    }

-- If no bid Rests at or above an ask, then none does after an accepted order: what is left of an
-- order Rests only where the match has ended at a price beyond its limit.
pub add_order-IsUncrossed :
    (e : MatchingEngine) (id : ℕ) (side : Side) (price quantity trader : ℕ)
    → IsValid e.book
    → Passes e.book id price quantity
    → Accepts e.book (incoming e id side price quantity trader)
    → price < 4294967296
    → IsUncrossed e.book
    → IsUncrossed (add_order e id side price quantity trader).0.book
add_order-IsUncrossed e id side price quantity trader v passes accepts small u =
    let order = incoming e id side price quantity trader in
    Outcome-IsUncrossed {e = ticked e}
      (add_order_matches e id side price quantity trader v passes accepts).1
      (match_queue-Stops order quantity (queue_against order e.book))
      (ground (arith, passes.price_valid)) u

-- Cancelling an order crosses nothing.
pub cancel-IsUncrossed :
    (e : MatchingEngine) (id : ℕ)
    → IsValid e.book
    → IsUncrossed e.book
    → IsValid (cancel e id).0.book × IsUncrossed (cancel e id).0.book
unfolding cancel
cancel-IsUncrossed e id v u =
    let effect = cancel_order-Effect e.book id v in
    let before : (sd : Side) (p j : ℕ)
        → Rests (cancel_order e.book id).0 sd p j
        → Rests e.book sd p j =
      λ sd p j h. elim (Option-cases (order_at (book_side e.book sd) p j)) [
        | inl none_before ↦ absurd (ground (arith, effect.absent sd p j none_before))
        | inr (o, e) ↦ rw e refl
      ] in
    (
      effect.valid,
      record {
        apart = λ p q i j x y. u.apart p q i j (before buy p i x) (before sell q j y);
        real = λ sd p i h. u.real sd p i (before sd p i h);
      },
    )

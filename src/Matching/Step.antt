-- ===== src/Matching/Step.antt =====
-- One round of the loop of include/matching_engine.hpp.
use mathlib.Core.List.{append-nil}
use hft_trading_system.Prelude.{
  ℕ, ◌≤◌, ◌≡◌, ◌≢◌, refl, true, false, some, List, [], ◌∷◌, ◌++◌, ◌==◌, arith, ap, sym, ◌∙◌,
  Bool-cases, inl, inr, if◌then◌else◌, min, sub32,
}
use hft_trading_system.Types.{Order, PriceLevel, invalid_price}
use hft_trading_system.Book.Level
use hft_trading_system.Book.{best_price, find_level, level_at}
use hft_trading_system.Book.GoodLevel.{IsOwn}
use hft_trading_system.Book.Sides.{SideInv, order_at}
use hft_trading_system.OrderBook.Invariant.{IsValid-side, IsValid-free}
use hft_trading_system.OrderBook.{OrderBook, book_side, locate, execute_at}
use hft_trading_system.OrderBook.Locate.{Located}
use hft_trading_system.OrderBook.Remove.{Effect, execute_at-Effect, filled as executed}
use hft_trading_system.OrderBook.Preserve.{with_slot, ref, valid_lt}
use hft_trading_system.Matching.{
  MatchingEngine, opposite, is_matchable, would_self_trade, trade_of, execute_trade, fill_book,
  stop, next, match_first, match_round,
}
use hft_trading_system.Matching.Fill.{fill_book-execute_at}
use hft_trading_system.Matching.Pending.{side-with_slot, execute_at-with_slot, execute_at-unindexed}
use hft_trading_system.Matching.Head.{
  Front, head_best, head_found, head-Fillable, head-IsOwn, head_at, head_queued,
}
use hft_trading_system.Matching.Front.{Pending, against, best_empty, invalid_unmatchable}

module _ (order : Order) (e : MatchingEngine) (b : OrderBook) (pending : Pending order e b) where
  pub same_side_against : book_side e.book (opposite order.side) ≡ against order b
  same_side_against = rw pending.slot (side-with_slot b order (opposite order.side))

  module _ (l : PriceLevel) (ls : List PriceLevel) (p : Order) (ps : List Order)
      (f : Front (against order b) l ls p ps) where
    pub against_inv : SideInv (opposite order.side) (against order b)
    against_inv = IsValid-side (opposite order.side) pending.valid

    pub round_front :
        (r : ℕ)
        → (r == 0) ≡ false
        → match_round e order r ≡ (
            if is_matchable order.side p.price order.price
            then match_first e order r l p
            else stop r)
    unfolding match_round
    round_front r more =
        let best : best_price (book_side e.book (opposite order.side)) ≡ p.price =
          rw same_side_against (head_best _ _ against_inv l ls p ps f ∙ sym own.1) in
        let found : find_level (book_side e.book (opposite order.side)) p.price ≡ some l =
          rw (same_side_against, own.1) (head_found _ _ against_inv l ls p ps f) in
        rw (more, best, found, f.orders) (ground arith)
      where
        own : IsOwn (opposite order.side) l.price p
        own = head-IsOwn _ _ against_inv l ls p ps f

    at_front : level_at l.price (against order b).levels ≡ some l
    at_front = head_at _ _ against_inv l ls p ps f

    queued_front : Level.find p.id l.orders ≡ some p
    queued_front = head_queued _ _ against_inv l ls p ps f

    rests_front : order_at (against order b) l.price p.id ≡ some p
    unfolding order_at
    rests_front = ground (arith, at_front, queued_front)

    held_front : b.order_index p.id ≡ some (ref (opposite order.side) l.price)
    held_front = pending.valid.resting (opposite order.side) l.price p.id (rw rests_front refl)

    front-Located : Located b p.id (ref (opposite order.side) l.price) l p
    unfolding locate
    front-Located = record {
      found = ground (arith, head_found _ _ against_inv l ls p ps f, queued_front);
      level = at_front;
      at_price = refl;
      same = (head-IsOwn _ _ against_inv l ls p ps f).1;
      own_id = refl;
      queued = queued_front;
      rests = rests_front;
    }

    other_id : p.id ≢ order.id
    other_id same = ground (arith, held_front, pending.unindexed, ap b.order_index same)

    trade-book : (quantity : ℕ) → (execute_trade e order p quantity).book ≡ e.book
    unfolding execute_trade
    trade-book quantity = ground arith

    pub filled : ℕ → MatchingEngine
    filled quantity = record (execute_trade e order p quantity) {
      book = fill_book (execute_trade e order p quantity).book (opposite order.side) l p quantity;
    }

    filled-slot :
        (quantity : ℕ)
        → quantity ≤ p.quantity
        → (filled quantity).book ≡ with_slot (execute_at b (opposite order.side) l p quantity) order
    unfolding filled
    filled-slot quantity h =
        let opp = opposite order.side in
        let fillable = head-Fillable _ _ against_inv l ls p ps f quantity h in
        let small = valid_lt p.id (pending.valid.ids p.id (rw held_front refl)) in
        rw (trade-book quantity, pending.slot)
          (fill_book-execute_at (with_slot b order) opp l p quantity
              (rw (side-with_slot b order opp) fillable)
            ∙ execute_at-with_slot b order opp l p quantity other_id small
                (IsValid-free pending.valid))

    -- The book is changed as `execute_order` changes it.
    pub filled-Effect :
        (quantity : ℕ)
        → Effect b p.id (executed quantity) (execute_at b (opposite order.side) l p quantity, true)
    filled-Effect quantity =
        execute_at-Effect b p.id quantity (ref (opposite order.side) l.price) pending.valid
          held_front front-Located

    pub filled-Pending :
        (quantity : ℕ)
        → quantity ≤ p.quantity
        → Pending order (filled quantity) (execute_at b (opposite order.side) l p quantity)
    filled-Pending quantity h = record {
      slot = filled-slot quantity h;
      valid = (filled-Effect quantity).valid;
      unindexed =
          execute_at-unindexed b (opposite order.side) l p quantity order.id pending.unindexed;
    }

    -- What a fill reports, and what it leaves alone.
    pub filled-trades :
        (quantity : ℕ)
        → (filled quantity).trades
          ≡ e.trades
            ++ (if e.has_callback then trade_of e.current_timestamp order p quantity ∷ [] else [])
    unfolding filled execute_trade
    filled-trades quantity = elim (Bool-cases e.has_callback) [
      | inl on ↦ rw on
      | inr off ↦ rw off (sym (append-nil e.trades))
    ]

    pub filled-kept :
        (quantity : ℕ)
        → ((filled quantity).has_callback ≡ e.has_callback)
          × ((filled quantity).current_timestamp ≡ e.current_timestamp)
    unfolding filled execute_trade
    filled-kept quantity = elim (Bool-cases e.has_callback) [
      | inl on ↦ rw on (refl, refl)
      | inr off ↦ rw off (refl, refl)
    ]

    -- The rounds that a front can bring.
    pub round_unmatched :
        (r : ℕ)
        → (r == 0) ≡ false
        → is_matchable order.side p.price order.price ≡ false
        → match_round e order r ≡ stop r
    round_unmatched r more no_match = rw (round_front r more, no_match)

    pub round_own :
        (r : ℕ)
        → (r == 0) ≡ false
        → is_matchable order.side p.price order.price ≡ true
        → would_self_trade order p ≡ true
        → match_round e order r ≡ stop 0
    unfolding match_first
    round_own r more ok own = rw (round_front r more, ok, own, match_first)

    pub round_fill :
        (r : ℕ)
        → (r == 0) ≡ false
        → is_matchable order.side p.price order.price ≡ true
        → would_self_trade order p ≡ false
        → match_round e order r ≡ next (filled (min r p.quantity)) (sub32 r (min r p.quantity))
    unfolding match_first filled
    round_fill r more ok other = rw (round_front r more, ok, other, match_first)

  pub round_done : match_round e order 0 ≡ stop 0
  unfolding match_round
  round_done = refl

  pub round_empty : (r : ℕ) → (against order b).levels ≡ [] → match_round e order r ≡ stop r
  unfolding match_round
  round_empty r empty =
      let best : best_price (book_side e.book (opposite order.side)) ≡ invalid_price =
        rw same_side_against (best_empty _ empty) in
      rw (best, invalid_unmatchable order.side order.price) (ground arith)

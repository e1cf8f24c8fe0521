-- ===== src/Matching/Correct.antt =====
-- What an accepted order does in include/matching_engine.hpp, and what its trades are.
use hft_trading_system.Prelude.{
  ℕ, ◌+◌, ◌%◌, ◌<◌, ◌≡◌, refl, false, none, some, List, [], ◌∷◌, ◌++◌, ◌==◌, arith, Bool-cases, inl,
  inr, ◌⊎◌, sym, ==→eq, ==_refl, All, All-append,
}
use hft_trading_system.Types.{Side, Order, PriceLevel, success}
use hft_trading_system.Book.GoodLevel.{IsOwn, IsGoodLevel}
use hft_trading_system.Book.Sides.{order_at}
use hft_trading_system.OrderBook.{OrderBook, book_side, allocate_order}
use hft_trading_system.OrderBook.Invariant.{IsValid, IsValid-side, IsValid-free}
use hft_trading_system.OrderBook.Add.{Passes, unindexed}
use hft_trading_system.OrderBook.Preserve.{with_slot}
use hft_trading_system.Matching.{
  MatchingEngine, opposite, queue_of, add_order, admit, try_match, settle,
}
use hft_trading_system.Matching.Priority.{
  Matched, match_queue, match_queue-total, match_queue-Consumes, match_queue-IsFair,
  match_queue-Stops, total_filled, Consumes, IsFair, Stops, MeetsOwn,
}
use hft_trading_system.Matching.Front.{Pending, queue_against}
use hft_trading_system.Matching.Rounds.{reports}
use hft_trading_system.Matching.Refine.{try_match-Refines}
use hft_trading_system.Matching.Engine.{Accepts, Outcome, settle-Outcome}
use hft_trading_system.Matching.Edits.{incoming, add_order-admit-Passes}

-- The engine once it has taken the time for an order.
abbrev pub ticked : MatchingEngine → MatchingEngine
ticked e = record e { current_timestamp = (e.current_timestamp + 1) % 18446744073709551616 }

module _ (e : MatchingEngine) (id : ℕ) (side : Side) (price quantity trader : ℕ)
    (v : IsValid e.book) (passes : Passes e.book id price quantity)
    (accepts : Accepts e.book (incoming e id side price quantity trader)) where
  abbrev order : Order
  order = incoming e id side price quantity trader

  small : quantity < 4294967296
  small = omega (arith, accepts.fits.volume_fits)

  admitted : admit e id side price quantity trader ≡ (
    settle (try_match (record (ticked e) { book = with_slot e.book order }) order) order,
    success,
  )
  unfolding admit allocate_order
  admitted =
      let some_left : (e.book.free_orders == 0) ≡ false = ground (arith, IsValid-free v) in
      rw (some_left, admit, allocate_order)

  -- An order that passes the checks is accepted while a level is left in the pool, in the band of
  -- prices of its side and without overflow of its level. The queue of the opposite side, the trades
  -- reported and what then rests on the order's own side are those of the match of `match_queue`
  -- against the queue of the opposite side, and the book is valid again.
  pub add_order_matches :
      let (e', result) = add_order e id side price quantity trader in
      (result ≡ success)
      × Outcome order (ticked e) (match_queue order quantity (queue_against order e.book)) e'
  add_order_matches =
      let start : MatchingEngine = record (ticked e) { book = with_slot e.book order } in
      let pending : Pending order start e.book = record {
        slot = refl;
        valid = v;
        unindexed = passes.id_free;
      } in
      rw (add_order-admit-Passes e id side price quantity trader passes, admitted)
        (
          refl,
          settle-Outcome order start e.book passes.id_valid accepts _
              (try_match-Refines order start e.book pending small),
        )

-- Every resting order has something left to fill.
levels-positive :
    (base range : ℕ) (sd : Side) (ls : List PriceLevel)
    → All (IsGoodLevel base range sd) ls
    → All (λ (o : Order). 0 < o.quantity) (queue_of ls)
levels-positive base range sd [] a = tt
levels-positive base range sd (l ∷ ls) a =
    All-append _ l.orders (queue_of ls) (own-positive l.orders a.0.own)
      (levels-positive base range sd ls a.1)
  where
    own-positive :
        (os : List Order) → All (IsOwn sd l.price) os → All (λ (o : Order). 0 < o.quantity) os
    own-positive [] b = tt
    own-positive (o ∷ os) b = (b.0.2, own-positive os b.1)

pub queue-positive :
    {b : OrderBook}
    → IsValid b
    → (order : Order) → All (λ (o : Order). 0 < o.quantity) (queue_against order b)
queue-positive v order =
    levels-positive _ _ (opposite order.side) _ (IsValid-side (opposite order.side) v).good

-- The laws of the trades of one order, from its book before to its book after.
pub record Trades (order : Order) (b b' : OrderBook) (fills : List (Order × ℕ)) (rest : ℕ)
    : Type 0 where
  -- Price-time priority: the queue is consumed from its front.
  pub in_order : Consumes fills (queue_against order b) (queue_against order b')
  -- No trade at a worse price than the limit, none with the own orders, none of nothing.
  pub fair : All (IsFair order) fills
  -- Quantity is conserved, unless an own order in the way cancels the rest.
  pub conserved :
      (total_filled fills + rest ≡ order.quantity)
      ⊎ ((total_filled fills < order.quantity)
          × (rest ≡ 0)
          × MeetsOwn order (queue_against order b'))
  -- What rests does so because nothing more could be matched.
  pub exhausted : Stops order rest (queue_against order b')

-- What is left of an order that rests at its price.
abbrev pub left_over : OrderBook → Order → ℕ
left_over b order = elim (order_at (book_side b order.side) order.price order.id) [
  | none ↦ 0
  | some o ↦ o.quantity
]

module _ (order : Order) (e after : MatchingEngine) (v : IsValid e.book)
    (free : e.book.order_index order.id ≡ none) where
  abbrev matched : Matched
  matched = match_queue order order.quantity (queue_against order e.book)

  left_over-remaining :
      Outcome order e matched after → left_over after.book order ≡ matched.remaining
  left_over-remaining out =
      let before = unindexed v order.side order.price order.id free in
      elim (Bool-cases (matched.remaining == 0)) [
        | inl done ↦
            let now : order_at (book_side after.book order.side) order.price order.id ≡ none =
              rw (out.own_side order.price order.id, done) before in
            rw (now, left_over) (sym (==→eq _ 0 done))
        | inr more ↦
            let now : order_at (book_side after.book order.side) order.price order.id
                ≡ some (record order { quantity = matched.remaining }) =
              rw (out.own_side order.price order.id, more, ==_refl order.price, ==_refl order.id)
                refl in
            rw (now, left_over) refl
      ]

  Outcome-Trades :
      Outcome order e matched after
      → Trades order e.book after.book matched.fills (left_over after.book order)
  Outcome-Trades out =
      let queue = queue_against order e.book in
      rw (left_over-remaining out) (record {
        in_order = rw out.queue (match_queue-Consumes order order.quantity queue);
        fair = match_queue-IsFair order order.quantity queue (queue-positive v order);
        conserved = rw out.queue (match_queue-total order order.quantity queue);
        exhausted = rw out.queue (match_queue-Stops order order.quantity queue);
      })

module _ (e : MatchingEngine) (id : ℕ) (side : Side) (price quantity trader : ℕ)
    (v : IsValid e.book) (passes : Passes e.book id price quantity)
    (accepts : Accepts e.book (incoming e id side price quantity trader)) where
  abbrev own_order : Order
  own_order = incoming e id side price quantity trader

  -- The trades that an accepted order reports to the callback are those of a list of fills that
  -- takes the queue of the opposite side from its front, best price first and oldest first within a
  -- price; each is at a price within the order's limit, against another trader, and of a positive
  -- quantity that the passive order still had. The fills and what then rests of the order make up
  -- its quantity, unless an own order met in the queue cancelled the rest; what rests does so because
  -- the front of the queue cannot be matched.
  pub add_order_trades :
      let e' = (add_order e id side price quantity trader).0 in
      (fills : List (Order × ℕ)) × (e'.trades ≡ e.trades ++ reports (ticked e) own_order fills)
      × Trades own_order e.book e'.book fills (left_over e'.book own_order)
  add_order_trades =
      let out = (add_order_matches e id side price quantity trader v passes accepts).1 in
      let after = (add_order e id side price quantity trader).0 in
      (
        (match_queue own_order quantity (queue_against own_order e.book)).fills,
        out.trades,
        Outcome-Trades own_order (ticked e) after v passes.id_free out,
      )

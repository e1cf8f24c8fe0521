-- ===== src/OrderBook/Add.antt =====
-- `add_order` of include/orderbook.hpp.
use hft_trading_system.Prelude.{
  ℕ, ◌⊎◌, ◌+◌, ◌-◌, ◌<◌, ◌≡◌, ◌≢◌, refl, true, false, ◌&&◌, ◌||◌, Option, none, some, if◌then◌else◌,
  ◌==◌, arith, Bool-cases, Option-cases, inl, inr, ap, lt→ltb, fun_ext,
}
use hft_trading_system.Types.{
  Side, buy, sell, Order, OrderResult, success, invalid_id, invalid_order_price, invalid_quantity,
  duplicate_order_id, is_valid_order_id, max_orders, invalid_price, no_trader,
}
use hft_trading_system.Book.{quantity_at}
use hft_trading_system.Book.Sides.{order_at}
use hft_trading_system.OrderBook.Invariant.{same_side, IsValid, IsValid-free, Edits}
use hft_trading_system.OrderBook.Edits.{SidesInv, InBand, place-Edits}
use hft_trading_system.OrderBook.Preserve.{with_slot, insert-IsValid, valid_lt, entry_after, ref}
use hft_trading_system.OrderBook.{
  OrderRef, OrderBook, book_side, place, admit, add_order, new_order, is_indexed, clear_order_index,
  deallocate_order,
}

OrderResult-discrete : Discrete OrderResult
OrderResult-discrete = hlevel

OrderResult-cases : (r : OrderResult) → (r ≡ success) ⊎ (r ≢ success)
OrderResult-cases r = elim (OrderResult-discrete r success) [ yes p ↦ inl p | no p ↦ inr p ]

-- The arguments pass every check of `add_order`.
pub record Passes (b : OrderBook) (id price quantity : ℕ) : Type 0 where
  pub id_valid : is_valid_order_id id ≡ true
  pub price_valid : (price == invalid_price || price == 0) ≡ false
  pub some_quantity : 0 < quantity
  pub id_free : b.order_index id ≡ none

-- Either a check fails, with the book returned as it was, or the order is admitted.
pub add_order_cases {ℓ} :
    (P : OrderBook × OrderResult → Type ℓ) (b : OrderBook) (id : ℕ) (side : Side)
    (price quantity : ℕ)
    → ((r : OrderResult) → r ≢ success → P (b, r))
    → (Passes b id price quantity → P (admit b (new_order id no_trader 0 side price quantity)))
    → P (add_order b id side price quantity)
unfolding add_order
add_order_cases P b id side price quantity refused passed =
    elim (Bool-cases (is_valid_order_id id)) [
      | inr e ↦ rw e (refused invalid_id (λ p. cc))
      | inl valid ↦ rw valid (elim (Bool-cases (price == invalid_price || price == 0)) [
        | inl e ↦ rw e (refused invalid_order_price (λ p. cc))
        | inr ok_price ↦ rw ok_price (elim (Bool-cases (quantity == 0)) [
          | inl e ↦ rw e (refused invalid_quantity (λ p. cc))
          | inr ok ↦ rw ok (elim (Option-cases (b.order_index id)) [
            | inr (r, e) ↦ rw (e, is_indexed) (refused duplicate_order_id (λ p. cc))
            | inl e ↦
                rw (e, is_indexed)
                  (passed (record {
                    id_valid = valid;
                    price_valid = ok_price;
                    some_quantity = ground arith;
                    id_free = e;
                  }))
          ])
        ])
      ])
    ]

pub add_order-admit :
    (b : OrderBook) (id : ℕ) (side : Side) (price quantity : ℕ)
    → Passes b id price quantity
    → add_order b id side price quantity ≡ admit b (new_order id no_trader 0 side price quantity)
unfolding add_order
add_order-admit b id side price quantity p =
    rw (p.id_valid, p.price_valid, p.id_free, is_indexed) (ground (arith, p.some_quantity))

-- Giving the slot back restores the book.
pub restored :
    (b : OrderBook) (o : Order)
    → b.order_index o.id ≡ none
    → o.id < max_orders
    → 0 < b.free_orders
    → deallocate_order (clear_order_index (with_slot b o) o.id) ≡ b
unfolding deallocate_order clear_order_index
restored b o free small some_left =
    rw (lt→ltb o.id max_orders small)
      (λ i. record b { order_index = index i; free_orders = count i })
  where
    index :
        (λ (j : ℕ).
          if j == o.id
          then none
          else if j == o.id
          then some (ref o.side o.price)
          else b.order_index j)
        ≡ b.order_index
    index = fun_ext (λ j. ground arith)

    count : b.free_orders - 1 + 1 ≡ b.free_orders
    count = omega arith

admit_atomic :
    (b : OrderBook) (o : Order)
    → b.order_index o.id ≡ none
    → is_valid_order_id o.id ≡ true
    → (admit b o).1 ≢ success
    → (admit b o).0 ≡ b
unfolding admit
admit_atomic b o free valid failed = elim (Bool-cases (b.free_orders == 0)) [
  | inl e ↦ ground arith
  | inr e ↦ elim (Option-cases (place (with_slot b o) o)) [
    | inl none_left ↦ ground (arith, restored b o free (valid_lt o.id valid))
    | inr (b', placed) ↦ absurd (failed (ground arith))
  ]
]

-- `add_order` that does not return `Success` leaves the book exactly as it was, on every one of
-- its error paths, the two that give back what they had allocated included.
pub add_order_atomic :
    (b : OrderBook) (id : ℕ) (side : Side) (price quantity : ℕ)
    → (add_order b id side price quantity).1 ≢ success
    → (add_order b id side price quantity).0 ≡ b
add_order_atomic b id side price quantity =
    add_order_cases (λ r. r.1 ≢ success → r.0 ≡ b) b id side price quantity (λ r _ _. refl)
      (λ p. admit_atomic b (new_order id no_trader 0 side price quantity) p.id_free p.id_valid)

-- The order lies in the band of prices that the array covers, and its level does not overflow.
pub record Fits (b : OrderBook) (side : Side) (price quantity : ℕ) : Type 0 where
  pub band : InBand (book_side b side) price
  pub volume_fits : quantity_at (book_side b side) price + quantity < 4294967296

abbrev pub sides : {b : OrderBook} → IsValid b → SidesInv b
sides v = (v.bid_side, v.ask_side)

-- Nothing is queued under an id that is not indexed.
pub unindexed :
    {b : OrderBook}
    → IsValid b
    → (sd : Side) (p id : ℕ) → b.order_index id ≡ none
    → order_at (book_side b sd) p id ≡ none
unindexed {b} v sd p id h = elim (Option-cases (order_at (book_side b sd) p id)) [
  | inl e ↦ e
  | inr (o, e) ↦ absurd (ground (arith, v.resting sd p id))
]

pub slot_side :
    (b : OrderBook) (o : Order) (sd : Side) → book_side (with_slot b o) sd ≡ book_side b sd
slot_side b o buy = refl
slot_side b o sell = refl

admit-Edits :
    (b : OrderBook) (o : Order)
    → IsValid b
    → 0 < o.quantity
    → b.order_index o.id ≡ none
    → Fits b o.side o.price o.quantity
    → (admit b o).1 ≡ success
    → Edits o.side o.price o.id (some o) (with_slot b o) (admit b o).0
unfolding admit
admit-Edits b o v pos free fits h = elim (Option-cases (place (with_slot b o) o)) [
  | inl e ↦ absurd (ground arith)
  | inr (b', e) ↦
      let some_left : (b.free_orders == 0) ≡ false = ground (arith, IsValid-free v) in
      let same = slot_side b o o.side in
      rw (some_left, e, admit)
        (place-Edits (with_slot b o) (sides v) o pos
          (rw same (unindexed v o.side o.price o.id free)) (rw same fits.volume_fits)
          (rw same fits.band) b' e)
]

-- While a level is left in its pool, an order that passes the checks is accepted.
pub admit-success :
    (b : OrderBook) (o : Order) → IsValid b → 0 < b.free_levels → (admit b o).1 ≡ success
unfolding admit place
admit-success b o v some_level = ground (arith, IsValid-free v)

module _ (b : OrderBook) (id : ℕ) (side : Side) (price quantity : ℕ) (v : IsValid b)
    (fits : Fits b side price quantity) where
  -- Whatever `add_order` returns, the book is valid after it, if the order lies in the band of
  -- prices that the book was built for and the volume of its level stays below 2 ^ 32.
  pub add_order-IsValid : IsValid (add_order b id side price quantity).0
  add_order-IsValid =
      add_order_cases (λ r. IsValid r.0) b id side price quantity (λ _ _. v)
        λ p.
          let o = new_order id no_trader 0 side price quantity in
          elim (OrderResult-cases (admit b o).1) [
            | inl done ↦
                insert-IsValid b _ v o p.id_free p.id_valid
                  (admit-Edits b o v p.some_quantity p.id_free fits done)
            | inr failed ↦ rw (admit_atomic b o p.id_free p.id_valid failed) v
          ]

  -- An order that passes the checks is accepted while a level is left in the pool. It then rests
  -- at its price under its id; every other order rests where it did, and the index gains the id.
  pub add_order_effect :
      Passes b id price quantity
      → 0 < b.free_levels
      → let (b', result) = add_order b id side price quantity in
        (result ≡ success)
        × ((sd : Side) (p j : ℕ)
            → order_at (book_side b' sd) p j ≡ (
                if same_side sd side && (p == price && j == id)
                then some (new_order id no_trader 0 side price quantity)
                else order_at (book_side b sd) p j))
        × ((j : ℕ)
            → b'.order_index j ≡ (if j == id then some (ref side price) else b.order_index j))
  add_order_effect passes some_level =
      let o = new_order id no_trader 0 side price quantity in
      let done = admit-success b o v some_level in
      let e = admit-Edits b o v passes.some_quantity passes.id_free fits done in
      rw (add_order-admit b id side price quantity passes) (
        done,
        entry_after b (with_slot b o) _ side price id (some o) refl refl e,
        λ j. ap (λ (f : ℕ → Option OrderRef). f j) e.index_kept,
      )

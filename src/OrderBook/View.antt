-- ===== src/OrderBook/View.antt =====
-- The map from ids to orders that a book of include/orderbook.hpp holds.
use hft_trading_system.Prelude.{
  ℕ, ◌≡◌, refl, Bool, Option, none, some, ◌==◌, if◌then◌else◌, arith, Option-cases, inl, inr,
  fun_ext, ◌∙◌, sym, ap,
}
use hft_trading_system.Types.{Side, Order}
use hft_trading_system.Book.Sides.{order_at}
use hft_trading_system.OrderBook.{OrderRef, OrderBook, book_side}
use hft_trading_system.OrderBook.Invariant.{IsValid, is_some}
use hft_trading_system.OrderBook.Remove.{Effect}
use hft_trading_system.OrderBook.Spec.{Orders, bind, write, change}

-- The order that an index entry leads to.
abbrev pub order_of : OrderBook → ℕ → Option OrderRef → Option Order
order_of b id none = none
order_of b id (some r) = order_at (book_side b r.side) r.price id

-- The map that a book holds.
unfoldable pub view : OrderBook → Orders
view b id = order_of b id (b.order_index id)

-- An order that rests at any place of a valid book is what the map holds under its id.
pub view-at :
    {b : OrderBook}
    → IsValid b
    → (sd : Side) (p j : ℕ) {o : Order} → order_at (book_side b sd) p j ≡ some o
    → view b j ≡ some o
unfolding view
view-at {b} v sd p j {o} h = rw (v.resting sd p j (rw h), view) h

-- What the map holds rests at a place of the book.
pub view-place :
    (b : OrderBook) (j : ℕ) {o : Order}
    → view b j ≡ some o
    → (sd : Side) × (p : ℕ) × (order_at (book_side b sd) p j ≡ some o)
unfolding view
view-place b j {o} h = elim (Option-cases (b.order_index j)) [
  | inl e ↦ absurd (ground arith)
  | inr (r, e) ↦ (r.side, r.price, ground arith)
]

-- In a valid book an id has no order exactly if it is not indexed.
pub view-is_some :
    {b : OrderBook} → IsValid b → (j : ℕ) → is_some (view b j) ≡ is_some (b.order_index j)
unfolding view
view-is_some {b} v j = elim (Option-cases (b.order_index j)) [
  | inl e ↦ rw (e, view) refl
  | inr (r, e) ↦ rw (e, view) (v.indexed j e)
]

-- A call with an effect on one id changes the map there, and nowhere else.
module _ {b : OrderBook} {id : ℕ} {after : Order → Option Order} {r : OrderBook × Bool}
    (v : IsValid b) (e : Effect b id after r) where
  entry-none : (j : ℕ) → view b j ≡ none → view r.0 j ≡ none
  entry-none j h = elim (Option-cases (view r.0 j)) [
    | inl n ↦ n
    | inr (x, hx) ↦
        let (sd, p, rests) = view-place r.0 j hx in
        elim (Option-cases (order_at (book_side b sd) p j)) [
          | inl n ↦ absurd (ground (arith, e.absent sd p j n))
          | inr (y, hy) ↦ absurd (ground (arith, view-at v sd p j hy))
        ]
  ]

  entry-some :
      (j : ℕ) {o : Order} → view b j ≡ some o → view r.0 j ≡ (if j == id then after o else some o)
  entry-some j {o} h =
      let (sd, p, rests) = view-place b j h in
      let now = e.orders sd p j o rests in
      elim (Option-cases (if j == id then after o else some o)) [
        | inr (x, hx) ↦ rw hx (view-at e.valid sd p j (now ∙ hx))
        | inl gone ↦ rw gone (elim (Option-cases (view r.0 j)) [
          | inl n ↦ n
          | inr (x, hx) ↦
              let (sd', p', rests') = view-place r.0 j hx in
              elim (Option-cases (order_at (book_side b sd') p' j)) [
                | inl n ↦ absurd (ground (arith, e.absent sd' p' j n))
                | inr (y, hy) ↦
                    let same = sym (v.resting sd p j (rw rests)) ∙ v.resting sd' p' j (rw hy) in
                    let moved = ap (order_of r.0 j) same in absurd (ground arith)
              ]
        ])
      ]

  changed : view r.0 ≡ write (view b) id (bind (view b id) after)
  unfolding write
  changed = fun_ext λ j. elim (Option-cases (view b j)) [
    | inl n ↦ ground (arith, entry-none j n)
    | inr (o, h) ↦ ground (arith, entry-some j h)
  ]

  pub view-Effect : (view r.0, r.1) ≡ change (view b) id after
  unfolding change
  view-Effect = λ i. (changed i, (e.result ∙ sym (view-is_some v id)) i)

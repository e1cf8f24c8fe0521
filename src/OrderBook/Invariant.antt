-- ===== src/OrderBook/Invariant.antt =====
-- The invariant of include/orderbook.hpp, and the shape of a change of one resting order.
use hft_trading_system.Prelude.{
  ℕ, zero, suc, ◌+◌, ◌≤◌, ◌<◌, ◌≡◌, refl, Bool, true, false, ◌&&◌, Option, none, some,
  if◌then◌else◌, ◌==◌, arith, length, Bool-cases, Option-cases, inl, inr,
}
use hft_trading_system.Types.{
  Side, buy, sell, Order, max_orders, max_price_levels, is_valid_order_id,
}
use hft_trading_system.Book.Sides.{SideInv, order_at}
use hft_trading_system.OrderBook.{OrderRef, OrderBook, book_side}

abbrev pub is_some {ℓ} : {A : Type ℓ} → Option A → Bool
is_some none = false
is_some (some _) = true

abbrev pub same_side : Side → Side → Bool
same_side buy buy = true
same_side sell sell = true
same_side buy sell = false
same_side sell buy = false

abbrev pub count_one {ℓ} : {A : Type ℓ} → Option A → ℕ
count_one none = 0
count_one (some _) = 1

-- How many ids below a bound are indexed.
pub count_indexed : ℕ → (ℕ → Option OrderRef) → ℕ
count_indexed zero f = 0
count_indexed (suc n) f = count_one (f n) + count_indexed n f

pub count_indexed_agree :
    (n id : ℕ) (f : ℕ → Option OrderRef) (r : Option OrderRef)
    → n ≤ id
    → count_indexed n (λ (j : ℕ). if j == id then r else f j) ≡ count_indexed n f
unfolding count_indexed
count_indexed_agree zero id f r h = refl
count_indexed_agree (suc n) id f r h = ground (arith, count_indexed_agree n id f r)

pub count_indexed_write :
    (n id : ℕ) (f : ℕ → Option OrderRef) (r : Option OrderRef)
    → id < n
    → count_indexed n (λ (j : ℕ). if j == id then r else f j) + count_one (f id)
      ≡ count_indexed n f + count_one r
unfolding count_indexed
count_indexed_write zero id f r h = elim h [ ]
count_indexed_write (suc n) id f r h = elim (Bool-cases (id == n)) [
  | inl e ↦ ground (arith, count_indexed_agree n id f r)
  | inr e ↦ ground (arith, count_indexed_write n id f r)
]

pub count_indexed-none : (n : ℕ) → count_indexed n (λ _. none) ≡ 0
unfolding count_indexed
count_indexed-none zero = refl
count_indexed-none (suc n) = omega (arith, count_indexed-none n)

-- Id 0 is never used, so one entry of the pool is always left.
pub count_indexed_lt :
    (n : ℕ) (f : ℕ → Option OrderRef) → f 0 ≡ none → count_indexed (suc n) f < suc n
unfolding count_indexed
count_indexed_lt zero f h = ground arith
count_indexed_lt (suc n) f h = ground (arith, count_indexed_lt n f h)

pub record IsValid (b : OrderBook) : Type 0 where
  pub bid_side : SideInv buy b.bids
  pub ask_side : SideInv sell b.asks
  pub indexed :
      (id : ℕ) {r : OrderRef}
      → b.order_index id ≡ some r
      → is_some (order_at (book_side b r.side) r.price id) ≡ true
  pub resting :
      (sd : Side) (p id : ℕ)
      → is_some (order_at (book_side b sd) p id) ≡ true
      → b.order_index id ≡ some (record { side = sd; price = p })
  pub ids : (id : ℕ) → is_some (b.order_index id) ≡ true → is_valid_order_id id ≡ true
  pub orders_accounted : b.free_orders + count_indexed max_orders b.order_index ≡ max_orders
  pub levels_accounted :
      b.free_levels + length b.bids.levels + length b.asks.levels ≡ max_price_levels

pub IsValid-side : {b : OrderBook} (sd : Side) → IsValid b → SideInv sd (book_side b sd)
IsValid-side buy v = v.bid_side
IsValid-side sell v = v.ask_side

-- `b'` is `b` with the queue entry of one id at one price replaced; the index is not touched.
pub record Edits (sd : Side) (price id : ℕ) (entry : Option Order) (b b' : OrderBook) : Type 0 where
  pub bid_side : SideInv buy b'.bids
  pub ask_side : SideInv sell b'.asks
  pub entry_at :
      (sd' : Side) (p j : ℕ)
      → order_at (book_side b' sd') p j ≡ (
          if same_side sd' sd && (p == price && j == id)
          then entry
          else order_at (book_side b sd') p j)
  pub index_kept : b'.order_index ≡ b.order_index
  pub orders_kept : b'.free_orders ≡ b.free_orders
  pub levels_kept :
      b'.free_levels + length b'.bids.levels + length b'.asks.levels
      ≡ b.free_levels + length b.bids.levels + length b.asks.levels

-- The id that the pool never hands out is free, so an allocation never fails.
pub IsValid-free : {b : OrderBook} → IsValid b → 0 < b.free_orders
unfolding is_valid_order_id
IsValid-free {b} v = elim (Option-cases (b.order_index 0)) [
  | inl e ↦ omega (arith, v.orders_accounted, count_indexed_lt 999999 b.order_index e)
  | inr (r, e) ↦ absurd (ground (arith, v.ids 0))
]

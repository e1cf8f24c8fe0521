-- ===== src/Pool/Accounts.antt =====
-- The accounts of include/order_pool.hpp: each order is free or held by a client, once.
use hft_trading_system.Prelude.{
  ℕ, zero, suc, ◌+◌, ◌%◌, ◌<◌, ◌≡◌, refl, ap, ◌⊎◌, ltb, leb, ◌==◌, if◌then◌else◌, some, List, [],
  ◌∷◌, arith, length, inl, inr,
}
use hft_trading_system.Pool.{OrderPool, new, chain, deallocate}

-- How often an order stands in a list.
abbrev pub count : ℕ → List ℕ → ℕ
count i [] = 0
count i (x ∷ xs) = (if x == i then 1 else 0) + count i xs

-- The list without the first occurrence.
abbrev pub remove : ℕ → List ℕ → List ℕ
remove i [] = []
remove i (x ∷ xs) = if x == i then xs else x ∷ remove i xs

-- Each order of the array is either free or held by a client, once, and the counter counts the free.
pub record Accounts (p : OrderPool) (held : List ℕ) : Type 0 where
  pub counted : p.free_count ≡ length p.free_list
  pub complete : length p.free_list + length held ≡ p.pool_size
  pub once : (i : ℕ) → count i p.free_list + count i held ≡ (if ltb i p.pool_size then 1 else 0)
  pub small : p.pool_size < 18446744073709551616

chain-count :
    (i from n : ℕ)
    → count i (chain from n) ≡ (if leb from i then (if ltb i (from + n) then 1 else 0) else 0)
unfolding chain
chain-count i from zero = ground arith
chain-count i from (suc n) = ground (arith, chain-count i (from + 1) n)

chain-length : (from n : ℕ) → length (chain from n) ≡ n
unfolding chain
chain-length from zero = refl
chain-length from (suc n) = omega (arith, chain-length (from + 1) n)

pub new-Accounts :
    (size : ℕ) (some_orders : 0 < size)
    → size < 18446744073709551616
    → Accounts (new size some_orders) []
unfolding new
new-Accounts size some_orders h = record {
  counted = omega (arith, chain-length 0 size);
  complete = omega (arith, chain-length 0 size);
  once = λ i. ground (arith, chain-count i 0 size);
  small = h;
}

-- The list and the counters of `p'` are those of `p`.
pub record SameOrders (p p' : OrderPool) : Type 0 where
  pub same_list : p'.free_list ≡ p.free_list
  pub same_count : p'.free_count ≡ p.free_count
  pub same_size : p'.pool_size ≡ p.pool_size
  pub same_critical : p'.critical_threshold ≡ p.critical_threshold

pub List-cases : (xs : List ℕ) → (xs ≡ []) ⊎ ((y : ℕ) × (ys : List ℕ) × (xs ≡ y ∷ ys))
List-cases [] = inl refl
List-cases (x ∷ xs) = inr (x, xs, refl)

pub same-Accounts :
    {p p' : OrderPool} (held : List ℕ) → SameOrders p p' → Accounts p held → Accounts p' held
same-Accounts held s a = record {
  counted = omega (arith, s.same_count, ap length s.same_list, a.counted);
  complete = omega (arith, s.same_size, ap length s.same_list, a.complete);
  once = λ i. rw (s.same_list, s.same_size) (a.once i);
  small = rw s.same_size a.small;
}

-- The order at the front of the free list goes to a client.
pub front-Accounts :
    (p : OrderPool) (held : List ℕ) (i : ℕ) (rest : List ℕ)
    → p.free_list ≡ i ∷ rest
    → Accounts p held
    → Accounts
        (record p {
          free_list = rest;
          free_count = (p.free_count + 18446744073709551615) % 18446744073709551616;
        })
        (i ∷ held)
front-Accounts p held i rest e a =
    let len : length p.free_list ≡ suc (length rest) = ap length e in
    record {
      counted = omega (arith, len, a.counted, a.complete, a.small);
      complete = omega (arith, len, a.complete);
      once = λ j. omega (arith, ap (count j) e, a.once j);
      small = a.small;
    }

pub front-exclusive :
    (p : OrderPool) (held : List ℕ) (i : ℕ) (rest : List ℕ)
    → p.free_list ≡ i ∷ rest
    → Accounts p held
    → (count i held ≡ 0) × (i < p.pool_size)
front-exclusive p held i rest e a = ground (arith, ap (count i) e, a.once i)

count-remove :
    (i j : ℕ) (xs : List ℕ)
    → 0 < count i xs
    → count j (remove i xs) + (if i == j then 1 else 0) ≡ count j xs
count-remove i j [] h = absurd (omega (arith, h))
count-remove i j (x ∷ xs) h = ground (arith, count-remove i j xs)

pub length-remove : (i : ℕ) (xs : List ℕ) → 0 < count i xs → length (remove i xs) + 1 ≡ length xs
length-remove i [] h = absurd (omega (arith, h))
length-remove i (x ∷ xs) h = ground (arith, length-remove i xs)

pub deallocate-Accounts :
    (p : OrderPool) (held : List ℕ) (i : ℕ)
    → 0 < count i held
    → Accounts p held
    → Accounts (deallocate p (some i)) (remove i held)
unfolding deallocate
deallocate-Accounts p held i h a = record {
  counted = omega (arith, length-remove i held h, a.counted, a.complete, a.small);
  complete = omega (arith, length-remove i held h, a.complete);
  once = λ j. omega (arith, count-remove i j held h, a.once j);
  small = a.small;
}

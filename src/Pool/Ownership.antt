-- ===== src/Pool/Ownership.antt =====
-- Who holds the orders of the pool of include/order_pool.hpp: the pool or its clients, never both.
use hft_trading_system.Prelude.{
  ℕ, ◌+◌, ◌%◌, ◌<◌, ◌≡◌, sym, ap, subst, Bool, Option, none, some, List, [], ◌∷◌, arith, length,
  inl, inr,
}
use hft_trading_system.Halt.{HaltReason, pool_critical, pool_exhausted, PositionInfo, HaltManager}
use hft_trading_system.Pool.{
  OrderPool, new, set_halt_manager, set_warning_callback, raise, check_thresholds, allocate_from,
  allocate, deallocate,
}
use hft_trading_system.Pool.Accounts.{
  count, remove, Accounts, new-Accounts, SameOrders, List-cases, same-Accounts, front-Accounts,
  front-exclusive, deallocate-Accounts,
}

-- What an allocation may do to the accounts, by its result.
abbrev pub Outcome : OrderPool → List ℕ → OrderPool × Option ℕ → Type 0
Outcome p held (p', none) = Accounts p' held × (length held ≡ p.pool_size)
Outcome p held (p', some i) = Accounts p' (i ∷ held) × (count i held ≡ 0) × (i < p.pool_size)

Outcome-some :
    (p : OrderPool) (held : List ℕ) (i : ℕ) (r : OrderPool × Option ℕ)
    → r.1 ≡ some i
    → Outcome p held r
    → Accounts r.0 (i ∷ held)
Outcome-some p held i (p', none) e h = cc
Outcome-some p held i (p', some j) e h =
    let same : j ≡ i = cc in subst (λ (k : ℕ). Accounts p' (k ∷ held)) same h.0

Outcome-none :
    (p : OrderPool) (held : List ℕ) (r : OrderPool × Option ℕ)
    → r.1 ≡ none
    → Outcome p held r
    → Accounts r.0 held
Outcome-none p held (p', none) e h = h.0
Outcome-none p held (p', some j) e h = cc

module _ (accepts : ℕ → Bool) (positions : List PositionInfo) where
  raise-SameOrders :
      (p : OrderPool) (why : HaltReason) → SameOrders p (raise accepts positions p why)
  unfolding raise
  raise-SameOrders p why = ground arith

  check_thresholds-SameOrders :
      (p : OrderPool) (remaining : ℕ)
      → SameOrders p (check_thresholds accepts positions p remaining)
  unfolding check_thresholds
  check_thresholds-SameOrders p remaining = ground (arith, raise-SameOrders p pool_critical)

  -- The two outcomes of `allocate`.
  pub allocate-some :
      (p : OrderPool) (i : ℕ) (rest : List ℕ)
      → p.free_list ≡ i ∷ rest
      → let remaining = (p.free_count + 18446744073709551615) % 18446744073709551616 in
        let taken = record p { free_list = rest; free_count = remaining } in
        allocate accepts positions p ≡ (check_thresholds accepts positions taken remaining, some i)
  unfolding allocate allocate_from
  allocate-some p i rest e = ap (allocate_from accepts positions p) e

  pub allocate-none :
      (p : OrderPool)
      → p.free_list ≡ []
      → allocate accepts positions p ≡ (raise accepts positions p pool_exhausted, none)
  unfolding allocate allocate_from
  allocate-none p e = ap (allocate_from accepts positions p) e

  -- The pools that a client reaches, with the orders it holds then: it returns only orders it holds.
  pub data Uses : OrderPool → List ℕ → Type 0 where
    created :
        (size : ℕ) (some_orders : 0 < size)
        → size < 18446744073709551616
        → Uses (new size some_orders) []
    managed :
        {p : OrderPool} {held : List ℕ}
        → Uses p held
        → (m : HaltManager) → Uses (set_halt_manager p m) held
    warned : {p : OrderPool} {held : List ℕ} → Uses p held → Uses (set_warning_callback p) held
    taken :
        {p : OrderPool} {held : List ℕ}
        → Uses p held
        → (i : ℕ) → (allocate accepts positions p).1 ≡ some i
        → Uses (allocate accepts positions p).0 (i ∷ held)
    refused :
        {p : OrderPool} {held : List ℕ}
        → Uses p held
        → (allocate accepts positions p).1 ≡ none
        → Uses (allocate accepts positions p).0 held
    returned :
        {p : OrderPool} {held : List ℕ}
        → Uses p held
        → (i : ℕ) → 0 < count i held
        → Uses (deallocate p (some i)) (remove i held)

  allocate-Outcome :
      (p : OrderPool) (held : List ℕ)
      → Accounts p held
      → Outcome p held (allocate accepts positions p)
  allocate-Outcome p held a = elim (List-cases p.free_list) [
    | inl e ↦ subst (Outcome p held) (sym (allocate-none p e)) (
      same-Accounts held (raise-SameOrders p pool_exhausted) a,
      omega (arith, ap length e, a.complete),
    )
    | inr (i, rest, e) ↦
        let remaining = (p.free_count + 18446744073709551615) % 18446744073709551616 in
        let taken = record p { free_list = rest; free_count = remaining } in
        let (unheld, inside) = front-exclusive p held i rest e a in
        subst (Outcome p held) (sym (allocate-some p i rest e)) (
          same-Accounts (i ∷ held) (check_thresholds-SameOrders taken remaining)
              (front-Accounts p held i rest e a),
          unheld,
          inside,
        )
  ]

  Uses-Accounts : {p : OrderPool} {held : List ℕ} → Uses p held → Accounts p held
  unfolding set_halt_manager set_warning_callback
  Uses-Accounts (created size some_orders h) = new-Accounts size some_orders h
  Uses-Accounts (managed u m) =
      let a = Uses-Accounts u in
      record { counted = a.counted; complete = a.complete; once = a.once; small = a.small }
  Uses-Accounts (warned u) =
      let a = Uses-Accounts u in
      record { counted = a.counted; complete = a.complete; once = a.once; small = a.small }
  Uses-Accounts (taken {p} {held} u i e) =
      Outcome-some p held i (allocate accepts positions p) e
        (allocate-Outcome p held (Uses-Accounts u))
  Uses-Accounts (refused {p} {held} u e) =
      Outcome-none p held (allocate accepts positions p) e
        (allocate-Outcome p held (Uses-Accounts u))
  Uses-Accounts (returned {p} {held} u i h) = deallocate-Accounts p held i h (Uses-Accounts u)

  -- Whatever clients allocate and return, returning only what they hold, each order of the pool is
  -- free or held, once, and the counter counts the free ones. The next allocation hands out an order
  -- of the pool that nobody holds, or fails, and then every order is held.
  pub exclusive_ownership :
      {p : OrderPool} {held : List ℕ}
      → Uses p held
      → Accounts p held × Outcome p held (allocate accepts positions p)
  exclusive_ownership {p} {held} u = let a = Uses-Accounts u in (a, allocate-Outcome p held a)

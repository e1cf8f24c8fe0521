-- ===== src/Pool/Critical.antt =====
-- The halt that the pool of include/order_pool.hpp triggers when it runs low.
use hft_trading_system.Prelude.{
  ℕ, ◌+◌, ◌%◌, ◌<◌, ◌≡◌, refl, sym, ap, subst, ◌⊎◌, Bool, true, false, ◌==◌, if◌then◌else◌, Option,
  none, some, List, [], ◌∷◌, ◌++◌, arith, length, Bool-cases, inl, inr,
}
use hft_trading_system.Halt.{
  HaltReason, pool_critical, pool_exhausted, PositionInfo, HaltManager, is_running, is_halted,
  final_state, begin_halt, run_halt, halt, flatten_positions, ask_positions,
}
use hft_trading_system.Pool.{
  OrderPool, new, set_halt_manager, set_warning_callback, raise, check_thresholds, is_critical,
  allocate, deallocate,
}
use hft_trading_system.Pool.Ownership.{Uses, exclusive_ownership, allocate-some, allocate-none}
use hft_trading_system.Pool.Accounts.{count, remove, length-remove, Accounts, List-cases}

final_state-stops : (b : Bool) → is_running (final_state b) ≡ false
final_state-stops true = refl
final_state-stops false = refl

halt-stops :
    (accepts : ℕ → Bool) (positions : List PositionInfo) (m : HaltManager) (why : HaltReason)
    → is_running (halt accepts positions m why).0.state ≡ false
unfolding halt run_halt
halt-stops accepts positions m why = elim (Bool-cases (is_running m.state)) [
  | inl e ↦
      let (m1, found) = ask_positions (begin_halt m why) positions in
      rw e (final_state-stops (flatten_positions accepts m1 found).1)
  | inr e ↦ rw e e
]

-- There is a halt manager, and it runs only while more orders are free than the critical threshold.
pub record IsGuarded (p : OrderPool) : Type 0 where
  pub manager : HaltManager
  pub is_set : p.halt_manager ≡ some manager
  pub guards : is_running manager.state ≡ true → p.critical_threshold < p.free_count

module _ (accepts : ℕ → Bool) (positions : List PositionInfo) where
  -- The pools that clients reach when the halt manager is set before the first order is taken, and is
  -- not reset.
  pub data Monitored : OrderPool → List ℕ → Type 0 where
    started :
        (size : ℕ) (m : HaltManager) (some_orders : 0 < size)
        → size < 18446744073709551616
        → Monitored (set_halt_manager (new size some_orders) m) []
    warned :
        {p : OrderPool} {held : List ℕ} → Monitored p held → Monitored (set_warning_callback p) held
    taken :
        {p : OrderPool} {held : List ℕ}
        → Monitored p held
        → (i : ℕ) → (allocate accepts positions p).1 ≡ some i
        → Monitored (allocate accepts positions p).0 (i ∷ held)
    refused :
        {p : OrderPool} {held : List ℕ}
        → Monitored p held
        → (allocate accepts positions p).1 ≡ none
        → Monitored (allocate accepts positions p).0 held
    returned :
        {p : OrderPool} {held : List ℕ}
        → Monitored p held
        → (i : ℕ) → 0 < count i held
        → Monitored (deallocate p (some i)) (remove i held)

  Monitored-Uses :
      {p : OrderPool} {held : List ℕ} → Monitored p held → Uses accepts positions p held
  Monitored-Uses (started size m some_orders small) =
      Uses.managed (Uses.created size some_orders small) m
  Monitored-Uses (warned u) = Uses.warned (Monitored-Uses u)
  Monitored-Uses (taken u i e) = Uses.taken (Monitored-Uses u) i e
  Monitored-Uses (refused u e) = Uses.refused (Monitored-Uses u) e
  Monitored-Uses (returned u i h) = Uses.returned (Monitored-Uses u) i h

  raise_lem :
      (p : OrderPool) (why : HaltReason) (m : HaltManager)
      → p.halt_manager ≡ some m
      → raise accepts positions p why
        ≡ record p { halt_manager = some (halt accepts positions m why).0 }
  unfolding raise
  raise_lem p why m e = rw e refl

  raise-IsGuarded :
      (p : OrderPool) (why : HaltReason) (m : HaltManager)
      → p.halt_manager ≡ some m
      → IsGuarded (raise accepts positions p why)
  raise-IsGuarded p why m e = rw (raise_lem p why m e) (record {
    manager = (halt accepts positions m why).0;
    is_set = refl;
    guards = λ h. cc (halt-stops accepts positions m why);
  })

  check_thresholds-IsGuarded :
      (p : OrderPool) (m : HaltManager)
      → p.halt_manager ≡ some m
      → (is_running m.state ≡ true → p.critical_threshold < p.free_count + 1)
      → IsGuarded (check_thresholds accepts positions p p.free_count)
  unfolding check_thresholds
  check_thresholds-IsGuarded p m e g = elim (Bool-cases (p.free_count == p.critical_threshold)) [
    | inl low ↦ rw low (raise-IsGuarded p pool_critical m e)
    | inr above ↦
        let here : IsGuarded p = record {
          manager = m;
          is_set = e;
          guards = λ h. ground (arith, g h);
        } in
        rw above (warn here (p.free_count == p.warning_threshold) p.has_warning_callback)
  ]
    where
      warn :
          IsGuarded p
          → (at_warning has_callback : Bool)
          → IsGuarded (
              if at_warning
              then (if has_callback
                  then record p { warnings = p.warnings ++ (p.free_count, p.pool_size) ∷ [] }
                  else p)
              else p)
      warn here false c = here
      warn here true false = here
      warn here true true = record {
        manager = here.manager;
        is_set = here.is_set;
        guards = here.guards;
      }

  allocate-IsGuarded :
      (p : OrderPool) (held : List ℕ)
      → Accounts p held
      → IsGuarded p
      → IsGuarded (allocate accepts positions p).0
  allocate-IsGuarded p held a g = elim (List-cases p.free_list) [
    | inl e ↦
        subst (λ (r : OrderPool × Option ℕ). IsGuarded r.0)
          (sym (allocate-none accepts positions p e))
          (raise-IsGuarded p pool_exhausted g.manager g.is_set)
    | inr (i, rest, e) ↦
        let remaining = (p.free_count + 18446744073709551615) % 18446744073709551616 in
        let taken = record p { free_list = rest; free_count = remaining } in
        let one_less : remaining + 1 ≡ p.free_count =
          omega (arith, ap length e, a.counted, a.complete, a.small) in
        subst (λ (r : OrderPool × Option ℕ). IsGuarded r.0)
          (sym (allocate-some accepts positions p i rest e))
          (check_thresholds-IsGuarded taken g.manager g.is_set (λ h. rw one_less (g.guards h)))
  ]

  Monitored-IsGuarded : {p : OrderPool} {held : List ℕ} → Monitored p held → IsGuarded p
  unfolding new set_halt_manager set_warning_callback deallocate
  Monitored-IsGuarded (started size m some_orders small) = record {
    manager = m;
    is_set = refl;
    guards = λ h. omega (arith, some_orders);
  }
  Monitored-IsGuarded (warned u) =
      let g = Monitored-IsGuarded u in
      record { manager = g.manager; is_set = g.is_set; guards = g.guards }
  Monitored-IsGuarded (taken {p} {held} u i e) =
      allocate-IsGuarded p held (exclusive_ownership accepts positions (Monitored-Uses u)).0
        (Monitored-IsGuarded u)
  Monitored-IsGuarded (refused {p} {held} u e) =
      allocate-IsGuarded p held (exclusive_ownership accepts positions (Monitored-Uses u)).0
        (Monitored-IsGuarded u)
  Monitored-IsGuarded (returned {p} {held} u i h') =
      let g = Monitored-IsGuarded u in
      let a = (exclusive_ownership accepts positions (Monitored-Uses u)).0 in
      record {
        manager = g.manager;
        is_set = g.is_set;
        guards = λ h.
            let below = g.guards h in
            omega (arith, below, a.counted, a.complete, a.small, length-remove i held h');
      }

  -- With a halt manager set before the first allocation and never reset, whatever clients allocate and
  -- return: whenever no more orders are free than the critical threshold, or none at all, trading is
  -- halted.
  pub low_pool_halts :
      {p : OrderPool} {held : List ℕ}
      → Monitored p held
      → (is_critical p ≡ true) ⊎ (p.free_list ≡ [])
      → (m : HaltManager) × (p.halt_manager ≡ some m) × (is_halted m ≡ true)
  unfolding is_critical is_halted
  low_pool_halts {p} {held} u low =
      let g = Monitored-IsGuarded u in
      let a = (exclusive_ownership accepts positions (Monitored-Uses u)).0 in
      (
        g.manager,
        g.is_set,
        elim (Bool-cases (is_running g.manager.state)) [
          | inr e ↦ rw e refl
          | inl e ↦
              let above = g.guards e in
              elim low [
                | inl critical ↦ absurd (ground arith)
                | inr empty ↦ absurd (omega (arith, above, ap length empty, a.counted))
              ]
        ],
      )

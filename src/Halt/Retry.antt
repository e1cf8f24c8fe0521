-- ===== src/Halt/Retry.antt =====
-- Retrying a halt that failed, in include/strategy/halt_manager.hpp: `retry_flatten` again and
-- again.
use hft_trading_system.Prelude.{
  ℕ, zero, suc, ◌+◌, ◌-◌, ◌≤◌, ◌<◌, ◌≡◌, refl, sym, subst, ◌∙◌, ◌⊎◌, inl, inr, Bool, true, false,
  not, if◌then◌else◌, leb, ltb, ltb→lt, List, [], ◌∷◌, arith, Bool-cases, u32,
}
use hft_trading_system.Halt.{
  halting, halted, error, is_error, PositionInfo, HaltManager, called, get_positions, flatten_each,
  flatten_positions, final_state, ask_positions, run_retry, retry_flatten,
}
use hft_trading_system.Halt.Flatten.{flatten_each_lem}

-- The attempts of `m'`, with the maximum of `m`.
abbrev Counts : ℕ → HaltManager → HaltManager → Type 0
Counts k m m' = (m'.flatten_attempts ≡ k) × (m'.max_flatten_attempts ≡ m.max_flatten_attempts)

flatten_positions-Counts :
    (accepts : ℕ → Bool) (m : HaltManager) (ps : List PositionInfo)
    → Counts (u32 (m.flatten_attempts + 1)) m (flatten_positions accepts m ps).0
unfolding flatten_positions
flatten_positions-Counts accepts m [] = (refl, refl)
flatten_positions-Counts accepts m (p ∷ ps) = split m.has_send_order
  where
    counted : HaltManager
    counted = record m { flatten_attempts = u32 (m.flatten_attempts + 1) }

    split :
        (b : Bool)
        → let r : HaltManager × Bool =
            if not b then (counted, false) else flatten_each accepts counted true (p ∷ ps) in
          Counts (u32 (m.flatten_attempts + 1)) m r.0
    split false = (refl, refl)
    split true = rw (flatten_each_lem accepts counted true (p ∷ ps)) (refl, refl)

ask_positions-Counts :
    (m : HaltManager) (ps : List PositionInfo) → Counts m.flatten_attempts m (ask_positions m ps).0
ask_positions-Counts m ps = split m.has_get_positions
  where
    split :
        (b : Bool)
        → let r : HaltManager × List PositionInfo =
            if b then (called m get_positions, ps) else (m, []) in
          Counts m.flatten_attempts m r.0
    split true = (refl, refl)
    split false = (refl, refl)

final_state-cases : (b : Bool) → (final_state b ≡ halted) ⊎ (final_state b ≡ error)
final_state-cases true = inl refl
final_state-cases false = inr refl

run_retry-Counts :
    (accepts : ℕ → Bool) (ps : List PositionInfo) (m : HaltManager)
    → m.flatten_attempts + 1 < 4294967296
    → let m' = (run_retry accepts ps m).0 in
      ((m'.state ≡ halted) ⊎ (m'.state ≡ error)) × Counts (m.flatten_attempts + 1) m m'
unfolding run_retry
run_retry-Counts accepts ps m small =
    let trying = record m { state = halting } in
    let asked = ask_positions-Counts trying ps in
    let (m1, found) = ask_positions trying ps in
    let flattened = flatten_positions-Counts accepts m1 found in
    (
      final_state-cases (flatten_positions accepts m1 found).1,
      (omega (arith, flattened.0, asked.0, small), flattened.1 ∙ asked.1),
    )

-- `retry_flatten` is called `n` times; the positions may differ from one call to the next.
pub retries : ℕ → (ℕ → Bool) → (ℕ → List PositionInfo) → HaltManager → HaltManager
retries zero accepts positions m = m
retries (suc n) accepts positions m =
    retries n accepts positions (retry_flatten accepts (positions n) m).0

-- No retry changes the manager any more: it is in its safe state, or out of attempts.
abbrev pub IsSettled : HaltManager → Type 0
IsSettled m =
    (m.state ≡ halted) ⊎ ((m.state ≡ error) × (m.flatten_attempts ≡ m.max_flatten_attempts))

settled_stays :
    (accepts : ℕ → Bool) (ps : List PositionInfo) (m : HaltManager)
    → IsSettled m
    → retry_flatten accepts ps m ≡ (m, false)
unfolding retry_flatten
settled_stays accepts ps m (inl h) = rw h refl
settled_stays accepts ps m (inr h) =
    let spent : leb m.max_flatten_attempts m.flatten_attempts ≡ true = ground arith in
    simp (h.0, spent) refl

retries-settled :
    (n : ℕ) (accepts : ℕ → Bool) (positions : ℕ → List PositionInfo) (m : HaltManager)
    → IsSettled m
    → retries n accepts positions m ≡ m
unfolding retries
retries-settled zero accepts positions m h = refl
retries-settled (suc n) accepts positions m h =
    rw (settled_stays accepts (positions n) m h) (retries-settled n accepts positions m h)

-- One retry that is not refused: it takes an attempt, and succeeds or stays in error.
retry_step :
    (accepts : ℕ → Bool) (ps : List PositionInfo) (m : HaltManager)
    → m.state ≡ error
    → m.flatten_attempts < m.max_flatten_attempts
    → m.max_flatten_attempts < 4294967296
    → let m' = (retry_flatten accepts ps m).0 in
      ((m'.state ≡ halted) ⊎ (m'.state ≡ error)) × Counts (m.flatten_attempts + 1) m m'
unfolding retry_flatten
retry_step accepts ps m e left small =
    let in_error : is_error m.state ≡ true = rw e refl in
    let not_spent : leb m.max_flatten_attempts m.flatten_attempts ≡ false = ground arith in
    rw (in_error, not_spent) (run_retry-Counts accepts ps m (omega (arith, left, small)))

settle_within :
    (n : ℕ) (accepts : ℕ → Bool) (positions : ℕ → List PositionInfo) (m : HaltManager)
    → m.state ≡ error
    → m.flatten_attempts ≤ m.max_flatten_attempts
    → m.max_flatten_attempts < 4294967296
    → m.max_flatten_attempts - m.flatten_attempts ≤ n
    → IsSettled (retries n accepts positions m)
      × ((retries n accepts positions m).flatten_attempts ≤ m.max_flatten_attempts)
unfolding retries
settle_within zero accepts positions m e within small enough =
    (inr (e, omega (arith, within, enough)), within)
settle_within (suc n) accepts positions m e within small enough =
    let m' = (retry_flatten accepts (positions n) m).0 in
    elim (Bool-cases (ltb m.flatten_attempts m.max_flatten_attempts)) [
      | inr spent ↦
          let settled : IsSettled m = inr (e, ground arith) in
          subst (λ (x : HaltManager). IsSettled x × (x.flatten_attempts ≤ m.max_flatten_attempts))
            (sym (retries-settled (suc n) accepts positions m settled)) (settled, within)
      | inl left ↦
          let below : m.flatten_attempts < m.max_flatten_attempts = ltb→lt _ _ left in
          let (ends, counts) = retry_step accepts (positions n) m e below small in
          elim ends [
            | inl h ↦
                let settled : IsSettled m' = inl h in
                rw (retries-settled n accepts positions m' settled)
                  (settled, omega (arith, counts.0, below))
            | inr h ↦
                let (settled, bounded) =
                  settle_within n accepts positions m' h (omega (arith, counts.0, counts.1, below))
                    (omega (arith, counts.1, small)) (omega (arith, counts.0, counts.1, enough)) in
                (settled, omega (arith, bounded, counts.1))
          ]
    ]

-- However the orders are answered, retrying comes to an end: after as many calls of retry_flatten as
-- attempts are left, the manager in error is either halted or has used up its attempts, which never
-- exceed the maximum, and each further call returns false and changes nothing.
pub retries_settle :
    (n k : ℕ) (accepts : ℕ → Bool) (positions : ℕ → List PositionInfo) (m : HaltManager)
    → m.state ≡ error
    → m.flatten_attempts ≤ m.max_flatten_attempts
    → m.max_flatten_attempts < 4294967296
    → m.max_flatten_attempts - m.flatten_attempts ≤ n
    → let m' = retries n accepts positions m in
      IsSettled m'
      × (m'.flatten_attempts ≤ m.max_flatten_attempts)
      × (retries k accepts positions m' ≡ m')
unfolding retries
retries_settle n k accepts positions m e within small enough =
    let (settled, bounded) = settle_within n accepts positions m e within small enough in
    (settled, bounded, retries-settled k accepts positions (retries n accepts positions m) settled)

-- ===== src/Risk/Consistent.antt =====
-- What registering a symbol and a fill do to the tables of include/risk/enhanced_risk_manager.hpp.
use hft_trading_system.Prelude.{
  ℕ, zero, suc, ◌*◌, ◌/◌, ◌≡◌, refl, true, false, ◌||◌, some, List, [], ◌∷◌, ◌++◌, ◌==◌,
  if◌then◌else◌, arith, length, get_elem?, set, map, ℤ, abs, All, All-append, length-append,
  Option-cases, Bool-cases, inl, inr, ◌⊎◌,
}
use hft_trading_system.Types.{Side}
use hft_trading_system.Risk.{
  EnhancedRiskManager, SymbolRiskState, reset_state, register_symbol, sum_notional,
  recalculate_total_notional, filled_state, on_fill, price_scale,
}

-- The notional of a symbol is that of its position at the last price.
abbrev pub IsMarked : SymbolRiskState → Type 0
IsMarked s = s.notional ≡ abs s.position * s.last_price / price_scale

pub record IsConsistent (r : EnhancedRiskManager) : Type 0 where
  pub limit_per_symbol : length r.limits ≡ length r.states
  pub name_per_symbol : length r.index_to_symbol ≡ length r.states
  pub marked : All IsMarked r.states
  pub total : r.total_notional ≡ sum_notional r.states
  pub breach_halts : (r.daily_limit_breached || r.drawdown_breached) ≡ true → r.halted ≡ true
  pub indexed :
      (symbol i : ℕ)
      → r.symbol_to_index symbol ≡ some i
      → get_elem? r.index_to_symbol i ≡ some symbol

length-set : {A : Type 0} (xs : List A) (i : ℕ) (v : A) → length (set xs i v) ≡ length xs
length-set [] i v = refl
length-set (x ∷ xs) zero v = refl
length-set (x ∷ xs) (suc i) v = omega (arith, length-set xs i v)

All-set :
    {A : Type 0} (P : A → Type 0) (xs : List A) (i : ℕ) (v : A)
    → P v
    → All P xs
    → All P (set xs i v)
All-set P [] i v h a = tt
All-set P (x ∷ xs) zero v h a = (h, a.1)
All-set P (x ∷ xs) (suc i) v h a = (a.0, All-set P xs i v h a.1)

get_elem?-append-last : (xs : List ℕ) (x : ℕ) → get_elem? (xs ++ x ∷ []) (length xs) ≡ some x
get_elem?-append-last [] x = refl
get_elem?-append-last (y ∷ xs) x = get_elem?-append-last xs x

get_elem?-append :
    (xs : List ℕ) (x i y : ℕ) → get_elem? xs i ≡ some y → get_elem? (xs ++ x ∷ []) i ≡ some y
get_elem?-append [] x i y h = cc
get_elem?-append (z ∷ xs) x zero y h = h
get_elem?-append (z ∷ xs) x (suc i) y h = get_elem?-append xs x i y h

sum_notional-append :
    (ss : List SymbolRiskState) → sum_notional (ss ++ reset_state ∷ []) ≡ sum_notional ss
unfolding sum_notional
sum_notional-append [] = omega arith
sum_notional-append (s ∷ ss) = omega (arith, sum_notional-append ss)

pub All-reset :
    (ss : List SymbolRiskState) → All IsMarked (map (λ (_ : SymbolRiskState). reset_state) ss)
All-reset [] = tt
All-reset (s ∷ ss) = (refl, All-reset ss)

pub sum_notional-reset :
    (ss : List SymbolRiskState) → sum_notional (map (λ (_ : SymbolRiskState). reset_state) ss) ≡ 0
unfolding sum_notional
sum_notional-reset [] = refl
sum_notional-reset (s ∷ ss) = omega (arith, sum_notional-reset ss)

pub length-reset :
    (ss : List SymbolRiskState) → length (map (λ (_ : SymbolRiskState). reset_state) ss) ≡ length ss
length-reset [] = refl
length-reset (s ∷ ss) = omega (arith, length-reset ss)

pub register_symbol-IsConsistent :
    (r : EnhancedRiskManager) (symbol : ℕ) (max_position max_notional : ℤ)
    → IsConsistent r
    → IsConsistent (register_symbol r symbol max_position max_notional).0
unfolding register_symbol
register_symbol-IsConsistent r symbol p n v = elim (Option-cases (r.symbol_to_index symbol)) [
  | inr (i, e) ↦
      rw (register_symbol, e)
        (record {
          limit_per_symbol = omega (
            arith,
            length-set r.limits i (record { max_position = p; max_notional = n }),
            v.limit_per_symbol,
          );
          name_per_symbol = v.name_per_symbol;
          marked = v.marked;
          total = v.total;
          breach_halts = v.breach_halts;
          indexed = v.indexed;
        })
  | inl e ↦
      rw (register_symbol, e)
        (record {
          limit_per_symbol = omega (
            arith,
            length-append r.limits (record { max_position = p; max_notional = n } ∷ []),
            length-append r.states (reset_state ∷ []),
            v.limit_per_symbol,
          );
          name_per_symbol = omega (
            arith,
            length-append r.index_to_symbol (symbol ∷ []),
            length-append r.states (reset_state ∷ []),
            v.name_per_symbol,
          );
          marked = All-append IsMarked r.states (reset_state ∷ []) v.marked (refl, tt);
          total = omega (arith, v.total, sum_notional-append r.states);
          breach_halts = v.breach_halts;
          indexed = λ s i h. indexed_after r symbol v s i (Bool-cases (s == symbol)) h;
        })
]
  where
    indexed_after :
        (r : EnhancedRiskManager) (symbol : ℕ)
        → IsConsistent r
        → (s i : ℕ) → ((s == symbol) ≡ true) ⊎ ((s == symbol) ≡ false)
        → (if s == symbol then some (length r.states) else r.symbol_to_index s) ≡ some i
        → get_elem? (r.index_to_symbol ++ symbol ∷ []) i ≡ some s
    indexed_after r symbol v s i (inl same) h =
        ground (arith, get_elem?-append-last r.index_to_symbol symbol, v.name_per_symbol)
    indexed_after r symbol v s i (inr other) h =
        get_elem?-append r.index_to_symbol symbol i s (v.indexed s i (rw other at (h)))

pub on_fill-IsConsistent :
    (r : EnhancedRiskManager) (index : ℕ) (side : Side) (qty price : ℕ)
    → IsConsistent r
    → IsConsistent (on_fill r index side qty price)
unfolding on_fill recalculate_total_notional
on_fill-IsConsistent r index side qty price v = elim (Option-cases (get_elem? r.states index)) [
  | inl e ↦ rw (on_fill, e) v
  | inr (s, e) ↦
      let s' = filled_state s side qty price in
      rw (on_fill, e)
        (record {
          limit_per_symbol = omega (arith, length-set r.states index s', v.limit_per_symbol);
          name_per_symbol = omega (arith, length-set r.states index s', v.name_per_symbol);
          marked = All-set IsMarked r.states index s' refl v.marked;
          total = refl;
          breach_halts = v.breach_halts;
          indexed = v.indexed;
        })
]

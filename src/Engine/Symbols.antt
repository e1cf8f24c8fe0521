-- ===== src/Engine/Symbols.antt =====
-- The symbols of include/trading_engine.hpp in every state: their ids, their books and the tickers.
use mathlib.Core.Option.{some-injective}
use hft_trading_system.Prelude.{
  ℕ, ◌+◌, ◌<◌, ◌≤◌, ◌≡◌, sym, ◌∙◌, arith, true, false, ◌==◌, ==→eq, List, [], ◌∷◌, some, Bool-cases,
  inl, inr, if_so, if_not, subst, get, put, alter,
}
use hft_trading_system.OrderBook.Invariant.{IsValid}
use hft_trading_system.World.{SymbolWorld}

-- A symbol under its own id, with a valid book.
abbrev pub IsSymbol : ℕ → SymbolWorld → Type 0
IsSymbol id w = (w.id ≡ id) × IsValid w.book

-- The ids rise from `low` on and stay below `high`.
abbrev pub Ids : ℕ → List (ℕ × SymbolWorld) → ℕ → Type 0
Ids low [] high = low ≤ high
Ids low ((id, w) ∷ ws) high = (low ≤ id) × IsSymbol id w × Ids (id + 1) ws high

Ids-le : (low : ℕ) (ws : List (ℕ × SymbolWorld)) (high : ℕ) → Ids low ws high → low ≤ high
Ids-le low [] high h = h
Ids-le low ((id, w) ∷ ws) high (h, good, hs) = omega (arith, h, Ids-le (id + 1) ws high hs)

pub Ids-put :
    (low : ℕ) (ws : List (ℕ × SymbolWorld)) (high : ℕ) (w : SymbolWorld)
    → Ids low ws high
    → IsSymbol high w
    → Ids low (put high w ws) (high + 1)
unfolding put
Ids-put low [] high w h good = (h, good, omega arith)
Ids-put low ((id, v) ∷ ws) high w (h, known, hs) good =
    let rest = Ids-put (id + 1) ws high w hs good in
    let below : id + 1 ≤ high = Ids-le (id + 1) ws high hs in
    let other : (high == id) ≡ false = ground (arith, below) in rw other (h, known, rest)

pub Ids-alter :
    (low : ℕ) (ws : List (ℕ × SymbolWorld)) (high symbol : ℕ) (f : SymbolWorld → SymbolWorld)
    → Ids low ws high
    → ((w : SymbolWorld) → get symbol ws ≡ some w → IsSymbol symbol w → IsSymbol symbol (f w))
    → Ids low (alter symbol f ws) high
unfolding alter get
Ids-alter low [] high symbol f h keeps = h
Ids-alter low ((id, w) ∷ ws) high symbol f (h, good, hs) keeps = elim (Bool-cases (symbol == id)) [
  | inl same ↦ rw same (h, moved same, hs)
  | inr other ↦ rw other (
    h,
    good,
    Ids-alter (id + 1) ws high symbol f hs (λ v found known.
        keeps v (if_not (symbol == id) (some w) (get symbol ws) other ∙ found) known),
  )
]
  where
    moved : (symbol == id) ≡ true → IsSymbol id (f w)
    moved same =
        let here : symbol ≡ id = ==→eq symbol id same in
        subst (λ (k : ℕ). IsSymbol k (f w)) here
          (keeps w (if_so (symbol == id) (some w) (get symbol ws) same)
            (subst (λ (k : ℕ). IsSymbol k w) (sym here) good))

pub Ids-get :
    (low : ℕ) (ws : List (ℕ × SymbolWorld)) (high id : ℕ) (w : SymbolWorld)
    → Ids low ws high
    → get id ws ≡ some w
    → (id < high) × IsSymbol id w
unfolding get
Ids-get low [] high id w h found = cc
Ids-get low ((j, v) ∷ ws) high id w (h, good, hs) found = elim (Bool-cases (id == j)) [
  | inl same ↦
      let here : id ≡ j = ==→eq id j same in
      let it : some v ≡ some w = sym (if_so (id == j) (some v) (get id ws) same) ∙ found in
      let below : j + 1 ≤ high = Ids-le (j + 1) ws high hs in
      (
        omega (arith, here, below),
        subst (λ (x : SymbolWorld). IsSymbol id x) (some-injective v w it)
            (subst (λ (k : ℕ). IsSymbol k v) (sym here) good),
      )
  | inr other ↦
      Ids-get (j + 1) ws high id w hs (sym (if_not (id == j) (some v) (get id ws) other) ∙ found)
]

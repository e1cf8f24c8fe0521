-- ===== src/TopOfBook/Shifts.antt =====
-- The sizes at a price in the arrays of include/top_of_book.hpp, when a level is moved or removed.
use hft_trading_system.Prelude.{
  ℕ, ◌<◌, ◌≡◌, refl, Bool, List, [], ◌∷◌, ◌++◌, ◌==◌, if◌then◌else◌, arith, All, length, inl, inr,
  ◌⊎◌, ap,
}
use hft_trading_system.Book.Lookups.{IsStrictOrder}
use hft_trading_system.TopOfBook.{TopLevel, cleared, count_levels, shift_down, remove_level}
use hft_trading_system.TopOfBook.Sorted.{IsCleared, IsBehind, IsTop}

-- The size that the array shows at a price; 0 if the price is not tracked.
abbrev pub size_at : ℕ → List TopLevel → ℕ
size_at q [] = 0
size_at q (l ∷ ls) = if q == l.price then l.size else size_at q ls

size_at-cleared : (q : ℕ) (ls : List TopLevel) → All IsCleared ls → size_at q ls ≡ 0
size_at-cleared q [] a = refl
size_at-cleared q (l ∷ ls) a =
    ground (arith, ap (λ (x : TopLevel). x.size) a.0, size_at-cleared q ls a.1)

size_at-append : (q : ℕ) (ls : List TopLevel) → size_at q (ls ++ cleared ∷ []) ≡ size_at q ls
size_at-append q [] = ground arith
size_at-append q (l ∷ ls) = ground (arith, size_at-append q ls)

module _ (c : ℕ → ℕ → Bool) (order : IsStrictOrder c) where
  pub size_at-behind :
      (p : ℕ) (ls : List TopLevel) → 0 < p → All (IsBehind c p) ls → size_at p ls ≡ 0
  size_at-behind p [] z a = refl
  size_at-behind p (l ∷ ls) z a = elim (a.0) [
    | inl e ↦ ground (arith, ap (λ (x : TopLevel). x.price) e, size_at-behind p ls z a.1)
    | inr (s, r, b) ↦ ground (arith, order.irrefl p, size_at-behind p ls z a.1)
  ]

  pub size_at-remove_level :
      (q price : ℕ) (ls : List TopLevel)
      → 0 < price
      → IsTop c ls
      → size_at q (remove_level price ls) ≡ (if q == price then 0 else size_at q ls)
  unfolding remove_level
  size_at-remove_level q price [] z t = ground arith
  size_at-remove_level q price (l ∷ ls) z t = elim t [
    | inl (e, a) ↦ ground (
      arith,
      ap (λ (x : TopLevel). x.price) e,
      ap (λ (x : TopLevel). x.size) e,
      size_at-remove_level q price ls z (top_of_cleared ls a),
    )
    | inr (s, r, b, rest) ↦ ground (
      arith,
      size_at-append q ls,
      size_at-behind l.price ls r b,
      size_at-remove_level q price ls z rest,
    )
  ]
    where
      top_of_cleared : (ls : List TopLevel) → All IsCleared ls → IsTop c ls
      top_of_cleared [] a = tt
      top_of_cleared (l ∷ ls) a = inl (a.0, a.1)

-- A shift shows the new cell before what was there, or has lost the size that was asked for.
pub size_at-shift_lossy :
    (q : ℕ) (x : TopLevel) (ls : List TopLevel)
    → let after = size_at q (shift_down x ls) in
      (after ≡ (if q == x.price then x.size else size_at q ls)) ⊎ (after ≡ 0)
unfolding shift_down
size_at-shift_lossy q x [] = inr refl
size_at-shift_lossy q x (l ∷ ls) = ground (arith, size_at-shift_lossy q l ls)

module _ (c : ℕ → ℕ → Bool) where
  -- Nothing is lost while a cell is free.
  pub size_at-shift_down :
      (q : ℕ) (x : TopLevel) (ls : List TopLevel)
      → IsTop c ls
      → count_levels ls < length ls
      → size_at q (shift_down x ls) ≡ (if q == x.price then x.size else size_at q ls)
  unfolding shift_down count_levels
  size_at-shift_down q x [] t h = elim h [ ]
  size_at-shift_down q x (l ∷ ls) t h = elim t [
    | inl (e, a) ↦ ground (
      arith,
      size_at-cleared q ls a,
      ap (λ (x : TopLevel). x.size) e,
      size_at-cleared q (shift_down l ls) (shifted l ls e a),
    )
    | inr (s, r, b, rest) ↦ ground (arith, size_at-shift_down q l ls rest)
  ]
    where
      shifted :
          (x : TopLevel) (ls : List TopLevel)
          → IsCleared x
          → All IsCleared ls
          → All IsCleared (shift_down x ls)
      shifted x [] h a = tt
      shifted x (l ∷ ls) h a = (h, shifted l ls a.0 a.1)

-- A cell is free, or the price has one already.
abbrev pub HasPlace : ℕ → List TopLevel → Type 0
HasPlace price ls = (count_levels ls < length ls) ⊎ (0 < size_at price ls)

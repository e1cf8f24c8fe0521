-- ===== src/TopOfBook/Sorted.antt =====
-- The invariant of the arrays of include/top_of_book.hpp.
use hft_trading_system.Prelude.{
  ℕ, ◌<◌, ◌≡◌, refl, Bool, true, ◌||◌, List, [], ◌∷◌, ◌++◌, ◌==◌, arith, All, length, Bool-cases,
  inl, inr, ◌⊎◌, length-append, ap,
}
use hft_trading_system.Book.Lookups.{IsStrictOrder}
use hft_trading_system.TopOfBook.{
  TopLevel, is_empty, cleared, shift_down, remove_level, place_level, set_side,
}

-- Cells from the first empty one on are cleared.
abbrev pub IsCleared : TopLevel → Type 0
IsCleared l = l ≡ cleared

module _ (c : ℕ → ℕ → Bool) where
  -- A cell that is not empty stands behind the price.
  abbrev pub IsBehind : ℕ → TopLevel → Type 0
  IsBehind p l = IsCleared l ⊎ ((0 < l.size) × (0 < l.price) × (c p l.price ≡ true))

  -- Filled cells strictly in the order of the side, and cleared cells after them.
  abbrev pub IsTop : List TopLevel → Type 0
  IsTop [] = Unit
  IsTop (l ∷ ls) =
      (IsCleared l × All IsCleared ls)
      ⊎ ((0 < l.size) × (0 < l.price) × All (IsBehind l.price) ls × IsTop ls)

module _ (c : ℕ → ℕ → Bool) (order : IsStrictOrder c) where
  All-cleared-IsTop : (ls : List TopLevel) → All IsCleared ls → IsTop c ls
  All-cleared-IsTop [] a = tt
  All-cleared-IsTop (l ∷ ls) a = inl (a.0, a.1)

  All-cleared-IsBehind : (p : ℕ) (ls : List TopLevel) → All IsCleared ls → All (IsBehind c p) ls
  All-cleared-IsBehind p [] a = tt
  All-cleared-IsBehind p (l ∷ ls) a = (inl a.0, All-cleared-IsBehind p ls a.1)

  IsBehind-further :
      (p q : ℕ) (ls : List TopLevel) → c p q ≡ true → All (IsBehind c q) ls → All (IsBehind c p) ls
  IsBehind-further p q [] h a = tt
  IsBehind-further p q (l ∷ ls) h a = (
    elim (a.0) [ inl e ↦ inl e | inr (s, z, b) ↦ inr (s, z, order.trans p q l.price h b) ],
    IsBehind-further p q ls h a.1,
  )

  append_cleared :
      (p : ℕ) (ls : List TopLevel) → All (IsBehind c p) ls → All (IsBehind c p) (ls ++ cleared ∷ [])
  append_cleared p [] a = (inl refl, tt)
  append_cleared p (l ∷ ls) a = (a.0, append_cleared p ls a.1)

  All-cleared-append : (ls : List TopLevel) → All IsCleared ls → All IsCleared (ls ++ cleared ∷ [])
  All-cleared-append [] a = (refl, tt)
  All-cleared-append (l ∷ ls) a = (a.0, All-cleared-append ls a.1)

  IsTop-append : (ls : List TopLevel) → IsTop c ls → IsTop c (ls ++ cleared ∷ [])
  IsTop-append [] t = inl (refl, tt)
  IsTop-append (l ∷ ls) t = elim t [
    | inl (e, a) ↦ inl (e, All-cleared-append ls a)
    | inr (s, z, b, r) ↦ inr (s, z, append_cleared l.price ls b, IsTop-append ls r)
  ]

  remove-IsBehind :
      (p price : ℕ) (ls : List TopLevel)
      → All (IsBehind c p) ls
      → All (IsBehind c p) (remove_level price ls)
  unfolding remove_level
  remove-IsBehind p price [] a = tt
  remove-IsBehind p price (l ∷ ls) a = elim (Bool-cases (l.price == price)) [
    | inl e ↦ rw e (append_cleared p ls a.1)
    | inr e ↦ rw e (a.0, remove-IsBehind p price ls a.1)
  ]

  remove-IsCleared :
      (price : ℕ) (ls : List TopLevel) → All IsCleared ls → All IsCleared (remove_level price ls)
  unfolding remove_level
  remove-IsCleared price [] a = tt
  remove-IsCleared price (l ∷ ls) a = elim (Bool-cases (l.price == price)) [
    | inl e ↦ rw e (All-cleared-append ls a.1)
    | inr e ↦ rw e (a.0, remove-IsCleared price ls a.1)
  ]

  pub remove_level-IsTop :
      (price : ℕ) (ls : List TopLevel) → IsTop c ls → IsTop c (remove_level price ls)
  unfolding remove_level
  remove_level-IsTop price [] t = tt
  remove_level-IsTop price (l ∷ ls) t = elim (Bool-cases (l.price == price)) [
    | inl e ↦ rw e (elim t [
      | inl (_, a) ↦ All-cleared-IsTop (ls ++ cleared ∷ []) (All-cleared-append ls a)
      | inr (_, _, _, r) ↦ IsTop-append ls r
    ])
    | inr e ↦ rw e (elim t [
      | inl (z, a) ↦ inl (z, remove-IsCleared price ls a)
      | inr (s, z, b, r) ↦
          inr (s, z, remove-IsBehind l.price price ls b, remove_level-IsTop price ls r)
    ])
  ]

  shift-IsBehind :
      (p : ℕ) (x : TopLevel) (ls : List TopLevel)
      → IsBehind c p x
      → All (IsBehind c p) ls
      → All (IsBehind c p) (shift_down x ls)
  unfolding shift_down
  shift-IsBehind p x [] h a = tt
  shift-IsBehind p x (l ∷ ls) h a = (h, shift-IsBehind p l ls a.0 a.1)

  shift-IsCleared :
      (x : TopLevel) (ls : List TopLevel)
      → IsCleared x
      → All IsCleared ls
      → All IsCleared (shift_down x ls)
  unfolding shift_down
  shift-IsCleared x [] h a = tt
  shift-IsCleared x (l ∷ ls) h a = (h, shift-IsCleared l ls a.0 a.1)

  shift-IsTop :
      (x : TopLevel) (ls : List TopLevel)
      → 0 < x.size
      → 0 < x.price
      → All (IsBehind c x.price) ls
      → IsTop c ls
      → IsTop c (shift_down x ls)
  unfolding shift_down
  shift-IsTop x [] s z a t = tt
  shift-IsTop x (l ∷ ls) s z a t = inr (
    s,
    z,
    shift-IsBehind x.price l ls a.0 a.1,
    elim t [
      | inl (e, cs) ↦ All-cleared-IsTop (shift_down l ls) (shift-IsCleared l ls e cs)
      | inr (ls_size, ls_price, b, r) ↦ shift-IsTop l ls ls_size ls_price b r
    ],
  )

  module _ (price size : ℕ) (real : 0 < price) (some_size : 0 < size) where
    abbrev entry : TopLevel
    entry = record { price = price; size = size }

    place-IsBehind :
        (p : ℕ) (ls : List TopLevel)
        → c p price ≡ true
        → All (IsBehind c p) ls
        → All (IsBehind c p) (place_level c price size ls)
    unfolding place_level
    place-IsBehind p [] h a = tt
    place-IsBehind p (l ∷ ls) h a = elim (Bool-cases (l.price == price)) [
      | inl e ↦ rw e (inr (some_size, ground (arith, real), ground (arith, h)), a.1)
      | inr e ↦ rw e (elim (Bool-cases (c price l.price || is_empty l)) [
        | inl here ↦ rw here (shift-IsBehind p entry (l ∷ ls) (inr (some_size, real, h)) a)
        | inr on ↦ rw on (a.0, place-IsBehind p ls h a.1)
      ])
    ]

    -- All of a sorted array stands behind a price that its first cell is behind, or that is cleared.
    pub top-IsBehind :
        (l : TopLevel) (ls : List TopLevel)
        → IsTop c (l ∷ ls)
        → (c price l.price || is_empty l) ≡ true
        → All (IsBehind c price) (l ∷ ls)
    top-IsBehind l ls t h = elim t [
      | inl (e, a) ↦ (inl e, All-cleared-IsBehind price ls a)
      | inr (s, z, b, r) ↦
          let before : c price l.price ≡ true = ground arith in
          (inr (s, z, before), IsBehind-further price l.price ls before b)
    ]

    pub place_level-IsTop :
        (ls : List TopLevel) → IsTop c ls → IsTop c (place_level c price size ls)
    unfolding place_level
    place_level-IsTop [] t = tt
    place_level-IsTop (l ∷ ls) t = elim (Bool-cases (l.price == price)) [
      | inl e ↦ rw e (elim t [
        | inl (z, _) ↦ absurd (ground (arith, real, ap (λ (x : TopLevel). x.price) z))
        | inr (s, z, b, r) ↦ inr (some_size, z, b, r)
      ])
      | inr e ↦ rw e (elim (Bool-cases (c price l.price || is_empty l)) [
        | inl here ↦
            rw here (shift-IsTop entry (l ∷ ls) some_size real (top-IsBehind l ls t here) t)
        | inr on ↦ rw on (elim t [
          | inl (z, _) ↦ absurd (ground (arith, ap (λ (x : TopLevel). x.size) z))
          | inr (s, z, b, r) ↦
              let after : c l.price price ≡ true =
                order.total price l.price (ground arith) (ground arith) in
              inr (s, z, place-IsBehind l.price ls after b, place_level-IsTop ls r)
        ])
      ])
    ]

-- Every update keeps the number of cells.
length-shift_down : (x : TopLevel) (ls : List TopLevel) → length (shift_down x ls) ≡ length ls
unfolding shift_down
length-shift_down x [] = refl
length-shift_down x (l ∷ ls) = ground (arith, length-shift_down l ls)

pub length-set_side :
    (c : ℕ → ℕ → Bool) (price size : ℕ) (ls : List TopLevel)
    → length (set_side c price size ls) ≡ length ls
unfolding set_side remove_level place_level
length-set_side c price size [] = ground arith
length-set_side c price size (l ∷ ls) = ground (
  arith,
  length-set_side c price size ls,
  length-append ls (cleared ∷ []),
  length-shift_down (record { price = price; size = size }) (l ∷ ls),
)

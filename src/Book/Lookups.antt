-- ===== src/Book/Lookups.antt =====
-- The lookups in a list of the price levels of include/book_side.hpp, and the orders they are
-- sorted by.
use hft_trading_system.Prelude.{
  ℕ, ◌≡◌, ◌≢◌, refl, Bool, true, false, none, some, List, [], ◌∷◌, if◌then◌else◌, ◌==◌, arith, All,
}
use hft_trading_system.Types.{PriceLevel}
use hft_trading_system.Book.{
  level_at, insert_sorted, update_at, remove_at, bid_compare, ask_compare,
}

-- What the comparison of a side has to be.
pub record IsStrictOrder (c : ℕ → ℕ → Bool) : Type 0 where
  pub irrefl : (a : ℕ) → c a a ≡ false
  pub trans : (a b d : ℕ) → c a b ≡ true → c b d ≡ true → c a d ≡ true
  pub total : (a b : ℕ) → c a b ≡ false → a ≢ b → c b a ≡ true

pub bid_compare-IsStrictOrder : IsStrictOrder bid_compare
unfolding bid_compare
bid_compare-IsStrictOrder = record {
  irrefl = λ a. ground arith;
  trans = λ a b d p q. ground arith;
  total = λ a b p q. ground arith;
}

pub ask_compare-IsStrictOrder : IsStrictOrder ask_compare
unfolding ask_compare
ask_compare-IsStrictOrder = record {
  irrefl = λ a. ground arith;
  trans = λ a b d p q. ground arith;
  total = λ a b p q. ground arith;
}

module _ (c : ℕ → ℕ → Bool) where
  -- Every level of the list is behind the price.
  abbrev pub Behind : ℕ → List PriceLevel → Type 0
  Behind p ls = All (λ l. c p l.price ≡ true) ls

  -- Best first, and no price twice.
  abbrev pub IsSorted : List PriceLevel → Type 0
  IsSorted [] = Unit
  IsSorted (l ∷ ls) = Behind l.price ls × IsSorted ls

-- A write that keeps the price of a level.
abbrev pub KeepsPrice : (PriceLevel → PriceLevel) → Type 0
KeepsPrice f = (l : PriceLevel) → (f l).price ≡ l.price

pub level_at-price :
    (p : ℕ) (ls : List PriceLevel) {l : PriceLevel} → level_at p ls ≡ some l → l.price ≡ p
unfolding level_at
level_at-price p [] h = cc
level_at-price p (m ∷ ls) {l} h = ground (arith, level_at-price p ls {l = l})

pub level_at-update_at :
    (p q : ℕ) (f : PriceLevel → PriceLevel) (ls : List PriceLevel) {l : PriceLevel}
    → KeepsPrice f
    → level_at q ls ≡ some l
    → level_at p (update_at q f ls) ≡ (if p == q then some (f l) else level_at p ls)
unfolding level_at update_at
level_at-update_at p q f [] k h = cc
level_at-update_at p q f (m ∷ ls) {l} k h =
    ground (arith, k m, k l, level_at-update_at p q f ls {l = l} k)

pub level_at-insert_sorted :
    (p : ℕ) (c : ℕ → ℕ → Bool) (l : PriceLevel) (ls : List PriceLevel)
    → level_at l.price ls ≡ none
    → level_at p (insert_sorted c l ls) ≡ (if p == l.price then some l else level_at p ls)
unfolding level_at insert_sorted
level_at-insert_sorted p c l [] h = refl
level_at-insert_sorted p c l (m ∷ ls) h = ground (arith, level_at-insert_sorted p c l ls)

module _ (c : ℕ → ℕ → Bool) (order : IsStrictOrder c) where
  pub Behind-level_at :
      (p q : ℕ) (ls : List PriceLevel) {l : PriceLevel}
      → Behind c p ls
      → level_at q ls ≡ some l
      → c p q ≡ true
  unfolding level_at
  Behind-level_at p q [] b h = cc
  Behind-level_at p q (m ∷ ls) {l} b h = ground (arith, Behind-level_at p q ls {l = l} b.1)

  pub Behind-none : (p : ℕ) (ls : List PriceLevel) → Behind c p ls → level_at p ls ≡ none
  unfolding level_at
  Behind-none p [] b = refl
  Behind-none p (m ∷ ls) b = ground (arith, order.irrefl p, Behind-none p ls b.1)

  pub level_at-remove_at :
      (p q : ℕ) (ls : List PriceLevel)
      → IsSorted c ls
      → level_at p (remove_at q ls) ≡ (if p == q then none else level_at p ls)
  unfolding level_at remove_at
  level_at-remove_at p q [] s = ground arith
  level_at-remove_at p q (m ∷ ls) s =
      ground (arith, Behind-none m.price ls s.0, level_at-remove_at p q ls s.1)

  Behind-trans : (p q : ℕ) (ls : List PriceLevel) → c p q ≡ true → Behind c q ls → Behind c p ls
  Behind-trans p q [] h b = tt
  Behind-trans p q (m ∷ ls) h b = (order.trans p q m.price h b.0, Behind-trans p q ls h b.1)

  Behind-insert_sorted :
      (p : ℕ) (l : PriceLevel) (ls : List PriceLevel)
      → c p l.price ≡ true
      → Behind c p ls
      → Behind c p (insert_sorted c l ls)
  unfolding insert_sorted
  Behind-insert_sorted p l [] h b = (h, tt)
  Behind-insert_sorted p l (m ∷ ls) h b = ground (arith, Behind-insert_sorted p l ls h b.1)

  Behind-update_at :
      (p q : ℕ) (f : PriceLevel → PriceLevel) (ls : List PriceLevel)
      → KeepsPrice f
      → Behind c p ls
      → Behind c p (update_at q f ls)
  unfolding update_at
  Behind-update_at p q f [] k b = tt
  Behind-update_at p q f (m ∷ ls) k b = ground (arith, k m, Behind-update_at p q f ls k b.1)

  Behind-remove_at : (p q : ℕ) (ls : List PriceLevel) → Behind c p ls → Behind c p (remove_at q ls)
  unfolding remove_at
  Behind-remove_at p q [] b = tt
  Behind-remove_at p q (m ∷ ls) b = ground (arith, Behind-remove_at p q ls b.1)

  pub IsSorted-insert_sorted :
      (l : PriceLevel) (ls : List PriceLevel)
      → level_at l.price ls ≡ none
      → IsSorted c ls
      → IsSorted c (insert_sorted c l ls)
  unfolding insert_sorted level_at
  IsSorted-insert_sorted l [] h s = (tt, tt)
  IsSorted-insert_sorted l (m ∷ ls) h s = ground (
    arith,
    order.total m.price l.price,
    Behind-trans l.price m.price ls,
    Behind-insert_sorted m.price l ls,
    IsSorted-insert_sorted l ls,
  )

  pub IsSorted-update_at :
      (q : ℕ) (f : PriceLevel → PriceLevel) (ls : List PriceLevel)
      → KeepsPrice f
      → IsSorted c ls
      → IsSorted c (update_at q f ls)
  unfolding update_at
  IsSorted-update_at q f [] k s = tt
  IsSorted-update_at q f (m ∷ ls) k s =
      ground (arith, k m, Behind-update_at m.price q f ls k s.0, IsSorted-update_at q f ls k s.1)

  pub IsSorted-remove_at :
      (q : ℕ) (ls : List PriceLevel) → IsSorted c ls → IsSorted c (remove_at q ls)
  unfolding remove_at
  IsSorted-remove_at q [] s = tt
  IsSorted-remove_at q (m ∷ ls) s =
      ground (arith, Behind-remove_at m.price q ls s.0, IsSorted-remove_at q ls s.1)

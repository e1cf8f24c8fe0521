-- ===== src/Book/Levels.antt =====
-- Laws of the list of levels of include/book_side.hpp: what a write keeps of it, and what undoes
-- it.
use hft_trading_system.Prelude.{
  ℕ, ◌+◌, ◌≡◌, refl, Bool, true, none, some, List, [], ◌∷◌, ◌==◌, arith, length, All, ap, sym,
  subst, Bool-cases, inl, inr,
}
use hft_trading_system.Types.{PriceLevel}
use hft_trading_system.Book.{level_at, insert_sorted, update_at, remove_at}
use hft_trading_system.Book.Lookups.{KeepsPrice}

-- What holds of every level.
module _ {ℓ} (P : PriceLevel → Type ℓ) where
  pub All-level_at :
      (p : ℕ) (ls : List PriceLevel) {l : PriceLevel} → All P ls → level_at p ls ≡ some l → P l
  unfolding level_at
  All-level_at p [] a h = cc
  All-level_at p (m ∷ ls) {l} a h = elim (Bool-cases (p == m.price)) [
    | inl e ↦ subst P (ground arith) a.0
    | inr e ↦ All-level_at p ls a.1 (ground arith)
  ]

  pub All-update_at :
      (q : ℕ) (f : PriceLevel → PriceLevel) (ls : List PriceLevel) {l : PriceLevel}
      → level_at q ls ≡ some l
      → P (f l)
      → All P ls
      → All P (update_at q f ls)
  unfolding level_at update_at
  All-update_at q f [] e h a = tt
  All-update_at q f (m ∷ ls) {l} e h a = elim (Bool-cases (q == m.price)) [
    | inl hit ↦ rw hit (subst (λ x. P (f x)) (ground arith) h, a.1)
    | inr miss ↦ rw miss (a.0, All-update_at q f ls (ground arith) h a.1)
  ]

  -- A level that is good only once it has been written to.
  pub All-update_at-insert_sorted :
      (c : ℕ → ℕ → Bool) (f : PriceLevel → PriceLevel) (l : PriceLevel) (ls : List PriceLevel)
      → level_at l.price ls ≡ none
      → P (f l)
      → All P ls
      → All P (update_at l.price f (insert_sorted c l ls))
  unfolding level_at insert_sorted update_at
  All-update_at-insert_sorted c f l [] e h a = ground (arith)
  All-update_at-insert_sorted c f l (m ∷ ls) e h a =
      ground (arith, All-update_at-insert_sorted c f l ls)

  pub All-remove_at : (q : ℕ) (ls : List PriceLevel) → All P ls → All P (remove_at q ls)
  unfolding remove_at
  All-remove_at q [] a = tt
  All-remove_at q (m ∷ ls) a = ground (arith, All-remove_at q ls a.1)

pub length-update_at :
    (q : ℕ) (f : PriceLevel → PriceLevel) (ls : List PriceLevel)
    → length (update_at q f ls) ≡ length ls
unfolding update_at
length-update_at q f [] = refl
length-update_at q f (m ∷ ls) = ground (arith, length-update_at q f ls)

pub length-insert_sorted :
    (c : ℕ → ℕ → Bool) (l : PriceLevel) (ls : List PriceLevel)
    → length (insert_sorted c l ls) ≡ length ls + 1
unfolding insert_sorted
length-insert_sorted c l [] = refl
length-insert_sorted c l (m ∷ ls) = ground (arith, length-insert_sorted c l ls)

pub length-remove_at :
    (q : ℕ) (ls : List PriceLevel) {l : PriceLevel}
    → level_at q ls ≡ some l
    → length (remove_at q ls) + 1 ≡ length ls
unfolding remove_at level_at
length-remove_at q [] h = cc
length-remove_at q (m ∷ ls) {l} h = ground (arith, length-remove_at q ls {l = l})

-- What was written to a level goes with it.
pub remove_at-update_at :
    (q : ℕ) (f : PriceLevel → PriceLevel) (ls : List PriceLevel)
    → KeepsPrice f
    → remove_at q (update_at q f ls) ≡ remove_at q ls
unfolding remove_at update_at
remove_at-update_at q f [] k = refl
remove_at-update_at q f (m ∷ ls) k = ground (arith, k m, remove_at-update_at q f ls k)

pub remove_at-insert_sorted :
    (c : ℕ → ℕ → Bool) (l : PriceLevel) (ls : List PriceLevel)
    → level_at l.price ls ≡ none
    → remove_at l.price (insert_sorted c l ls) ≡ ls
unfolding remove_at insert_sorted level_at
remove_at-insert_sorted c l [] h = ground arith
remove_at-insert_sorted c l (m ∷ ls) h = ground (arith, remove_at-insert_sorted c l ls)

-- Two writes of which the second undoes the first.
pub update_at-undo :
    (q : ℕ) (f g : PriceLevel → PriceLevel) (ls : List PriceLevel) {l : PriceLevel}
    → KeepsPrice f
    → level_at q ls ≡ some l
    → g (f l) ≡ l
    → update_at q g (update_at q f ls) ≡ ls
unfolding level_at update_at
update_at-undo q f g [] k e h = refl
update_at-undo q f g (m ∷ ls) {l} k e h = elim (Bool-cases (q == m.price)) [
  | inl hit ↦
      let same : m ≡ l = ground arith in
      let still : (q == (f m).price) ≡ true = ground (arith, k m) in
      rw (hit, still) (ap (λ x. x ∷ ls) (subst (λ x. g (f x) ≡ x) (sym same) h))
  | inr miss ↦ rw (miss, miss) (ap (λ xs. m ∷ xs) (update_at-undo q f g ls k (ground arith) h))
]

-- Two writes at once.
pub update_at-update_at :
    (q : ℕ) (f g h : PriceLevel → PriceLevel) (ls : List PriceLevel) {l : PriceLevel}
    → KeepsPrice f
    → level_at q ls ≡ some l
    → g (f l) ≡ h l
    → update_at q g (update_at q f ls) ≡ update_at q h ls
unfolding level_at update_at
update_at-update_at q f g h [] k e same = refl
update_at-update_at q f g h (m ∷ ls) {l} k e same = elim (Bool-cases (q == m.price)) [
  | inl hit ↦
      let m_eq : m ≡ l = ground arith in
      let still : (q == (f m).price) ≡ true = ground (arith, k m) in
      rw (hit, still) (ap (λ x. x ∷ ls) (subst (λ x. g (f x) ≡ h x) (sym m_eq) same))
  | inr miss ↦
      rw (miss, miss) (ap (λ xs. m ∷ xs) (update_at-update_at q f g h ls k (ground arith) same))
]

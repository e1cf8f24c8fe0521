-- ===== src/Book/Queue.antt =====
-- Lemmas on the queue of one price level (include/orderbook.hpp, the order-level list operations).
use hft_trading_system.Prelude.{
  ℕ, ◌+◌, ◌≤◌, ◌≡◌, refl, none, some, List, [], ◌∷◌, ◌++◌, if◌then◌else◌, ◌==◌, arith, length, All,
  subst, Bool-cases, inl, inr,
}
use hft_trading_system.Types.{Order}
use hft_trading_system.Book.Level.{find, erase, update}

-- The volume that a queue holds.
abbrev pub volume : List Order → ℕ
volume [] = 0
volume (o ∷ os) = o.quantity + volume os

abbrev pub DistinctIds : List Order → Type 0
DistinctIds [] = Unit
DistinctIds (o ∷ os) = (find o.id os ≡ none) × DistinctIds os

pub find-id : (id : ℕ) (os : List Order) {o : Order} → find id os ≡ some o → o.id ≡ id
unfolding find
find-id id [] h = cc
find-id id (x ∷ os) {o} h = ground (arith, find-id id os {o = o})

pub find-append :
    (j : ℕ) (os : List Order) (o : Order)
    → find o.id os ≡ none
    → find j (os ++ o ∷ []) ≡ (if j == o.id then some o else find j os)
unfolding find
find-append j [] o h = refl
find-append j (x ∷ os) o h = ground (arith, find-append j os o)

pub find-erase :
    (j id : ℕ) (os : List Order)
    → DistinctIds os
    → find j (erase id os) ≡ (if j == id then none else find j os)
unfolding find erase
find-erase j id [] d = ground arith
find-erase j id (x ∷ os) d = ground (arith, find-erase j id os d.1)

-- A write to one order, which keeps its id.
module _ (f : Order → Order) (keeps : (o : Order) → (f o).id ≡ o.id) where
  pub find-update :
      (j id : ℕ) (os : List Order) {o : Order}
      → find id os ≡ some o
      → find j (update id f os) ≡ (if j == id then some (f o) else find j os)
  unfolding find update
  find-update j id [] h = cc
  find-update j id (x ∷ os) {o} h = ground (arith, keeps x, keeps o, find-update j id os {o = o})

  find-none-update :
      (j id : ℕ) (os : List Order) → find j os ≡ none → find j (update id f os) ≡ none
  unfolding find update
  find-none-update j id [] h = refl
  find-none-update j id (x ∷ os) h = ground (arith, keeps x, find-none-update j id os)

  pub DistinctIds-update :
      (id : ℕ) (os : List Order) → DistinctIds os → DistinctIds (update id f os)
  unfolding update
  DistinctIds-update id [] d = tt
  DistinctIds-update id (x ∷ os) d =
      ground (arith, keeps x, find-none-update x.id id os d.0, DistinctIds-update id os d.1)

pub volume-append : (os : List Order) (o : Order) → volume (os ++ o ∷ []) ≡ volume os + o.quantity
volume-append [] o = omega arith
volume-append (x ∷ os) o = omega (arith, volume-append os o)

pub volume-erase :
    (id : ℕ) (os : List Order) {o : Order}
    → find id os ≡ some o
    → volume (erase id os) + o.quantity ≡ volume os
unfolding find erase
volume-erase id [] h = cc
volume-erase id (x ∷ os) {o} h = ground (arith, volume-erase id os {o = o})

pub volume-update :
    (f : Order → Order) (id : ℕ) (os : List Order) {o : Order}
    → find id os ≡ some o
    → volume (update id f os) + o.quantity ≡ volume os + (f o).quantity
unfolding find update
volume-update f id [] h = cc
volume-update f id (x ∷ os) {o} h = ground (arith, volume-update f id os {o = o})

pub DistinctIds-append :
    (os : List Order) (o : Order)
    → find o.id os ≡ none
    → DistinctIds os
    → DistinctIds (os ++ o ∷ [])
unfolding find
DistinctIds-append [] o h d = (refl, tt)
DistinctIds-append (x ∷ os) o h d = ground (arith, find-append x.id os o, DistinctIds-append os o)

pub DistinctIds-erase : (id : ℕ) (os : List Order) → DistinctIds os → DistinctIds (erase id os)
unfolding erase
DistinctIds-erase id [] d = tt
DistinctIds-erase id (x ∷ os) d =
    ground (arith, find-erase x.id id os d.1, DistinctIds-erase id os d.1)

module _ {ℓ} (P : Order → Type ℓ) where
  pub All-find : (id : ℕ) (os : List Order) {o : Order} → All P os → find id os ≡ some o → P o
  unfolding find
  All-find id [] a h = cc
  All-find id (x ∷ os) {o} a h = elim (Bool-cases (id == x.id)) [
    | inl e ↦ subst P (ground arith) a.0
    | inr e ↦ All-find id os a.1 (ground arith)
  ]

  pub All-erase : (id : ℕ) (os : List Order) → All P os → All P (erase id os)
  unfolding erase
  All-erase id [] a = tt
  All-erase id (x ∷ os) a = ground (arith, All-erase id os a.1)

  pub All-update :
      (f : Order → Order) (id : ℕ) (os : List Order) {o : Order}
      → find id os ≡ some o
      → P (f o)
      → All P os
      → All P (update id f os)
  unfolding find update
  All-update f id [] e h a = tt
  All-update f id (x ∷ os) {o} e h a = elim (Bool-cases (id == x.id)) [
    | inl hit ↦ rw hit (subst (λ y. P (f y)) (ground arith) h, a.1)
    | inr miss ↦ rw miss (a.0, All-update f id os (ground arith) h a.1)
  ]

pub length-update :
    (id : ℕ) (f : Order → Order) (os : List Order) → length (update id f os) ≡ length os
unfolding update
length-update id f [] = refl
length-update id f (x ∷ os) = ground (arith, length-update id f os)

pub volume_of_find :
    (id : ℕ) (os : List Order) {o : Order} → find id os ≡ some o → o.quantity ≤ volume os
unfolding find
volume_of_find id [] h = cc
volume_of_find id (x ∷ os) {o} h = ground (arith, volume_of_find id os {o = o})

pub erase-append :
    (os : List Order) (o : Order) → find o.id os ≡ none → erase o.id (os ++ o ∷ []) ≡ os
unfolding find erase
erase-append [] o h = ground arith
erase-append (x ∷ os) o h = ground (arith, erase-append os o)

pub erase-update :
    (id : ℕ) (f : Order → Order) (os : List Order)
    → ((o : Order) → (f o).id ≡ o.id)
    → erase id (update id f os) ≡ erase id os
unfolding erase update
erase-update id f [] k = refl
erase-update id f (x ∷ os) k = ground (arith, k x, erase-update id f os k)

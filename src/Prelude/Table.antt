-- ===== src/Prelude/Table.antt =====
-- A map from numbers, as the list of its entries in the order of iteration.
use Prim.Native.Nat.{ℕ}
use mathlib.Core.Path.{◌≡◌, refl}
use mathlib.Core.Option.{Option, none, some}
use mathlib.Core.List.{List, [], ◌∷◌}
use native.Mathlib.Omega.{arith}
use hft_trading_system.Prelude.Tests.{◌==◌, if◌then◌else◌}

module _ {ℓ} {A : Type ℓ} where
  unfoldable pub get : ℕ → List (ℕ × A) → Option A
  get k [] = none
  get k ((j, a) ∷ t) = let rest = get k t in if k == j then some a else rest

  -- `operator[]` and an assignment
  unfoldable pub put : ℕ → A → List (ℕ × A) → List (ℕ × A)
  put k a [] = (k, a) ∷ []
  put k a ((j, b) ∷ t) = let rest = put k a t in if k == j then (k, a) ∷ t else (j, b) ∷ rest

  unfoldable pub erase : ℕ → List (ℕ × A) → List (ℕ × A)
  erase k [] = []
  erase k ((j, b) ∷ t) = let rest = erase k t in if k == j then rest else (j, b) ∷ rest

  -- a change through the iterator that `find` gives
  unfoldable pub alter : ℕ → (A → A) → List (ℕ × A) → List (ℕ × A)
  alter k f [] = []
  alter k f ((j, b) ∷ t) = let rest = alter k f t in if k == j then (j, f b) ∷ t else (j, b) ∷ rest

  pub get-put :
      (i k : ℕ) (a : A) (t : List (ℕ × A))
      → get i (put k a t) ≡ (if i == k then some a else get i t)
  unfolding get put
  get-put i k a [] = refl
  get-put i k a ((j, b) ∷ t) = ground (arith, get-put i k a t)

  pub get-erase :
      (i k : ℕ) (t : List (ℕ × A)) → get i (erase k t) ≡ (if i == k then none else get i t)
  unfolding get erase
  get-erase i k [] = ground arith
  get-erase i k ((j, b) ∷ t) = ground (arith, get-erase i k t)

  pub get-alter :
      (i k : ℕ) (f : A → A) (t : List (ℕ × A))
      → get i (alter k f t)
        ≡ (if i == k then elim (get i t) [ none ↦ none | some a ↦ some (f a) ] else get i t)
  unfolding get alter
  get-alter i k f [] = ground arith
  get-alter i k f ((j, b) ∷ t) = ground (arith, get-alter i k f t)

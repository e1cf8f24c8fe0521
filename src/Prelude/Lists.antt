-- ===== src/Prelude/Lists.antt =====
-- Lists measured by native numbers, and predicates on all entries.
use Prim.Native.Nat.{ℕ, zero, suc, ◌+◌, ◌-◌, ◌≤◌}
use mathlib.Core.Path.{◌≡◌, refl}
use mathlib.Core.List.{List, [], ◌∷◌, ◌++◌, append_assoc, append-nil}
use mathlib.Core.Option.{Option, none, some}
use native.Mathlib.Omega.{arith}

-- What `simp` needs to know of appended lists.
pub ruleset list_laws = (append_assoc, append-nil)

module _ {ℓ} {A : Type ℓ} where
  abbrev pub length : List A → ℕ
  length [] = 0
  length (x ∷ xs) = suc (length xs)

  abbrev pub get_elem? : List A → ℕ → Option A
  get_elem? [] i = none
  get_elem? (x ∷ xs) zero = some x
  get_elem? (x ∷ xs) (suc i) = get_elem? xs i

  -- A write out of bounds changes nothing.
  abbrev pub set : List A → ℕ → A → List A
  set [] i v = []
  set (x ∷ xs) zero v = v ∷ xs
  set (x ∷ xs) (suc i) v = x ∷ set xs i v

  abbrev pub replicate : ℕ → A → List A
  replicate zero a = []
  replicate (suc n) a = a ∷ replicate n a

  abbrev pub take : ℕ → List A → List A
  take zero xs = []
  take (suc n) [] = []
  take (suc n) (x ∷ xs) = x ∷ take n xs

  abbrev pub drop : ℕ → List A → List A
  drop zero xs = xs
  drop (suc n) [] = []
  drop (suc n) (x ∷ xs) = drop n xs

  pub length-take : (n : ℕ) (xs : List A) → n ≤ length xs → length (take n xs) ≡ n
  length-take zero xs h = refl
  length-take (suc n) [] h = absurd (omega (arith, h))
  length-take (suc n) (x ∷ xs) h = omega (arith, length-take n xs (omega (arith, h)))

  -- A list longer than what is taken or dropped.
  pub take-append : (n : ℕ) (xs ys : List A) → n ≤ length xs → take n (xs ++ ys) ≡ take n xs
  take-append zero xs ys h = refl
  take-append (suc n) [] ys h = absurd (omega (arith, h))
  take-append (suc n) (x ∷ xs) ys h = λ i. x ∷ take-append n xs ys (omega (arith, h)) i

  pub take-all : (n : ℕ) (xs : List A) → length xs ≤ n → take n xs ≡ xs
  take-all zero [] h = refl
  take-all zero (x ∷ xs) h = absurd (omega (arith, h))
  take-all (suc n) [] h = refl
  take-all (suc n) (x ∷ xs) h = λ i. x ∷ take-all n xs (omega (arith, h)) i

  -- What was put in front, of a known length.
  pub take-front : (n : ℕ) (xs ys : List A) → length xs ≡ n → take n (xs ++ ys) ≡ xs
  take-front zero [] ys h = refl
  take-front zero (x ∷ xs) ys h = absurd (omega (arith, h))
  take-front (suc n) [] ys h = absurd (omega (arith, h))
  take-front (suc n) (x ∷ xs) ys h = λ i. x ∷ take-front n xs ys (omega (arith, h)) i

  pub drop-front :
      (k n : ℕ) (xs ys : List A) → length xs ≡ n → n ≤ k → drop k (xs ++ ys) ≡ drop (k - n) ys
  drop-front k n [] ys h le = let all : k - n ≡ k = omega (arith, h) in rw all refl
  drop-front zero n (x ∷ xs) ys h le = absurd (omega (arith, h))
  drop-front (suc k) n (x ∷ xs) ys h le =
      let less : suc k - n ≡ k - (n - 1) = omega (arith, h) in
      rw less (drop-front k (n - 1) xs ys (omega (arith, h)) (omega (arith, h)))

  pub get_elem?-front :
      (k n : ℕ) (xs ys : List A)
      → length xs ≡ n
      → n ≤ k
      → get_elem? (xs ++ ys) k ≡ get_elem? ys (k - n)
  get_elem?-front k n [] ys h le = let all : k - n ≡ k = omega (arith, h) in rw all refl
  get_elem?-front zero n (x ∷ xs) ys h le = absurd (omega (arith, h))
  get_elem?-front (suc k) n (x ∷ xs) ys h le =
      let less : suc k - n ≡ k - (n - 1) = omega (arith, h) in
      rw less (get_elem?-front k (n - 1) xs ys (omega (arith, h)) (omega (arith, h)))

  pub length-replicate : (n : ℕ) (a : A) → length (replicate n a) ≡ n
  length-replicate zero a = refl
  length-replicate (suc n) a = omega (arith, length-replicate n a)

  pub length-append : (xs ys : List A) → length (xs ++ ys) ≡ length xs + length ys
  length-append [] ys = omega arith
  length-append (x ∷ xs) ys = omega (arith, length-append xs ys)

abbrev pub All {ℓ κ} : {A : Type ℓ} → (A → Type κ) → List A → Type κ
All P [] = Unit
All P (x ∷ xs) = P x × All P xs

pub All-append {ℓ κ} :
    {A : Type ℓ} (P : A → Type κ) (xs ys : List A) → All P xs → All P ys → All P (xs ++ ys)
All-append P [] ys hx hy = hy
All-append P (x ∷ xs) ys hx hy = (hx.0, All-append P xs ys hx.1 hy)

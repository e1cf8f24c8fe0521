-- ===== src/RingBuffer/Cells.antt =====
-- Places in the ring of include/ipc/shared_ring_buffer.hpp, and its cells as a list.
use native.Mathlib.Nat.{mod-add-mod, mod-eq_of_lt, mod-eq-sub-mod, mod-lt}
use hft_trading_system.Prelude.{
  ℕ, zero, suc, ◌+◌, ◌-◌, ◌%◌, ◌≤◌, ◌<◌, ◌≡◌, ◌≢◌, refl, sym, ap, ◌∙◌, some, List, [], ◌∷◌, ◌++◌,
  arith, set, get_elem?, length, ltb, Bool-cases, inl, inr, ◌⊎◌, ltb→lt,
}

less_mod :
    (n h k : ℕ) → h < n → k < n → ((h + k) % n ≡ h + k) ⊎ ((n ≤ h + k) × ((h + k) % n ≡ h + k - n))
less_mod n h k hn kn = elim (Bool-cases (ltb (h + k) n)) [
  | inl lt ↦ inl (mod-eq_of_lt (ltb→lt _ _ lt))
  | inr ge ↦
      let le : n ≤ h + k = ground arith in
      inr (le, mod-eq-sub-mod {n = h + k} {m = n} le ∙ mod-eq_of_lt (omega (arith, le, hn, kn)))
]

-- Places less than `n` apart do not meet in the ring.
pub places_differ : (n t j k : ℕ) → j < k → k < n → (t + j) % n ≢ (t + k) % n
places_differ n t j k jk kn e =
    let inside : t % n < n = mod-lt t (omega (arith, jk, kn)) in
    let meet : (t % n + j) % n ≡ (t % n + k) % n =
      mod-add-mod t n j ∙ e ∙ sym (mod-add-mod t n k) in
    apart (t % n) inside meet
  where
    apart : (h : ℕ) → h < n → (h + j) % n ≢ (h + k) % n
    apart h hn meet = elim (less_mod n h j hn (omega (arith, jk, kn))) [
      | inl ej ↦ elim (less_mod n h k hn kn) [
        | inl ek ↦ let same : h + j ≡ h + k = sym ej ∙ meet ∙ ek in absurd (omega (arith, same, jk))
        | inr (le_k, ek) ↦
            let same : h + j ≡ h + k - n = sym ej ∙ meet ∙ ek in
            absurd (omega (arith, same, jk, hn, kn, le_k))
      ]
      | inr (le_j, ej) ↦ elim (less_mod n h k hn kn) [
        | inl ek ↦
            let same : h + j - n ≡ h + k = sym ej ∙ meet ∙ ek in
            absurd (omega (arith, same, jk, hn, kn, le_j))
        | inr (le_k, ek) ↦
            let same : h + j - n ≡ h + k - n = sym ej ∙ meet ∙ ek in
            absurd (omega (arith, same, jk, hn, kn, le_j, le_k))
      ]
    ]

module _ {ℓ} {A : Type ℓ} where
  pub get_elem?-append :
      (xs ys : List A) (i : ℕ) (x : A) → get_elem? xs i ≡ some x → get_elem? (xs ++ ys) i ≡ some x
  get_elem?-append [] ys i x h = cc
  get_elem?-append (y ∷ xs) ys zero x h = h
  get_elem?-append (y ∷ xs) ys (suc i) x h = get_elem?-append xs ys i x h

  pub get_elem?-lt : (xs : List A) (i : ℕ) (x : A) → get_elem? xs i ≡ some x → i < length xs
  get_elem?-lt [] i x h = cc
  get_elem?-lt (y ∷ xs) zero x h = omega arith
  get_elem?-lt (y ∷ xs) (suc i) x h = omega (arith, get_elem?-lt xs i x h)

  -- The entries of a list with one more at its end.
  pub get_elem?-snoc :
      (xs : List A) (y x : A) (i : ℕ)
      → get_elem? (xs ++ y ∷ []) i ≡ some x
      → (get_elem? xs i ≡ some x) ⊎ ((i ≡ length xs) × (y ≡ x))
  get_elem?-snoc [] y x zero h = inr (refl, cc)
  get_elem?-snoc [] y x (suc i) h = cc
  get_elem?-snoc (z ∷ xs) y x zero h = inl h
  get_elem?-snoc (z ∷ xs) y x (suc i) h = elim (get_elem?-snoc xs y x i h) [
    | inl e ↦ inl e
    | inr (e, f) ↦ inr (ap suc e, f)
  ]

  pub length-set : (xs : List A) (i : ℕ) (v : A) → length (set xs i v) ≡ length xs
  length-set [] i v = refl
  length-set (x ∷ xs) zero v = refl
  length-set (x ∷ xs) (suc i) v = ap suc (length-set xs i v)

  pub get_elem?-set_self :
      (xs : List A) (i : ℕ) (v : A) → i < length xs → get_elem? (set xs i v) i ≡ some v
  get_elem?-set_self [] i v h = absurd (omega (arith, h))
  get_elem?-set_self (x ∷ xs) zero v h = refl
  get_elem?-set_self (x ∷ xs) (suc i) v h = get_elem?-set_self xs i v (omega (arith, h))

  pub get_elem?-set_ne :
      (xs : List A) (i j : ℕ) (v : A) → i ≢ j → get_elem? (set xs i v) j ≡ get_elem? xs j
  get_elem?-set_ne [] i j v h = refl
  get_elem?-set_ne (x ∷ xs) zero zero v h = absurd (h refl)
  get_elem?-set_ne (x ∷ xs) zero (suc j) v h = refl
  get_elem?-set_ne (x ∷ xs) (suc i) zero v h = refl
  get_elem?-set_ne (x ∷ xs) (suc i) (suc j) v h = get_elem?-set_ne xs i j v (λ e. h (ap suc e))

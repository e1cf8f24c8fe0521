-- ===== src/Ouch/Session/Token.antt =====
-- The order tokens of include/ouch/ouch_session.hpp.
use native.Mathlib.Nat.{div-div-eq-div-mul}
use hft_trading_system.Prelude.{
  ℕ, zero, suc, ◌+◌, ◌-◌, ◌*◌, ◌/◌, ◌%◌, ◌<◌, ◌≡◌, refl, subst, ap, ◌∙◌, ◌≤◌, get_elem?, Option,
  none, some, sym, List, [], ◌∷◌, arith, take, length, ◌==◌, if◌then◌else◌,
}
use hft_trading_system.Ouch.Session.{Session}

abbrev pub pow10 : ℕ → ℕ
pow10 zero = 1
pow10 (suc k) = pow10 k * 10

-- The last `k` decimal digits.
abbrev pub digits : ℕ → ℕ → List ℕ
digits zero n = []
digits (suc k) n = (n / pow10 k % 10 + 48) ∷ digits k n

-- At most so many zeros off the front.
abbrev without_zeros : ℕ → List ℕ → List ℕ
without_zeros zero ds = ds
without_zeros (suc k) [] = []
without_zeros (suc k) (d ∷ ds) = let rest = without_zeros k ds in if d == 48 then rest else d ∷ ds

-- `snprintf(token, size + 1, "%014lu", id)`: a 64-bit number has 20 digits at most.
unfoldable pub printed : ℕ → ℕ → List ℕ
printed size id = take size (without_zeros 6 (digits 20 id))

unfoldable pub generate_token : Session → ℕ → Session × List ℕ
unfolding printed
generate_token s size = (
  record s { next_token_id = (s.next_token_id + 1) % 18446744073709551616 },
  printed size s.next_token_id,
)

-- The number that decimal digits go on with.
abbrev pub value : ℕ → List ℕ → ℕ
value acc [] = acc
value acc (d ∷ ds) = value (acc * 10 + (d - 48)) ds

padded_digits : (n : ℕ) → n < 100000000000000 → printed 14 n ≡ digits 14 n
unfolding printed
padded_digits n h =
    let z19 : n / 10000000000000000000 ≡ 0 = omega (arith, h) in
    let z18 : n / 1000000000000000000 ≡ 0 = omega (arith, h) in
    let z17 : n / 100000000000000000 ≡ 0 = omega (arith, h) in
    let z16 : n / 10000000000000000 ≡ 0 = omega (arith, h) in
    let z15 : n / 1000000000000000 ≡ 0 = omega (arith, h) in
    let z14 : n / 100000000000000 ≡ 0 = omega (arith, h) in rw (z19, z18, z17, z16, z15, z14) refl

value-digits : (k n : ℕ) → value (n / pow10 k) (digits k n) ≡ n
value-digits zero n = omega arith
value-digits (suc k) n =
    let next : n / pow10 (suc k) * 10 + (n / pow10 k % 10 + 48 - 48) ≡ n / pow10 k =
      omega (arith, div-div-eq-div-mul n (pow10 k) 10) in
    ap (λ (a : ℕ). value a (digits k n)) next ∙ value-digits k n

-- The token of one call.
generate_token_lem :
    (s : Session)
    → s.next_token_id < 100000000000000
    → let (s', token) = generate_token s 14 in
      (length token ≡ 14)
      × (value 0 token ≡ s.next_token_id)
      × (s'.next_token_id ≡ s.next_token_id + 1)
unfolding generate_token
generate_token_lem s h =
    let n = s.next_token_id in
    let nothing : n / 100000000000000 ≡ 0 = omega (arith, h) in
    rw (padded_digits n h) (
      refl,
      subst (λ (a : ℕ). value a (digits 14 n) ≡ n) nothing (value-digits 14 n),
      omega (arith, h),
    )

-- The tokens of so many calls.
unfoldable pub tokens : ℕ → Session → List (List ℕ)
tokens zero s = []
tokens (suc count) s = let (s', token) = generate_token s 14 in token ∷ tokens count s'

numbered :
    (count : ℕ) (s : Session)
    → s.next_token_id + count ≤ 100000000000000
    → (i : ℕ) (token : List ℕ) → get_elem? (tokens count s) i ≡ some token
    → (length token ≡ 14) × (value 0 token ≡ s.next_token_id + i)
unfolding tokens
numbered zero s h i token at = cc
numbered (suc count) s h zero token at =
    let (size, is_number, _) = generate_token_lem s (omega (arith, h)) in
    let same : (generate_token s 14).1 ≡ token =
      ap (λ (o : Option (List ℕ)). elim o [ none ↦ [] | some t ↦ t ]) at in
    (ap length (sym same) ∙ size, omega (arith, ap (value 0) same, is_number))
numbered (suc count) s h (suc i) token at =
    let next = (generate_token_lem s (omega (arith, h))).2 in
    let (size, is_number) =
      numbered count (generate_token s 14).0 (omega (arith, next, h)) i token at in
    (size, omega (arith, next, is_number))

-- The tokens of a session are unique: while the number of the next token stays at most 10 ^ 14, no two
-- calls of `generate_token` print the same token. Each has 14 characters, which are the decimal digits
-- of its number.
pub tokens_unique :
    (count : ℕ) (s : Session)
    → s.next_token_id + count ≤ 100000000000000
    → (i j : ℕ) (token : List ℕ) → get_elem? (tokens count s) i ≡ some token
    → get_elem? (tokens count s) j ≡ some token
    → (i ≡ j) × (length token ≡ 14) × (value 0 token ≡ s.next_token_id + i)
tokens_unique count s h i j token at_i at_j =
    let (size, is_i) = numbered count s h i token at_i in
    let (_, is_j) = numbered count s h j token at_j in (omega (arith, is_i, is_j), size, is_i)

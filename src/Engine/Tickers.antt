-- ===== src/Engine/Tickers.antt =====
-- The map from tickers to ids of include/trading_engine.hpp.
use hft_trading_system.Prelude.{
  ℕ, ◌≡◌, refl, sym, arith, Bool, true, false, ◌==◌, ==→eq, if◌then◌else◌, List, [], ◌∷◌, Option,
  some, Bool-cases, inl, inr, if_not, subst,
}
use hft_trading_system.Engine.{same_ticker, find_ticker, put_ticker}

pub same_ticker→eq : (a b : List ℕ) → same_ticker a b ≡ true → a ≡ b
unfolding same_ticker
same_ticker→eq [] [] h = refl
same_ticker→eq [] (b ∷ ys) h = cc
same_ticker→eq (a ∷ xs) [] h = cc
same_ticker→eq (a ∷ xs) (b ∷ ys) h =
    let first : (a == b) ≡ true = ground (arith, h) in
    let rest : same_ticker xs ys ≡ true = ground (arith, h) in
    rw (==→eq a b first, same_ticker→eq xs ys rest) refl

pub find_ticker-put_ticker :
    (k t : List ℕ) (id : ℕ) (ts : List (List ℕ × ℕ))
    → find_ticker k (put_ticker t id ts) ≡ (if same_ticker k t then some id else find_ticker k ts)
unfolding find_ticker put_ticker
find_ticker-put_ticker k t id [] = refl
find_ticker-put_ticker k t id ((t', id') ∷ ts) = elim (Bool-cases (same_ticker t t')) [
  | inl same ↦
      rw (same, same_ticker→eq t t' same)
        (twice (same_ticker k t') (some id) (some id') (find_ticker k ts))
  | inr other ↦
      rw (other, find_ticker-put_ticker k t id ts)
        (swap (same_ticker k t) (same_ticker k t') (some id) (some id') (find_ticker k ts)
          (apart other))
]
  where
    twice :
        (b : Bool) (x y z : Option ℕ)
        → (if b then x else z) ≡ (if b then x else (if b then y else z))
    twice true x y z = refl
    twice false x y z = refl

    swap :
        (b b' : Bool) (x y z : Option ℕ)
        → (b ≡ true → b' ≡ false)
        → (if b' then y else (if b then x else z)) ≡ (if b then x else (if b' then y else z))
    swap true b' x y z h = if_not b' y x (h refl)
    swap false b' x y z h = refl

    apart : same_ticker t t' ≡ false → same_ticker k t ≡ true → same_ticker k t' ≡ false
    apart other same =
        subst (λ (l : List ℕ). same_ticker l t' ≡ false) (sym (same_ticker→eq k t same)) other

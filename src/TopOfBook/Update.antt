-- ===== src/TopOfBook/Update.antt =====
-- What `set_level` of include/top_of_book.hpp does to the sizes that are read at a price.
use hft_trading_system.Prelude.{
  ℕ, ◌<◌, ◌≡◌, refl, Bool, ◌||◌, List, [], ◌∷◌, ◌==◌, if◌then◌else◌, arith, length, Bool-cases, inl,
  inr, ◌⊎◌, ap, ◌∙◌,
}
use hft_trading_system.Types.{Side, buy, sell}
use hft_trading_system.Matching.{opposite}
use hft_trading_system.Book.{bid_compare, ask_compare}
use hft_trading_system.Book.Lookups.{
  IsStrictOrder, bid_compare-IsStrictOrder, ask_compare-IsStrictOrder,
}
use hft_trading_system.TopOfBook.{
  TopLevel, TopOfBook, is_empty, depth, count_levels, place_level, set_side, set_level,
}
use hft_trading_system.TopOfBook.Sorted.{
  IsTop, top-IsBehind, remove_level-IsTop, place_level-IsTop, length-set_side,
}
use hft_trading_system.TopOfBook.Shifts.{
  size_at, size_at-behind, size_at-remove_level, size_at-shift_lossy, size_at-shift_down, HasPlace,
}

module _ (c : ℕ → ℕ → Bool) (order : IsStrictOrder c) (price size : ℕ) (real : 0 < price) where
  size_at-place_level :
      (q : ℕ) (ls : List TopLevel)
      → 0 < size
      → IsTop c ls
      → HasPlace price ls
      → size_at q (place_level c price size ls) ≡ (if q == price then size else size_at q ls)
  unfolding place_level count_levels
  size_at-place_level q [] s t h =
      absurd (elim h [ inl r ↦ omega (arith, r) | inr r ↦ omega (arith, r) ])
  size_at-place_level q (l ∷ ls) s t h = elim (Bool-cases (l.price == price)) [
    | inl e ↦ ground arith
    | inr e ↦ rw e (elim (Bool-cases (c price l.price || is_empty l)) [
      | inl here ↦
          let nothing_there : size_at price (l ∷ ls) ≡ 0 =
            size_at-behind c order price (l ∷ ls) real
              (top-IsBehind c order price size real s l ls t here) in
          let free : count_levels (l ∷ ls) < length (l ∷ ls) = elim h [
            | inl r ↦ r
            | inr r ↦ absurd (omega (arith, r, nothing_there))
          ] in
          rw here (size_at-shift_down c q (record { price = price; size = size }) (l ∷ ls) t free)
      | inr on ↦ rw on (elim t [
        | inl (z, _) ↦ absurd (ground (arith, ap (λ (x : TopLevel). x.size) z))
        | inr (some_size, r, b, rest) ↦
            let place : HasPlace price ls = elim h [
              | inl free ↦ inl (ground arith)
              | inr tracked ↦ inr (ground arith)
            ] in
            ground (arith, size_at-place_level q ls s rest place)
      ])
    ])
  ]

  size_at-set_side :
      (q : ℕ) (ls : List TopLevel)
      → IsTop c ls
      → (size ≡ 0) ⊎ HasPlace price ls
      → size_at q (set_side c price size ls) ≡ (if q == price then size else size_at q ls)
  unfolding set_side
  size_at-set_side q ls t h = elim (Bool-cases (size == 0)) [
    | inl none_left ↦ ground (arith, size_at-remove_level c order q price ls real t)
    | inr some_left ↦
        let place : HasPlace price ls = elim h [ inl z ↦ absurd (ground arith) | inr p ↦ p ] in
        rw some_left (size_at-place_level q ls (ground arith) t place)
  ]

  size_at-place_lossy :
      (q : ℕ) (ls : List TopLevel)
      → let after = size_at q (place_level c price size ls) in
        (after ≡ (if q == price then size else size_at q ls)) ⊎ (after ≡ 0)
  unfolding place_level
  size_at-place_lossy q [] = inr refl
  size_at-place_lossy q (l ∷ ls) = ground (
    arith,
    size_at-place_lossy q ls,
    size_at-shift_lossy q (record { price = price; size = size }) (l ∷ ls),
  )

  size_at-set_lossy :
      (q : ℕ) (ls : List TopLevel)
      → IsTop c ls
      → let after = size_at q (set_side c price size ls) in
        (after ≡ (if q == price then size else size_at q ls)) ⊎ (after ≡ 0)
  unfolding set_side
  size_at-set_lossy q ls t = elim (Bool-cases (size == 0)) [
    | inl none_left ↦ inl (ground (arith, size_at-remove_level c order q price ls real t))
    | inr some_left ↦ rw some_left (size_at-place_lossy q ls)
  ]

  set_side-IsTop : (ls : List TopLevel) → IsTop c ls → IsTop c (set_side c price size ls)
  unfolding set_side
  set_side-IsTop ls t = elim (Bool-cases (size == 0)) [
    | inl none_left ↦ rw none_left (remove_level-IsTop c order price ls t)
    | inr some_left ↦ rw some_left (place_level-IsTop c order price size real (ground arith) ls t)
  ]

abbrev pub side_of : TopOfBook → Side → List TopLevel
side_of t buy = t.bids
side_of t sell = t.asks

pub record IsTopOfBook (t : TopOfBook) : Type 0 where
  pub bids_sorted : IsTop bid_compare t.bids
  pub asks_sorted : IsTop ask_compare t.asks
  pub bids_depth : length t.bids ≡ depth
  pub asks_depth : length t.asks ≡ depth

pub set_level-IsTopOfBook :
    (t : TopOfBook) (side : Side) (price size : ℕ)
    → 0 < price
    → IsTopOfBook t
    → IsTopOfBook (set_level t side price size)
unfolding set_level
set_level-IsTopOfBook t buy price size real v = record {
  bids_sorted =
      set_side-IsTop bid_compare bid_compare-IsStrictOrder price size real t.bids v.bids_sorted;
  asks_sorted = v.asks_sorted;
  bids_depth = length-set_side bid_compare price size t.bids ∙ v.bids_depth;
  asks_depth = v.asks_depth;
}
set_level-IsTopOfBook t sell price size real v = record {
  bids_sorted = v.bids_sorted;
  asks_sorted =
      set_side-IsTop ask_compare ask_compare-IsStrictOrder price size real t.asks v.asks_sorted;
  bids_depth = v.bids_depth;
  asks_depth = length-set_side ask_compare price size t.asks ∙ v.asks_depth;
}

set_level-sizes :
    (t : TopOfBook) (side : Side) (price size : ℕ)
    → 0 < price
    → IsTopOfBook t
    → let after = set_level t side price size in
      let wanted : ℕ → ℕ = λ q. if q == price then size else size_at q (side_of t side) in
      ((size ≡ 0) ⊎ HasPlace price (side_of t side)
        → (q : ℕ) → size_at q (side_of after side) ≡ wanted q)
      × ((q : ℕ)
          → (size_at q (side_of after side) ≡ wanted q) ⊎ (size_at q (side_of after side) ≡ 0))
      × (side_of after (opposite side) ≡ side_of t (opposite side))
unfolding set_level
set_level-sizes t buy price size real v =
    let order = bid_compare-IsStrictOrder in
    (
      λ h q. size_at-set_side bid_compare order price size real q t.bids v.bids_sorted h,
      λ q. size_at-set_lossy bid_compare order price size real q t.bids v.bids_sorted,
      refl,
    )
set_level-sizes t sell price size real v =
    let order = ask_compare-IsStrictOrder in
    (
      λ h q. size_at-set_side ask_compare order price size real q t.asks v.asks_sorted h,
      λ q. size_at-set_lossy ask_compare order price size real q t.asks v.asks_sorted,
      refl,
    )

-- `set_level` at a price that is not 0 keeps both arrays at `DEPTH` cells, the filled cells strictly
-- sorted before the cleared ones. It sets the size shown at its price and changes no other, while the
-- price is tracked, a cell is free or the size is 0. Otherwise each price shows what it should or
-- nothing: the array forgets a level, but never shows a size that is out of date. The other side is
-- not touched.
pub set_level_effect :
    (t : TopOfBook) (side : Side) (price size : ℕ)
    → 0 < price
    → IsTopOfBook t
    → let after = set_level t side price size in
      let wanted : ℕ → ℕ = λ q. if q == price then size else size_at q (side_of t side) in
      IsTopOfBook after
      × ((size ≡ 0) ⊎ HasPlace price (side_of t side)
          → (q : ℕ) → size_at q (side_of after side) ≡ wanted q)
      × ((q : ℕ)
          → (size_at q (side_of after side) ≡ wanted q) ⊎ (size_at q (side_of after side) ≡ 0))
      × (side_of after (opposite side) ≡ side_of t (opposite side))
set_level_effect t side price size real v =
    let r = set_level-sizes t side price size real v in
    (set_level-IsTopOfBook t side price size real v, r.0, r.1, r.2)

-- ===== src/TopOfBook/Tests.antt =====
-- The theorems of include/top_of_book.hpp at a small book.
use hft_trading_system.Prelude.{ℕ, ◌≡◌, refl, arith, ◌⊎◌, inl, if◌then◌else◌, ◌==◌}
use hft_trading_system.Types.{buy, sell}
use hft_trading_system.TopOfBook.{TopOfBook, new, set_level}
use hft_trading_system.TopOfBook.Update.{IsTopOfBook, set_level-IsTopOfBook, set_level_effect}
use hft_trading_system.TopOfBook.Shifts.{size_at, HasPlace}

new-IsTopOfBook : IsTopOfBook new
new-IsTopOfBook = record {
  bids_sorted = inl (refl, (refl, (refl, (refl, (refl, tt)))));
  asks_sorted = inl (refl, (refl, (refl, (refl, (refl, tt)))));
  bids_depth = refl;
  asks_depth = refl;
}

-- A bid of 7 at 100 and an ask of 9 at 104.
abbrev quoted : TopOfBook
quoted = set_level (set_level new buy 100 7) sell 104 9

quoted-IsTopOfBook : IsTopOfBook quoted
quoted-IsTopOfBook =
    set_level-IsTopOfBook (set_level new buy 100 7) sell 104 9 (omega arith)
      (set_level-IsTopOfBook new buy 100 7 (omega arith) new-IsTopOfBook)

set_level_effect_example :
    IsTopOfBook (set_level quoted buy 99 3)
    × (◌≡◌ {A = ℕ} 3 0 ⊎ HasPlace 99 quoted.bids
        → (q : ℕ)
        → size_at q (set_level quoted buy 99 3).bids
          ≡ (if q == 99 then 3 else size_at q quoted.bids))
    × ((q : ℕ)
        → (size_at q (set_level quoted buy 99 3).bids
            ≡ (if q == 99 then 3 else size_at q quoted.bids))
          ⊎ (size_at q (set_level quoted buy 99 3).bids ≡ 0))
    × ((set_level quoted buy 99 3).asks ≡ quoted.asks)
set_level_effect_example = set_level_effect quoted buy 99 3 (omega arith) quoted-IsTopOfBook

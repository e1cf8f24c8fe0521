-- ===== src/Position/Tests.antt =====
-- Fills of include/strategy/position.hpp on concrete trackers.
use hft_trading_system.Prelude.{ℕ, ◌<◌, ◌≡◌, refl, arith, pos, negsuc, ◌+ℤ◌, ◌*ℤ◌, ◌⊎◌, abs}
use hft_trading_system.Types.{buy, sell}
use hft_trading_system.Position.{PositionTracker, flat_tracker, on_fill, total_pnl}
use hft_trading_system.Position.Fill.{worth, on_fill_lem}

-- Ten sold short at 500.
abbrev short_tracker : PositionTracker
short_tracker = record {
  position = negsuc 9;
  avg_price = 500;
  realized_pnl = pos 0;
  total_bought = 0;
  total_sold = 10;
}

opens_short : on_fill flat_tracker sell 10 500 ≡ short_tracker
unfolding on_fill
opens_short = refl

-- The purchase covers the ten with a profit of 1000 and opens a long position of 5.
flips_long : on_fill short_tracker buy 15 400 ≡ record {
  position = pos 5;
  avg_price = 400;
  realized_pnl = pos 1000;
  total_bought = 15;
  total_sold = 10;
}
unfolding on_fill ◌*ℤ◌
flips_long = refl

on_fill_lem_example :
    let t' = on_fill short_tracker buy 15 400 in
    (t'.position ≡ pos 5)
    × (t'.avg_price < 4294967296)
    × ((r : ℕ) × (total_pnl t' 450 ≡ total_pnl short_tracker 450 +ℤ worth 15 400 450 r)
        × ((r ≡ 0) ⊎ (r < abs t'.position)))
on_fill_lem_example = on_fill_lem short_tracker buy 15 400 450 (omega arith) (omega arith)

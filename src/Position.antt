-- ===== src/Position.antt =====
-- include/strategy/position.hpp: the position, the average entry price and the profit of one symbol.
-- An int64_t is an unbounded integer here, and `avg_price_` is a uint32_t.
pub mod Value
pub mod Gains
pub mod Moves
pub mod Buy
pub mod Sell
pub mod Fill
mod Tests
use hft_trading_system.Prelude.{
  ℕ, suc, ◌+◌, ◌-◌, ◌*◌, ◌/◌, ◌%◌, Bool, true, false, ◌==◌, ltb, if◌then◌else◌, min, ℤ, pos, negsuc,
  pos_part, neg_part, abs, ◌+ℤ◌, ◌-ℤ◌, ◌*ℤ◌, ltb_ℤ, u32,
}
use hft_trading_system.Types.{Side, buy, sell}

pub record PositionTracker : Type 0 where
  pub position : ℤ
  pub avg_price : ℕ
  pub realized_pnl : ℤ
  pub total_bought : ℕ
  pub total_sold : ℕ

abbrev pub flat_tracker : PositionTracker
flat_tracker = record {
  position = pos 0;
  avg_price = 0;
  realized_pnl = pos 0;
  total_bought = 0;
  total_sold = 0;
}

-- `static_cast<Price>((old * avg_price_ + qty * price) / all)`
unfoldable pub weighted_price : ℕ → ℕ → ℕ → ℕ → ℕ → ℕ
weighted_price old avg qty price all = u32 ((old * avg + qty * price) / all)

-- Adding to a long position, or opening one: `old` is the position.
unfoldable pub add_long : PositionTracker → ℕ → ℕ → ℕ → PositionTracker
unfolding weighted_price
add_long t old qty price =
    let all = old + qty in
    record t {
      position = pos all;
      avg_price = if ltb 0 all then weighted_price old t.avg_price qty price all else t.avg_price;
    }

-- Covering a short position of the size `short`.
unfoldable pub cover : PositionTracker → ℕ → ℕ → ℕ → PositionTracker
cover t short qty price =
    let cover_qty = min qty short in
    let remaining = qty - cover_qty in
    let realized = t.realized_pnl +ℤ pos cover_qty *ℤ (pos t.avg_price -ℤ pos price) in
    let left = t.position +ℤ pos cover_qty in
    if ltb 0 remaining
    then record t { realized_pnl = realized; position = pos remaining; avg_price = price }
    else record t {
      realized_pnl = realized;
      position = left;
      avg_price = if abs left == 0 then 0 else t.avg_price;
    }

-- `handle_buy` by the sign of the position.
unfoldable pub handle_buy : PositionTracker → ℤ → ℕ → ℕ → PositionTracker
unfolding add_long cover
handle_buy t (pos old) qty price = add_long t old qty price
handle_buy t (negsuc k) qty price = cover t (suc k) qty price

-- Adding to a short position of the size `old`, or opening one.
unfoldable pub add_short : PositionTracker → ℕ → ℕ → ℕ → PositionTracker
unfolding weighted_price
add_short t old qty price =
    let all = old + qty in
    record t {
      position = t.position -ℤ pos qty;
      avg_price = if ltb 0 all then weighted_price old t.avg_price qty price all else t.avg_price;
    }

-- Closing a long position of the size `long`.
unfoldable pub close : PositionTracker → ℕ → ℕ → ℕ → PositionTracker
close t long qty price =
    let close_qty = min qty long in
    let remaining = qty - close_qty in
    let realized = t.realized_pnl +ℤ pos close_qty *ℤ (pos price -ℤ pos t.avg_price) in
    let left = t.position -ℤ pos close_qty in
    if ltb 0 remaining
    then record t { realized_pnl = realized; position = pos 0 -ℤ pos remaining; avg_price = price }
    else record t {
      realized_pnl = realized;
      position = left;
      avg_price = if abs left == 0 then 0 else t.avg_price;
    }

-- `handle_sell` by the sign of the position.
unfoldable pub handle_sell : PositionTracker → ℤ → ℕ → ℕ → PositionTracker
unfolding add_short close
handle_sell t (negsuc k) qty price = add_short t (suc k) qty price
handle_sell t (pos long) qty price =
    if long == 0 then add_short t 0 qty price else close t long qty price

unfoldable pub on_fill : PositionTracker → Side → ℕ → ℕ → PositionTracker
unfolding handle_buy handle_sell
on_fill t buy qty price =
    let t' = handle_buy t t.position qty price in
    record t' { total_bought = (t'.total_bought + qty) % 18446744073709551616 }
on_fill t sell qty price =
    let t' = handle_sell t t.position qty price in
    record t' { total_sold = (t'.total_sold + qty) % 18446744073709551616 }

unfoldable pub unrealized_pnl : PositionTracker → ℕ → ℤ
unrealized_pnl t mark_price =
    if abs t.position == 0 then pos 0 else t.position *ℤ (pos mark_price -ℤ pos t.avg_price)

unfoldable pub total_pnl : PositionTracker → ℕ → ℤ
unfolding unrealized_pnl
total_pnl t mark_price = t.realized_pnl +ℤ unrealized_pnl t mark_price

unfoldable pub is_flat : PositionTracker → Bool
is_flat t = abs t.position == 0

unfoldable pub is_long : PositionTracker → Bool
is_long t = ltb_ℤ (pos 0) t.position

unfoldable pub is_short : PositionTracker → Bool
is_short t = ltb_ℤ t.position (pos 0)

unfoldable pub reset : PositionTracker → PositionTracker
reset t = flat_tracker

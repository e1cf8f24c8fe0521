-- ===== src/Position/Fill.antt =====
-- Each fill of include/strategy/position.hpp, whatever the position before it.
use native.Mathlib.Nat.{}
use hft_trading_system.Prelude.{
  ℕ, suc, ◌+◌, ◌*◌, ◌<◌, ◌≡◌, refl, sym, ap, ◌∙◌, arith, ℤ, pos, negsuc, pos_part, neg_part, abs,
  ◌+ℤ◌, ◌-ℤ◌, int_laws, eq_of_parts, Bool-cases, ◌==◌, ==→eq, inl, inr, ◌⊎◌,
}
use hft_trading_system.Types.{Side, buy, sell}
use hft_trading_system.Position.{
  PositionTracker, add_long, cover, handle_buy, add_short, close, handle_sell, on_fill, total_pnl,
}
use hft_trading_system.Position.Gains.{Gains}
use hft_trading_system.Position.Buy.{add_long-Gains, cover-Gains}
use hft_trading_system.Position.Sell.{add_short-Gains, close-Gains}
use hft_trading_system.Position.Moves.{add_long-moves, add_short-moves, cover-moves, close-moves}

-- A purchase counts as it is, a sale with the opposite sign.
abbrev pub signed : Side → ℤ → ℤ
signed buy z = z
signed sell z = pos 0 -ℤ z

-- What `qty` are worth at `mark` over what was paid at `price`, and what a rounded average adds.
abbrev pub worth : ℕ → ℕ → ℕ → ℕ → ℤ
worth qty price mark r = pos (qty * mark + r) -ℤ pos (qty * price)

abbrev Filled : PositionTracker → PositionTracker → Side → ℕ → ℕ → ℕ → Type 0
Filled t t' side qty price mark =
    (t'.position ≡ t.position +ℤ signed side (pos qty))
    × (t'.avg_price < 4294967296)
    × ((r : ℕ) × (total_pnl t' mark ≡ total_pnl t mark +ℤ signed side (worth qty price mark r))
        × ((r ≡ 0) ⊎ (r < abs t'.position)))

gain→sum :
    (v v' : ℤ) (up down : ℕ)
    → pos_part v' + neg_part v + down ≡ neg_part v' + pos_part v + up
    → v' ≡ v +ℤ (pos up -ℤ pos down)
gain→sum v v' up down h = eq_of_parts v' (v +ℤ (pos up -ℤ pos down)) (omega (int_laws, h))

small_rest : {r n m : ℕ} → ((r ≡ 0) ⊎ (r < n)) → n ≡ m → (r ≡ 0) ⊎ (r < m)
small_rest (inl none) e = inl none
small_rest (inr small) e = inr (omega (arith, small, e))

handle_buy-Filled :
    (t : PositionTracker) (position : ℤ) (qty price mark : ℕ)
    → t.position ≡ position
    → t.avg_price < 4294967296
    → price < 4294967296
    → Filled t (handle_buy t position qty price) buy qty price mark
unfolding handle_buy
handle_buy-Filled t (pos old) qty price mark e ha hp =
    let (r, h, small) = add_long-Gains t old qty price mark e ha hp in
    let (moves, fits) = add_long-moves t old qty price e ha in
    let t' = add_long t old qty price in
    let gain = gain→sum (total_pnl t mark) (total_pnl t' mark) (qty * mark + r) (qty * price) h in
    (moves, fits, (r, gain, small))
handle_buy-Filled t (negsuc k) qty price mark e ha hp =
    let (moves, fits) = cover-moves t k qty price e ha hp in
    let t' = cover t (suc k) qty price in
    let h : Gains t t' mark (qty * mark + 0) (qty * price) =
      omega (arith, cover-Gains t k qty price mark e) in
    let gain = gain→sum (total_pnl t mark) (total_pnl t' mark) (qty * mark + 0) (qty * price) h in
    (moves, fits, (0, gain, inl refl))

sum→difference :
    (v v' : ℤ) (up down : ℕ)
    → v' ≡ v +ℤ (pos up -ℤ pos down)
    → v' ≡ v +ℤ (pos 0 -ℤ (pos down -ℤ pos up))
sum→difference v v' up down e =
    e
    ∙ eq_of_parts (v +ℤ (pos up -ℤ pos down)) (v +ℤ (pos 0 -ℤ (pos down -ℤ pos up))) (ground arith)

sold : (position : ℤ) (qty : ℕ) → position -ℤ pos qty ≡ position +ℤ (pos 0 -ℤ pos qty)
sold position qty =
    eq_of_parts (position -ℤ pos qty) (position +ℤ (pos 0 -ℤ pos qty)) (ground arith)

add_short-Filled :
    (t : PositionTracker) (old qty price mark : ℕ)
    → pos_part t.position ≡ 0
    → neg_part t.position ≡ old
    → t.avg_price < 4294967296
    → price < 4294967296
    → Filled t (add_short t old qty price) sell qty price mark
add_short-Filled t old qty price mark p q ha hp =
    let (r, h, small) = add_short-Gains t old qty price mark p q ha hp in
    let (moves, fits) = add_short-moves t old qty price ha in
    let t' = add_short t old qty price in
    let gain = gain→sum (total_pnl t mark) (total_pnl t' mark) (qty * price) (qty * mark + r) h in
    let size : old + qty ≡ abs t'.position =
      short_size t.position old qty p q ∙ ap abs (sym moves) in
    (
      moves ∙ sold t.position qty,
      fits,
      (
        r,
        sum→difference (total_pnl t mark) (total_pnl t' mark) (qty * price) (qty * mark + r) gain,
        small_rest small size,
      ),
    )
  where
    short_size :
        (position : ℤ) (old qty : ℕ)
        → pos_part position ≡ 0
        → neg_part position ≡ old
        → old + qty ≡ abs (position -ℤ pos qty)
    short_size position old qty p q = ground (arith, p, q)

handle_sell-Filled :
    (t : PositionTracker) (position : ℤ) (qty price mark : ℕ)
    → t.position ≡ position
    → t.avg_price < 4294967296
    → price < 4294967296
    → Filled t (handle_sell t position qty price) sell qty price mark
unfolding handle_sell
handle_sell-Filled t (negsuc k) qty price mark e ha hp =
    add_short-Filled t (suc k) qty price mark (ap pos_part e) (ap neg_part e) ha hp
handle_sell-Filled t (pos long) qty price mark e ha hp = elim (Bool-cases (long == 0)) [
  | inl none_held ↦
      let none : long ≡ 0 = ==→eq long 0 none_held in
      rw none_held
        (add_short-Filled t 0 qty price mark (ap pos_part e ∙ none) (ap neg_part e) ha hp)
  | inr some_held ↦
      let (moves, fits) = close-moves t long qty price e ha hp in
      let t' = close t long qty price in
      let h : Gains t t' mark (qty * price) (qty * mark + 0) =
        omega (arith, close-Gains t long qty price mark e) in
      let gain = gain→sum (total_pnl t mark) (total_pnl t' mark) (qty * price) (qty * mark + 0) h in
      rw some_held (
        moves ∙ sold t.position qty,
        fits,
        (
          0,
          sum→difference (total_pnl t mark) (total_pnl t' mark) (qty * price) (qty * mark + 0) gain,
          inl refl,
        ),
      )
]

-- A fill of any side, size and price, on a tracker that is flat, long or short, moves the position
-- by the signed quantity, keeps the average price in 32 bits, and changes the total profit at any
-- mark price by what the quantity is worth at the mark less what was paid for it (the opposite for a
-- sale), up to a rounding of the average price that is 0 or less than the size of the new position.
-- The average price before and the price of the fill are uint32_t.
pub on_fill_lem :
    (t : PositionTracker) (side : Side) (qty price mark : ℕ)
    → t.avg_price < 4294967296
    → price < 4294967296
    → let t' = on_fill t side qty price in
      (t'.position ≡ t.position +ℤ signed side (pos qty))
      × (t'.avg_price < 4294967296)
      × ((r : ℕ) × (total_pnl t' mark ≡ total_pnl t mark +ℤ signed side (worth qty price mark r))
          × ((r ≡ 0) ⊎ (r < abs t'.position)))
unfolding on_fill total_pnl
on_fill_lem t buy qty price mark ha hp = handle_buy-Filled t t.position qty price mark refl ha hp
on_fill_lem t sell qty price mark ha hp = handle_sell-Filled t t.position qty price mark refl ha hp

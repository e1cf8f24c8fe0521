-- ===== src/World/Limits.antt =====
-- The risk limits of include/symbol_world.hpp on the fills of a symbol.
use hft_trading_system.Prelude.{
  ℕ, ◌<◌, ◌≤◌, ◌≡◌, ◌≢◌, refl, sym, ap, ◌∙◌, arith, Bool, true, false, ◌==◌, if◌then◌else◌, ltb, ℤ,
  pos, pos_part, abs, ◌+ℤ◌, ◌-ℤ◌, ltb_ℤ, if_so, ne→not_eq, eq_of_parts,
}
use hft_trading_system.Types.{Side, buy, sell, invalid_price}
use hft_trading_system.OrderBook.{OrderBook}
use hft_trading_system.TopOfBook.{TopOfBook}
use hft_trading_system.Position
use hft_trading_system.Position.{PositionTracker, total_pnl}
use hft_trading_system.Position.Fill.{on_fill_lem, signed}
use hft_trading_system.World.Risk
use hft_trading_system.World.Risk.{RiskManager, update_pnl, position_after}
use hft_trading_system.World.{
  SymbolWorld, mid_price, can_trade, is_halted, submit_order, cancel_order, on_fill, track_order,
  on_our_fill, untrack_order,
}

-- What a fill does to the position and to the limits.
filled_position :
    (w : SymbolWorld) (side : Side) (qty price : ℕ)
    → ((on_fill w side qty price).position ≡ Position.on_fill w.position side qty price)
      × ((on_fill w side qty price).risk.config ≡ w.risk.config)
unfolding on_fill update_pnl
filled_position w side qty price = ground arith

passes :
    (r : RiskManager) (side : Side) (size : ℕ) (position : ℤ)
    → Risk.can_trade r side size position ≡ true
    → (r.halted ≡ false)
      × (size ≤ r.config.max_order_size)
      × (abs (position_after position side size) ≤ pos_part r.config.max_position)
unfolding Risk.can_trade
passes r side size position h =
    let after = position_after position side size in
    let (on, small, fits) =
      guards r.halted (ltb r.config.max_order_size size)
        (ltb_ℤ r.config.max_position (pos (abs after))) h in
    (on, ground (arith, small), within r.config.max_position (abs after) fits)
  where
    guards :
        (a b c : Bool)
        → (if a then false else if b then false else if c then false else true) ≡ true
        → (a ≡ false) × (b ≡ false) × (c ≡ false)
    guards a b c h = (ground (arith, h), ground (arith, h), ground (arith, h))

    within : (m : ℤ) (n : ℕ) → ltb_ℤ m (pos n) ≡ false → n ≤ pos_part m
    within m n h = ground (arith, h)

signed_after :
    (position : ℤ) (side : Side) (qty : ℕ)
    → position_after position side qty ≡ position +ℤ signed side (pos qty)
signed_after position buy qty = refl
signed_after position sell qty =
    eq_of_parts (position -ℤ pos qty) (position +ℤ (pos 0 -ℤ pos qty)) (ground arith)

-- Where a trade is allowed and then filled whole, the symbol was not halted, the size is within the
-- maximal order size, and the position after the fill is within the maximal position, long or short.
-- The average price before and the price of the fill are uint32_t.
pub can_trade-on_fill :
    (w : SymbolWorld) (side : Side) (size price : ℕ)
    → can_trade w side size ≡ true
    → w.position.avg_price < 4294967296
    → price < 4294967296
    → let w' = on_fill w side size price in
      (is_halted w ≡ false)
      × (size ≤ w.risk.config.max_order_size)
      × (abs w'.position.position ≤ pos_part w'.risk.config.max_position)
unfolding can_trade
can_trade-on_fill w side size price allowed ha hp =
    let (on, small, fits) = passes w.risk side size w.position.position allowed in
    let (moved, kept) = filled_position w side size price in
    let size_after : abs (on_fill w side size price).position.position
        ≡ abs (position_after w.position.position side size) =
      ap (λ (p : PositionTracker). abs p.position) moved
      ∙ ap abs (
          (on_fill_lem w.position side size price 0 ha hp).0
          ∙ sym (signed_after w.position.position side size)) in
    (
      on,
      small,
      omega (arith, fits, size_after, ap (λ (c : Risk.RiskConfig). pos_part c.max_position) kept),
    )

-- The worlds that the operations lead to, other than a reset of the halt: fills, orders sent and
-- tracked, and any change of the order book, of the engine and of the top of the book.
pub data Later : SymbolWorld → SymbolWorld → Type 0 where
  now : {w : SymbolWorld} → Later w w
  filled :
      {w w' : SymbolWorld} (side : Side) (qty price : ℕ)
      → Later w w'
      → Later w (on_fill w' side qty price)
  submitted :
      {w w' : SymbolWorld} (id : ℕ) (side : Side) (price qty trader : ℕ)
      → Later w w'
      → Later w (submit_order w' id side price qty trader)
  cancelled : {w w' : SymbolWorld} (id : ℕ) → Later w w' → Later w (cancel_order w' id).0
  tracked :
      {w w' : SymbolWorld} (id : ℕ) (side : Side) (price qty : ℕ)
      → Later w w'
      → Later w (track_order w' id side price qty)
  our_filled : {w w' : SymbolWorld} (id qty : ℕ) → Later w w' → Later w (on_our_fill w' id qty)
  untracked : {w w' : SymbolWorld} (id : ℕ) → Later w w' → Later w (untrack_order w' id)
  book_changed :
      {w w' : SymbolWorld} (book : OrderBook) → Later w w' → Later w (record w' { book = book })
  top_changed :
      {w w' : SymbolWorld} (top : TopOfBook) → Later w w' → Later w (record w' { top = top })

stays_halted : (w w' : SymbolWorld) → Later w w' → is_halted w ≡ true → is_halted w' ≡ true
unfolding on_fill update_pnl submit_order cancel_order track_order on_our_fill untrack_order
stays_halted w _ now h = h
stays_halted w _ (filled {w' = w'} side qty price l) h = ground (arith, stays_halted w w' l h)
stays_halted w _ (submitted {w' = w'} id side price qty trader l) h = stays_halted w w' l h
stays_halted w _ (cancelled {w' = w'} id l) h = stays_halted w w' l h
stays_halted w _ (tracked {w' = w'} id side price qty l) h = stays_halted w w' l h
stays_halted w _ (our_filled {w' = w'} id qty l) h = ground (arith, stays_halted w w' l h)
stays_halted w _ (untracked {w' = w'} id l) h = stays_halted w w' l h
stays_halted w _ (book_changed {w' = w'} book l) h = stays_halted w w' l h
stays_halted w _ (top_changed {w' = w'} top l) h = stays_halted w w' l h

halts :
    (w : SymbolWorld) (side : Side) (qty price : ℕ)
    → mid_price w ≢ invalid_price
    → ltb_ℤ
        (total_pnl (Position.on_fill w.position side qty price) (mid_price w))
        (pos 0 -ℤ w.risk.config.max_loss)
      ≡ true
    → is_halted (on_fill w side qty price) ≡ true
unfolding on_fill update_pnl
halts w side qty price known loss =
    let position = Position.on_fill w.position side qty price in
    let pnl = total_pnl position (mid_price w) in
    recorded (mid_price w == invalid_price) (record w { position = position })
      (update_pnl w.risk pnl) (ne→not_eq (mid_price w) invalid_price known)
      (updates w.risk pnl loss)
  where
    recorded :
        (b : Bool) (w1 : SymbolWorld) (r : RiskManager)
        → b ≡ false
        → r.halted ≡ true
        → is_halted (if b then w1 else record w1 { risk = r }) ≡ true
    recorded b w1 r unknown h = rw unknown h

    updates :
        (r : RiskManager) (pnl : ℤ)
        → ltb_ℤ pnl (pos 0 -ℤ r.config.max_loss) ≡ true
        → (update_pnl r pnl).halted ≡ true
    updates r pnl h =
        ap (λ (r' : RiskManager). r'.halted) (if_so (ltb_ℤ pnl (pos 0 -ℤ r.config.max_loss)) _ _ h)

-- After a fill that leaves a total profit at the mid price of the book below the maximal loss, and
-- where there is a mid price, no trade of any side and size is allowed, whatever is done later but a
-- reset of the halt.
pub loss_stops :
    (w w' : SymbolWorld) (side side' : Side) (qty price size : ℕ)
    → mid_price w ≢ invalid_price
    → ltb_ℤ
        (total_pnl (Position.on_fill w.position side qty price) (mid_price w))
        (pos 0 -ℤ w.risk.config.max_loss)
      ≡ true
    → Later (on_fill w side qty price) w'
    → can_trade w' side' size ≡ false
unfolding can_trade Risk.can_trade
loss_stops w w' side side' qty price size known loss later =
    if_so w'.risk.halted _ _
      (stays_halted (on_fill w side qty price) w' later (halts w side qty price known loss))

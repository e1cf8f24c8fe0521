-- ===== src/Engine/Halting.antt =====
-- The halt of include/trading_engine.hpp over the positions and orders of its symbols.
use hft_trading_system.Prelude.{ℕ, ◌≡◌, true, List, [], ◌∷◌, ◌++◌, All}
use hft_trading_system.Halt
use hft_trading_system.Halt.{HaltManager, PositionInfo, alert, cancel_all}
use hft_trading_system.Halt.Closing.{Fits32}
use hft_trading_system.World.{OurOrder, SymbolWorld}
use hft_trading_system.Engine.{Sent, position_info, cancellation}

-- The position of every symbol, flat or not.
abbrev pub all_positions : List (ℕ × SymbolWorld) → List PositionInfo
all_positions [] = []
all_positions ((id, w) ∷ ws) = position_info id w ∷ all_positions ws

-- Each position fits the quantity of an order.
abbrev pub AllFit : List (ℕ × SymbolWorld) → Type 0
AllFit ws = All Fits32 (all_positions ws)

-- The messages that cancel each order that a symbol tracks.
pub data CancelsEach (id : ℕ) : List (ℕ × OurOrder) → List Sent → Type 0 where
  no_order : CancelsEach id [] []
  tracked :
      {order_id : ℕ} {o : OurOrder} {os : List (ℕ × OurOrder)} {cs : List Sent}
      → CancelsEach id os cs
      → CancelsEach id ((order_id, o) ∷ os) (cancellation id order_id ∷ cs)

-- The messages that cancel every tracked order of every symbol: one for each, and no other.
pub data CancelsAll : List (ℕ × SymbolWorld) → List Sent → Type 0 where
  no_symbol : CancelsAll [] []
  symbol :
      {id : ℕ} {w : SymbolWorld} {ws : List (ℕ × SymbolWorld)} {own rest : List Sent}
      → CancelsEach id w.our_orders own
      → CancelsAll ws rest
      → CancelsAll ((id, w) ∷ ws) (own ++ rest)

-- The callbacks for positions, cancels and orders that the constructor sets.
abbrev pub IsWired : HaltManager → Type 0
IsWired m = (m.has_get_positions ≡ true) × (m.has_cancel_all ≡ true) × (m.has_send_order ≡ true)

-- ===== src/Engine/Tests.antt =====
-- The theorems on include/trading_engine.hpp at an engine with two symbols.
use hft_trading_system.Prelude.{ℕ, refl, arith, Bool, true, [], ◌∷◌, alter, pos}
use hft_trading_system.Types.{buy}
use hft_trading_system.Halt
use hft_trading_system.World.{SymbolWorld, SymbolConfig, symbol_config, track_order}
use hft_trading_system.Engine.{TradingEngine, trading_engine, add_symbol}
use hft_trading_system.Engine.Reach.{reachable-IsEngine}
use hft_trading_system.Engine.Named.{started, symbol_added, symbol_changed, IsEngine}

abbrev first_config : SymbolConfig
first_config = symbol_config (65 ∷ []) 50 100

abbrev second_config : SymbolConfig
second_config = symbol_config (66 ∷ []) 900 200

abbrev two_symbols : TradingEngine
two_symbols = (add_symbol (add_symbol trading_engine first_config).0 second_config).0

abbrev tracking : SymbolWorld → SymbolWorld
tracking w = track_order w 9 buy 120 5

-- The second symbol tracks an order.
abbrev tracked : TradingEngine
tracked = record two_symbols { worlds = alter 2 tracking two_symbols.worlds }

reachable-IsEngine_example : IsEngine tracked
unfolding trading_engine add_symbol track_order
reachable-IsEngine_example = reachable-IsEngine (
    symbol_changed
      (symbol_added (symbol_added started first_config (omega arith)) second_config (omega arith)) 2
      tracking (λ w. (refl, refl, refl)))

-- Long 5 at 100.
abbrev holding : SymbolWorld → SymbolWorld
holding w = record w { position = record w.position { position = pos 5; avg_price = 100 } }

-- The first symbol is long, and the second, flat, tracks an order.
abbrev open_engine : TradingEngine
open_engine = record tracked { worlds = alter 1 holding tracked.worlds }

abbrev always : ℕ → Bool
always n = true

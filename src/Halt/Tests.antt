-- ===== src/Halt/Tests.antt =====
-- The theorems on include/strategy/halt_manager.hpp at three positions, and what a position too
-- large for an order does.
use hft_trading_system.Prelude.{
  ℕ, ◌≤◌, ◌≡◌, refl, Bool, true, false, List, [], ◌∷◌, arith, ◌==◌, pos, negsuc,
}
use hft_trading_system.Halt.{
  halted, error, manual_halt, PositionInfo, get_positions, send_order, HaltManager, running,
  no_reason, cancel_all, run_halt, halt,
}
use hft_trading_system.Types.{sell}
use hft_trading_system.Halt.Retry.{retries, IsSettled, retries_settle}

abbrev manager : HaltManager
manager = record {
  state = running;
  reason = no_reason;
  flatten_attempts = 0;
  max_flatten_attempts = 3;
  has_get_positions = true;
  has_cancel_all = true;
  has_send_order = true;
  has_alert = false;
  calls = [];
  sends = 0;
}

-- Long 5, flat, short 7.
abbrev positions : List PositionInfo
positions =
    record { symbol = 1; position = pos 5; last_price = 100 }
    ∷ record { symbol = 2; position = pos 0; last_price = 90 }
    ∷ record { symbol = 3; position = negsuc 6; last_price = 80 }
    ∷ []

-- The first order is accepted, no other.
abbrev first_only : ℕ → Bool
first_only n = n == 0

abbrev failed : HaltManager
failed = record manager { state = error; flatten_attempts = 1 }

retries_settle_example :
    let m' = retries 2 first_only (λ _. positions) failed in
    IsSettled m' × (m'.flatten_attempts ≤ 3) × (retries 5 first_only (λ _. positions) m' ≡ m')
retries_settle_example =
    retries_settle 2 5 first_only (λ _. positions) failed refl (omega arith) (omega arith)
      (omega arith)

-- A position of 2^32 is flattened by an order for nothing, and the manager calls itself halted.
huge_position_stays :
    let m' =
      (halt
        (λ _. true)
        (record { symbol = 1; position = pos 4294967296; last_price = 1 } ∷ [])
        manager
        manual_halt).0 in
    (m'.state ≡ halted)
    × (m'.calls
        ≡ cancel_all
          ∷ get_positions
          ∷ send_order (record { symbol = 1; side = sell; quantity = 0 })
          ∷ [])
unfolding halt run_halt
huge_position_stays = (refl, refl)

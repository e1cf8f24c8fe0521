-- ===== src/Ouch/Tests.antt =====
-- The theorems of include/ouch/ouch_messages.hpp at small messages.
use hft_trading_system.Prelude.{◌≡◌, [], ◌∷◌, arith, length}
use hft_trading_system.Ouch
use hft_trading_system.Ouch.{
  enter_order, enter_order_bytes, set_token, set_stock, set_quantity, set_price, msg_enter_order,
}
use hft_trading_system.Ouch.Incoming.{}
use hft_trading_system.Ouch.Bytes.{byte_at, slice, read_be32, padded}
use hft_trading_system.Ouch.Layout.{enter_order_bytes_lem}

-- 100 of AB at 7 under the token A1.
abbrev filled_order : Ouch.EnterOrder
filled_order =
    set_price (set_quantity (set_stock (set_token enter_order (65 ∷ 49 ∷ [])) (65 ∷ 66 ∷ [])) 100) 7

enter_order_bytes_lem_example :
    let b = enter_order_bytes filled_order in
    (length b ≡ 48)
    × (byte_at b 0 ≡ msg_enter_order)
    × (slice 1 14 b ≡ padded 14 (65 ∷ 49 ∷ []))
    × (read_be32 (slice 16 4 b) ≡ 100)
    × (slice 20 8 b ≡ padded 8 (65 ∷ 66 ∷ []))
    × (read_be32 (slice 28 4 b) ≡ 7)
enter_order_bytes_lem_example =
    enter_order_bytes_lem (65 ∷ 49 ∷ []) (65 ∷ 66 ∷ []) 100 7 (omega arith) (omega arith)

-- ===== src/Ouch/Incoming.antt =====
-- The messages of include/ouch/ouch_messages.hpp that the exchange sends, as the casts read them
-- from a buffer.
use hft_trading_system.Prelude.{ℕ, List}
use hft_trading_system.Ouch.Bytes.{byte_at, read_be32, read_be64, slice}

-- The fields of the structs that the exchange sends, in the order of their offsets, and the casts that
-- read a struct from the bytes of a buffer.
pub record Accepted : Type 0 where
  pub timestamp : List ℕ
  pub token : List ℕ
  pub side : ℕ
  pub quantity : List ℕ
  pub stock : List ℕ
  pub price : List ℕ
  pub time_in_force : List ℕ
  pub firm : List ℕ
  pub display : ℕ
  pub order_ref : List ℕ
  pub capacity : ℕ
  pub intermarket_sweep : ℕ
  pub min_quantity : List ℕ
  pub cross_type : ℕ
  pub order_state : ℕ
  pub bbo_weight : ℕ

unfoldable pub accepted_of : List ℕ → Accepted
accepted_of b = record {
  timestamp = slice 1 8 b;
  token = slice 9 14 b;
  side = byte_at b 23;
  quantity = slice 24 4 b;
  stock = slice 28 8 b;
  price = slice 36 4 b;
  time_in_force = slice 40 4 b;
  firm = slice 44 4 b;
  display = byte_at b 48;
  order_ref = slice 49 8 b;
  capacity = byte_at b 57;
  intermarket_sweep = byte_at b 58;
  min_quantity = slice 59 4 b;
  cross_type = byte_at b 63;
  order_state = byte_at b 64;
  bbo_weight = byte_at b 65;
}

pub record Executed : Type 0 where
  pub timestamp : List ℕ
  pub token : List ℕ
  pub executed_quantity : List ℕ
  pub execution_price : List ℕ
  pub liquidity_flag : ℕ
  pub match_number : List ℕ

unfoldable pub executed_of : List ℕ → Executed
executed_of b = record {
  timestamp = slice 1 8 b;
  token = slice 9 14 b;
  executed_quantity = slice 23 4 b;
  execution_price = slice 27 4 b;
  liquidity_flag = byte_at b 31;
  match_number = slice 32 8 b;
}

pub record Canceled : Type 0 where
  pub timestamp : List ℕ
  pub token : List ℕ
  pub decrement_quantity : List ℕ
  pub reason : ℕ

unfoldable pub canceled_of : List ℕ → Canceled
canceled_of b = record {
  timestamp = slice 1 8 b;
  token = slice 9 14 b;
  decrement_quantity = slice 23 4 b;
  reason = byte_at b 27;
}

pub record Rejected : Type 0 where
  pub timestamp : List ℕ
  pub token : List ℕ
  pub reason : ℕ

unfoldable pub rejected_of : List ℕ → Rejected
rejected_of b = record { timestamp = slice 1 8 b; token = slice 9 14 b; reason = byte_at b 23 }

pub record Replaced : Type 0 where
  pub timestamp : List ℕ
  pub replacement_token : List ℕ
  pub side : ℕ
  pub quantity : List ℕ
  pub stock : List ℕ
  pub price : List ℕ
  pub time_in_force : List ℕ
  pub firm : List ℕ
  pub display : ℕ
  pub order_ref : List ℕ
  pub capacity : ℕ
  pub intermarket_sweep : ℕ
  pub min_quantity : List ℕ
  pub cross_type : ℕ
  pub order_state : ℕ
  pub previous_token : List ℕ
  pub bbo_weight : ℕ

unfoldable pub replaced_of : List ℕ → Replaced
replaced_of b = record {
  timestamp = slice 1 8 b;
  replacement_token = slice 9 14 b;
  side = byte_at b 23;
  quantity = slice 24 4 b;
  stock = slice 28 8 b;
  price = slice 36 4 b;
  time_in_force = slice 40 4 b;
  firm = slice 44 4 b;
  display = byte_at b 48;
  order_ref = slice 49 8 b;
  capacity = byte_at b 57;
  intermarket_sweep = byte_at b 58;
  min_quantity = slice 59 4 b;
  cross_type = byte_at b 63;
  order_state = byte_at b 64;
  previous_token = slice 65 14 b;
  bbo_weight = byte_at b 79;
}

-- The session ignores system events.
pub record SystemEvent : Type 0 where
  pub timestamp : List ℕ
  pub event_code : ℕ

-- The getters of `Executed`. Those of the other messages are likewise `read_be64` of a time stamp or an
-- order reference, and `read_be32` of a quantity or a price.
unfoldable pub get_executed_quantity : Executed → ℕ
unfolding read_be32
get_executed_quantity e = read_be32 e.executed_quantity

unfoldable pub get_execution_price : Executed → ℕ
unfolding read_be32
get_execution_price e = read_be32 e.execution_price

unfoldable pub get_match_number : Executed → ℕ
unfolding read_be64
get_match_number e = read_be64 e.match_number

unfoldable pub get_timestamp : Executed → ℕ
unfolding read_be64
get_timestamp e = read_be64 e.timestamp

-- ===== src/Ouch.antt =====
-- include/ouch/ouch_messages.hpp: the messages of the order entry protocol. A byte is a number below
-- 256, a packed struct is the record of its fields, and a field of several bytes is the list of them
-- in the order of memory. A read past the end of a buffer gives 0 here; the code reads only structs
-- that the buffer holds.
pub mod Incoming
pub mod Bytes
pub mod Layout
pub mod Session
mod Tests
use hft_trading_system.Prelude.{
  ℕ, zero, suc, ◌+◌, ◌-◌, ◌*◌, ◌/◌, ◌%◌, Option, none, some, List, [], ◌∷◌, ◌++◌, take, drop,
  replicate, get_elem?, length,
}
use hft_trading_system.Ouch.Bytes.{
  space, byte_at, write_be16, write_be32, write_be64, read_be16, read_be32, read_be64, padded,
  slice,
}
use hft_trading_system.Ouch.Incoming.{
  Accepted, accepted_of, Executed, executed_of, Canceled, canceled_of, Rejected, rejected_of,
  get_executed_quantity, get_execution_price, get_match_number, get_timestamp,
}

-- `MSG_ENTER_ORDER`, `MSG_REPLACE_ORDER`, `MSG_CANCEL_ORDER`, `MSG_MODIFY_ORDER`
abbrev pub msg_enter_order : ℕ
msg_enter_order = 79

abbrev pub msg_replace_order : ℕ
msg_replace_order = 85

abbrev pub msg_cancel_order : ℕ
msg_cancel_order = 88

abbrev pub msg_modify_order : ℕ
msg_modify_order = 77

pub record EnterOrder : Type 0 where
  pub type : ℕ
  pub token : List ℕ
  pub side : ℕ
  pub quantity : List ℕ
  pub stock : List ℕ
  pub price : List ℕ
  pub time_in_force : List ℕ
  pub firm : List ℕ
  pub display : ℕ
  pub capacity : ℕ
  pub intermarket_sweep : ℕ
  pub min_quantity : List ℕ
  pub cross_type : ℕ

unfoldable pub enter_order : EnterOrder
enter_order = record {
  type = msg_enter_order;
  token = replicate 14 space;
  side = space;
  quantity = replicate 4 space;
  stock = replicate 8 space;
  price = replicate 4 space;
  time_in_force = replicate 4 space;
  firm = replicate 4 space;
  display = 89;
  capacity = 65;
  intermarket_sweep = 78;
  min_quantity = replicate 4 space;
  cross_type = 78;
}

abbrev pub set_token : EnterOrder → List ℕ → EnterOrder
set_token o t = record o { token = padded 14 t }

abbrev pub set_stock : EnterOrder → List ℕ → EnterOrder
set_stock o s = record o { stock = padded 8 s }

abbrev pub set_firm : EnterOrder → List ℕ → EnterOrder
set_firm o f = record o { firm = padded 4 f }

abbrev pub set_quantity : EnterOrder → ℕ → EnterOrder
set_quantity o qty = record o { quantity = write_be32 qty }

abbrev pub set_price : EnterOrder → ℕ → EnterOrder
set_price o p = record o { price = write_be32 p }

abbrev pub set_time_in_force : EnterOrder → ℕ → EnterOrder
set_time_in_force o tif = record o { time_in_force = write_be32 tif }

abbrev pub set_min_quantity : EnterOrder → ℕ → EnterOrder
set_min_quantity o qty = record o { min_quantity = write_be32 qty }

-- The bytes of the packed struct.
unfoldable pub enter_order_bytes : EnterOrder → List ℕ
enter_order_bytes o =
    o.type
    ∷ (o.token
        ++ (o.side
            ∷ (o.quantity
                ++ (o.stock
                    ++ (o.price
                        ++ (o.time_in_force
                            ++ (o.firm
                                ++ (o.display
                                    ∷ o.capacity
                                    ∷ o.intermarket_sweep
                                    ∷ (o.min_quantity ++ o.cross_type ∷ [])))))))))

pub record ReplaceOrder : Type 0 where
  pub type : ℕ
  pub existing_token : List ℕ
  pub replacement_token : List ℕ
  pub quantity : List ℕ
  pub price : List ℕ
  pub time_in_force : List ℕ
  pub display : ℕ
  pub intermarket_sweep : ℕ
  pub min_quantity : List ℕ

-- `init` and the setters one after the other.
unfoldable pub replace_order : List ℕ → List ℕ → ℕ → ℕ → ℕ → ℕ → ReplaceOrder
unfolding padded write_be32
replace_order existing replacement qty p tif min_qty = record {
  type = msg_replace_order;
  existing_token = padded 14 existing;
  replacement_token = padded 14 replacement;
  quantity = write_be32 qty;
  price = write_be32 p;
  time_in_force = write_be32 tif;
  display = 89;
  intermarket_sweep = 78;
  min_quantity = write_be32 min_qty;
}

unfoldable pub replace_order_bytes : ReplaceOrder → List ℕ
replace_order_bytes o =
    o.type ∷ o.existing_token
    ++ o.replacement_token
    ++ o.quantity
    ++ o.price
    ++ o.time_in_force
    ++ o.display ∷ o.intermarket_sweep ∷ o.min_quantity

-- `CancelOrder` after `init`, `set_token` and `set_quantity`, as bytes.
unfoldable pub cancel_order_bytes : List ℕ → ℕ → List ℕ
unfolding padded write_be32
cancel_order_bytes token qty = msg_cancel_order ∷ padded 14 token ++ write_be32 qty

-- `ModifyOrder` likewise, with its side.
unfoldable pub modify_order_bytes : List ℕ → ℕ → ℕ → List ℕ
unfolding padded write_be32
modify_order_bytes token side qty = msg_modify_order ∷ padded 14 token ++ side ∷ write_be32 qty

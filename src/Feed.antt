-- ===== src/Feed.antt =====
-- The market data feed: the messages of include/itch_messages.hpp, the handlers of
-- include/feed/itch_feed_handler.hpp and include/feed_handler.hpp that decode them, the events of
-- include/market_events.hpp, and the adapters of include/market_data_handler.hpp and
-- include/market_data_handler_v2.hpp that apply them to an order book. A callback is the list of the
-- calls made to it. `read_be16`, `read_be32` and `read_be64` are those of the order entry messages,
-- which this code repeats line by line.
pub mod Wire
pub mod Fields
pub mod Decode
pub mod Packet
pub mod Drive
pub mod Refine
mod Tests
use hft_trading_system.Prelude.{
  ℕ, zero, suc, ◌+◌, ◌*◌, Bool, true, false, ◌&&◌, ◌||◌, ◌==◌, ltb, leb, if◌then◌else◌, List, [],
  ◌∷◌, ◌++◌, drop, length,
}
use hft_trading_system.Types.{Side, buy, sell}
use hft_trading_system.Ouch.Bytes.{byte_at, read_be16, read_be32, read_be64}
use hft_trading_system.OrderBook.{OrderBook, add_order, execute_order, cancel_order}

-- `MSG_ADD_ORDER` to `MSG_ORDER_REPLACE`
abbrev pub msg_add_order : ℕ
msg_add_order = 65

abbrev pub msg_add_order_mpid : ℕ
msg_add_order_mpid = 70

abbrev pub msg_order_executed : ℕ
msg_order_executed = 69

abbrev pub msg_order_executed_price : ℕ
msg_order_executed_price = 67

abbrev pub msg_order_cancel : ℕ
msg_order_cancel = 88

abbrev pub msg_order_delete : ℕ
msg_order_delete = 68

abbrev pub msg_order_replace : ℕ
msg_order_replace = 85

unfoldable pub read_be48 : List ℕ → ℕ
read_be48 buf =
    byte_at buf 0 * 1099511627776
    + byte_at buf 1 * 4294967296
    + byte_at buf 2 * 16777216
    + byte_at buf 3 * 65536
    + byte_at buf 4 * 256
    + byte_at buf 5

pub record OrderAdd : Type 0 where
  pub order_id : ℕ
  pub symbol_id : ℕ
  pub side : Side
  pub price : ℕ
  pub quantity : ℕ
  pub timestamp : ℕ

pub record OrderExecute : Type 0 where
  pub order_id : ℕ
  pub quantity : ℕ
  pub exec_price : ℕ
  pub timestamp : ℕ

pub record OrderReduce : Type 0 where
  pub order_id : ℕ
  pub reduce_by : ℕ
  pub timestamp : ℕ

pub record OrderDelete : Type 0 where
  pub order_id : ℕ
  pub timestamp : ℕ

-- A call of the callback of `ItchFeedHandler`.
pub data Event : Type 0 where
  order_add : OrderAdd → Event
  order_execute : OrderExecute → Event
  order_reduce : OrderReduce → Event
  order_delete : OrderDelete → Event

-- What a parser returns, and the calls it made.
abbrev pub Parsed : Type 0
Parsed = Bool × List Event

abbrev pub side_of : ℕ → Side
side_of b = if b == 66 then buy else sell

unfoldable pub parse_add_order : List ℕ → ℕ → Parsed
unfolding read_be48
parse_add_order buf len = if ltb len 36 then (false, []) else (
  true,
  order_add (record {
    order_id = read_be64 (drop 11 buf);
    symbol_id = read_be16 (drop 1 buf);
    side = side_of (byte_at buf 19);
    price = read_be32 (drop 32 buf);
    quantity = read_be32 (drop 20 buf);
    timestamp = read_be48 (drop 5 buf);
  })
      ∷ [],
)

unfoldable pub parse_order_executed : List ℕ → ℕ → Parsed
unfolding read_be48
parse_order_executed buf len = if ltb len 31 then (false, []) else (
  true,
  order_execute (record {
    order_id = read_be64 (drop 11 buf);
    quantity = read_be32 (drop 19 buf);
    exec_price =
        if byte_at buf 0 == msg_order_executed_price && leb 36 len
        then read_be32 (drop 32 buf)
        else 0;
    timestamp = read_be48 (drop 5 buf);
  })
      ∷ [],
)

unfoldable pub parse_order_cancel : List ℕ → ℕ → Parsed
unfolding read_be48
parse_order_cancel buf len = if ltb len 23 then (false, []) else (
  true,
  order_reduce (record {
    order_id = read_be64 (drop 11 buf);
    reduce_by = read_be32 (drop 19 buf);
    timestamp = read_be48 (drop 5 buf);
  })
      ∷ [],
)

unfoldable pub parse_order_delete : List ℕ → ℕ → Parsed
unfolding read_be48
parse_order_delete buf len = if ltb len 19 then (false, []) else (
  true,
  order_delete (record { order_id = read_be64 (drop 11 buf); timestamp = read_be48 (drop 5 buf) })
      ∷ [],
)

-- The new id, quantity and price are read and not used.
unfoldable pub parse_order_replace : List ℕ → ℕ → Parsed
unfolding read_be48
parse_order_replace buf len = if ltb len 35 then (false, []) else (
  true,
  order_delete (record { order_id = read_be64 (drop 11 buf); timestamp = read_be48 (drop 5 buf) })
      ∷ [],
)

-- `ItchFeedHandler::process_message`: `buf` is what the packet holds from the message on.
unfoldable pub process_message : List ℕ → ℕ → Parsed
unfolding parse_add_order parse_order_executed parse_order_cancel parse_order_delete
    parse_order_replace
process_message buf len =
    let msg_type = byte_at buf 0 in
    if ltb len 1
    then (false, [])
    else if msg_type == msg_add_order || msg_type == msg_add_order_mpid
    then parse_add_order buf len
    else if msg_type == msg_order_executed || msg_type == msg_order_executed_price
    then parse_order_executed buf len
    else if msg_type == msg_order_cancel
    then parse_order_cancel buf len
    else if msg_type == msg_order_delete
    then parse_order_delete buf len
    else if msg_type == msg_order_replace
    then parse_order_replace buf len
    else (true, [])

-- The loop of `process_packet`: `rest` is the packet from `offset` on, and the result the number of
-- processed messages with the calls made.
unfoldable pub process_rest : ℕ → List ℕ → ℕ × List Event
unfolding process_message read_be16
process_rest zero rest = (0, [])
process_rest (suc left) rest =
    let msg_len = read_be16 rest in
    let body = drop 2 rest in
    let (ok, events) = process_message body msg_len in
    let (processed, later) = process_rest left (drop msg_len body) in
    if length rest == 0
    then (0, [])
    else if ltb (length rest) 2
    then (0, [])
    else if ltb (length body) msg_len
    then (0, [])
    else ((if ok then 1 else 0) + processed, events ++ later)

unfoldable pub process_packet : List ℕ → ℕ × List Event
unfolding process_rest
process_packet packet =
    if ltb (length packet) 20
    then (0, [])
    else process_rest (read_be16 (drop 18 packet)) (drop 20 packet)

-- `MarketDataHandlerV2`: one call for each event.
unfoldable pub handle_event : OrderBook → Event → OrderBook
handle_event b (order_add e) = (add_order b e.order_id e.side e.price e.quantity).0
handle_event b (order_execute e) = (execute_order b e.order_id e.quantity).0
handle_event b (order_reduce e) = (execute_order b e.order_id e.reduce_by).0
handle_event b (order_delete e) = (cancel_order b e.order_id).0

abbrev pub handle_events : OrderBook → List Event → OrderBook
handle_events b [] = b
handle_events b (e ∷ es) = handle_events (handle_event b e) es

-- A call of the callback of `FeedHandler`.
pub data BookCall : Type 0 where
  on_add_order : (order_id : ℕ) → Side → (price quantity : ℕ) → BookCall
  on_order_executed on_order_cancelled : (order_id quantity : ℕ) → BookCall
  on_order_deleted : (order_id : ℕ) → BookCall

-- `FeedHandler::process_message` with its parsers: what it returns, and the calls made.
unfoldable pub process_feed_message : List ℕ → ℕ → Bool × List BookCall
process_feed_message buf len =
    let msg_type = byte_at buf 0 in
    let order_id = read_be64 (drop 11 buf) in
    if ltb len 1
    then (false, [])
    else if msg_type == msg_add_order || msg_type == msg_add_order_mpid
    then (if ltb len 36 then (false, []) else (
      true,
      on_add_order order_id (side_of (byte_at buf 19)) (read_be32 (drop 32 buf))
            (read_be32 (drop 20 buf))
          ∷ [],
    ))
    else if msg_type == msg_order_executed
    then (if ltb len 31
        then (false, [])
        else (true, on_order_executed order_id (read_be32 (drop 19 buf)) ∷ []))
    else if msg_type == msg_order_cancel
    then (if ltb len 23
        then (false, [])
        else (true, on_order_cancelled order_id (read_be32 (drop 19 buf)) ∷ []))
    else if msg_type == msg_order_delete
    then (if ltb len 19 then (false, []) else (true, on_order_deleted order_id ∷ []))
    else (true, [])

-- `MarketDataHandler`
unfoldable pub handle_call : OrderBook → BookCall → OrderBook
handle_call b (on_add_order id side price qty) = (add_order b id side price qty).0
handle_call b (on_order_executed id qty) = (execute_order b id qty).0
handle_call b (on_order_cancelled id qty) = (execute_order b id qty).0
handle_call b (on_order_deleted id) = (cancel_order b id).0

abbrev pub handle_calls : OrderBook → List BookCall → OrderBook
handle_calls b [] = b
handle_calls b (c ∷ cs) = handle_calls (handle_call b c) cs

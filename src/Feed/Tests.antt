-- ===== src/Feed/Tests.antt =====
-- The theorems on the market data feed at a packet of two messages, and the messages that the two
-- handlers treat differently.
use hft_trading_system.Prelude.{
  ◌<◌, ℕ, ◌≡◌, refl, inl, inr, true, none, List, [], ◌∷◌, ◌++◌, arith, replicate,
}
use hft_trading_system.Types.{buy}
use hft_trading_system.Ouch.Bytes.{write_be16, write_be32, write_be64}
use hft_trading_system.Book.{new_side, quantity_at, find_level, is_in_range, level_at}
use hft_trading_system.OrderBook.{OrderBook, new}
use hft_trading_system.OrderBook.Invariant.{IsValid}
use hft_trading_system.OrderBook.Add.{Fits}
use hft_trading_system.OrderBook.Reach.{new-IsValid}
use hft_trading_system.OrderBook.Spec.{replay}
use hft_trading_system.OrderBook.View.{view}
use hft_trading_system.Feed.{
  process_message, process_packet, handle_calls, handle_events, process_feed_message,
}
use hft_trading_system.Feed.Wire.{
  write_be48, Header, Message, add, executed, executed_price, encode,
}
use hft_trading_system.Feed.Packet.{frames, meanings, process_packet-frames}
use hft_trading_system.Feed.Drive.{run_messages, handlers_agree}
use hft_trading_system.Feed.Refine.{calls_of_all, process_packet-replay}

abbrev first : Header
first = record { stock_locate = 7; tracking_number = 0; timestamp = 5000; order_ref = 1 }

-- A bid of 30 at 110, and an execution of 10 of it.
abbrev messages : List Message
messages = add first buy 30 (replicate 8 32) 110 none ∷ executed first 10 4 ∷ []

abbrev header : List ℕ
header = replicate 18 0

-- The packet is cut off behind them.
process_packet-frames_example :
    process_packet (header ++ (write_be16 3 ++ (frames messages ++ 0 ∷ [])))
    ≡ (2, meanings messages)
unfolding encode write_be16 write_be32 write_be64 write_be48
process_packet-frames_example =
    process_packet-frames header 3 messages (0 ∷ []) refl (omega arith) (omega arith) (omega arith)
      (inr (inl (omega arith)))

abbrev book : OrderBook
book = new 100 50

first-Fits : Fits book buy 110 30
unfolding new new_side quantity_at find_level is_in_range level_at
first-Fits = record { band = (omega arith, omega arith); volume_fits = omega arith }

level_left : 0 < book.free_levels
unfolding new
level_left = omega arith

process_packet-replay_example :
    let b' =
      handle_events book (process_packet (header ++ (write_be16 2 ++ (frames messages ++ [])))).1 in
    (b' ≡ run_messages book messages)
    × (view b' ≡ (replay (calls_of_all messages) (view book)).0)
    × IsValid b'
unfolding encode write_be16 write_be32 write_be64 write_be48
process_packet-replay_example =
    process_packet-replay book header 2 messages [] (new-IsValid 100 50) refl (omega arith)
      (omega arith) (omega arith) (inl refl) ((first-Fits, level_left), (tt, tt))

handlers_agree_example :
    ((process_feed_message (encode (executed first 10 4)) 31).0
      ≡ (process_message (encode (executed first 10 4)) 31).0)
    × (handle_calls book (process_feed_message (encode (executed first 10 4)) 31).1
        ≡ handle_events book (process_message (encode (executed first 10 4)) 31).1)
unfolding encode
handlers_agree_example =
    handlers_agree (encode (executed first 10 4)) 31 book (omega arith) (omega arith)

-- `FeedHandler` says that it has handled an execution with a price, and makes no call.
priced_execution_lost :
    process_feed_message (encode (executed_price first 10 4 89 111)) 36 ≡ (true, [])
unfolding process_feed_message encode
priced_execution_lost = refl

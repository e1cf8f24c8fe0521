-- ===== src/Feed/Drive.antt =====
-- The feed and the order book together: include/feed/itch_feed_handler.hpp with
-- include/market_data_handler_v2.hpp, and include/feed_handler.hpp with
-- include/market_data_handler.hpp.
use hft_trading_system.Prelude.{
  ℕ, ◌-◌, ◌<◌, ◌≤◌, ◌≡◌, ◌≢◌, refl, false, ◌||◌, ◌==◌, ltb, ne→not_eq, Bool-cases, inl, inr, List,
  [], ◌∷◌, ◌++◌, length, All,
}
use hft_trading_system.Ouch.Bytes.{byte_at, write_be16}
use hft_trading_system.OrderBook.{OrderBook, add_order, execute_order, cancel_order}
use hft_trading_system.OrderBook.Invariant.{IsValid}
use hft_trading_system.OrderBook.Add.{Fits}
use hft_trading_system.OrderBook.Reach.{Reaches, added, cancelled, executed, reachable-IsValid}
use hft_trading_system.Feed.{
  Event, process_message, process_packet, parse_add_order, parse_order_executed, parse_order_cancel,
  parse_order_delete, handle_event, handle_events, process_feed_message, handle_call, handle_calls,
}
use hft_trading_system.Feed.Wire.{Message, meaning}
use hft_trading_system.Feed.Packet.{frames, meanings, FitsFrame, Ends, process_packet-frames}

-- What a message asks of the order book.
unfoldable pub run_message : OrderBook → Message → OrderBook
run_message b (Message.add h side shares stock price mpid) =
    (add_order b h.order_ref side price shares).0
run_message b (Message.executed h shares number) = (execute_order b h.order_ref shares).0
run_message b (Message.executed_price h shares number printable price) =
    (execute_order b h.order_ref shares).0
run_message b (Message.cancelled h shares) = (execute_order b h.order_ref shares).0
run_message b (Message.deleted h) = (cancel_order b h.order_ref).0
run_message b (Message.other msg_type rest) = b

unfoldable pub run_messages : OrderBook → List Message → OrderBook
run_messages b [] = b
run_messages b (m ∷ ms) = run_messages (run_message b m) ms

-- Each order that is added fits the book at that point.
abbrev pub FitsMessage : OrderBook → Message → Type 0
FitsMessage b (Message.add h side shares stock price mpid) = Fits b side price shares
FitsMessage b m = Unit

unfoldable pub FitsMessages : OrderBook → List Message → Type 0
FitsMessages b [] = Unit
FitsMessages b (m ∷ ms) = FitsMessage b m × FitsMessages (run_message b m) ms

handle_events-append :
    (b : OrderBook) (xs ys : List Event)
    → handle_events b (xs ++ ys) ≡ handle_events (handle_events b xs) ys
handle_events-append b [] ys = refl
handle_events-append b (x ∷ xs) ys = handle_events-append (handle_event b x) xs ys

handle-meaning : (b : OrderBook) (m : Message) → handle_events b (meaning m) ≡ run_message b m
unfolding handle_event run_message
handle-meaning b (Message.add h side shares stock price mpid) = refl
handle-meaning b (Message.executed h shares number) = refl
handle-meaning b (Message.executed_price h shares number printable price) = refl
handle-meaning b (Message.cancelled h shares) = refl
handle-meaning b (Message.deleted h) = refl
handle-meaning b (Message.other msg_type rest) = refl

pub handle-meanings :
    (b : OrderBook) (ms : List Message) → handle_events b (meanings ms) ≡ run_messages b ms
unfolding run_messages
handle-meanings b [] = refl
handle-meanings b (m ∷ ms) =
    rw (handle_events-append b (meaning m) (meanings ms), handle-meaning b m)
      (handle-meanings (run_message b m) ms)

run_message-Reaches :
    (b : OrderBook) (m : Message) → Reaches b → FitsMessage b m → Reaches (run_message b m)
unfolding run_message
run_message-Reaches b (Message.add h side shares stock price mpid) r f =
    added r h.order_ref side price shares f
run_message-Reaches b (Message.executed h shares number) r f = executed r h.order_ref shares
run_message-Reaches b (Message.executed_price h shares number printable price) r f =
    executed r h.order_ref shares
run_message-Reaches b (Message.cancelled h shares) r f = executed r h.order_ref shares
run_message-Reaches b (Message.deleted h) r f = cancelled r h.order_ref
run_message-Reaches b (Message.other msg_type rest) r f = r

run_messages-Reaches :
    (b : OrderBook) (ms : List Message)
    → Reaches b
    → FitsMessages b ms
    → Reaches (run_messages b ms)
unfolding run_messages FitsMessages
run_messages-Reaches b [] r f = r
run_messages-Reaches b (m ∷ ms) r f =
    run_messages-Reaches (run_message b m) ms (run_message-Reaches b m r f.0) f.1

-- A packet of messages other than replacements that are laid out as the protocol says, given to the
-- book that was reached so far: the book does for each message in order what the message asks, and is
-- valid, if each order that is added fits the book at its turn.
pub packet-drives-book :
    (b : OrderBook) (header : List ℕ) (count : ℕ) (ms : List Message) (rest : List ℕ)
    → Reaches b
    → length header ≡ 18
    → count < 65536
    → All FitsFrame ms
    → length ms ≤ count
    → Ends (count - length ms) rest
    → FitsMessages b ms
    → let b' =
        handle_events b (process_packet (header ++ (write_be16 count ++ (frames ms ++ rest)))).1 in
      (b' ≡ run_messages b ms) × IsValid b'
packet-drives-book b header count ms rest r eighteen hc a le e fits =
    let decoded = process_packet-frames header count ms rest eighteen hc a le e in
    rw (decoded, handle-meanings b ms) (refl, reachable-IsValid (run_messages-Reaches b ms r fits))

-- On every message but those of the types 'C' and 'U', whatever its bytes, the two handlers return
-- the same and do the same to a book.
pub handlers_agree :
    (buf : List ℕ) (len : ℕ) (b : OrderBook)
    → byte_at buf 0 ≢ 67
    → byte_at buf 0 ≢ 85
    → ((process_feed_message buf len).0 ≡ (process_message buf len).0)
      × (handle_calls b (process_feed_message buf len).1
          ≡ handle_events b (process_message buf len).1)
unfolding process_feed_message process_message parse_add_order parse_order_executed
    parse_order_cancel parse_order_delete handle_call handle_event
handlers_agree buf len b not_priced not_replaced = elim (Bool-cases (ltb len 1)) [
  | inl short ↦ rw short (refl, refl)
  | inr long ↦ elim (Bool-cases (t == 65 || t == 70)) [
    | inl adds ↦ elim (Bool-cases (ltb len 36)) [
      | inl cut ↦ rw (long, adds, cut) (refl, refl)
      | inr whole ↦ rw (long, adds, whole) (refl, refl)
    ]
    | inr not_add ↦ elim (Bool-cases (t == 69)) [
      | inl execute ↦ elim (Bool-cases (ltb len 31)) [
        | inl cut ↦ rw (long, not_add, execute, cut) (refl, refl)
        | inr whole ↦ rw (long, not_add, execute, whole) (refl, refl)
      ]
      | inr not_executed ↦ elim (Bool-cases (t == 88)) [
        | inl cancel ↦ elim (Bool-cases (ltb len 23)) [
          | inl cut ↦ rw (long, not_add, not_executed, is_67, cancel, cut) (refl, refl)
          | inr whole ↦ rw (long, not_add, not_executed, is_67, cancel, whole) (refl, refl)
        ]
        | inr not_cancel ↦ elim (Bool-cases (t == 68)) [
          | inl delete ↦ elim (Bool-cases (ltb len 19)) [
            | inl cut ↦
                rw (long, not_add, not_executed, is_67, not_cancel, delete, cut) (refl, refl)
            | inr whole ↦
                rw (long, not_add, not_executed, is_67, not_cancel, delete, whole) (refl, refl)
          ]
          | inr not_delete ↦
              rw (long, not_add, not_executed, is_67, not_cancel, not_delete, is_85) (refl, refl)
        ]
      ]
    ]
  ]
]
  where
    t : ℕ
    t = byte_at buf 0

    is_67 : (t == 67) ≡ false
    is_67 = ne→not_eq t 67 not_priced

    is_85 : (t == 85) ≡ false
    is_85 = ne→not_eq t 85 not_replaced

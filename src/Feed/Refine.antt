-- ===== src/Feed/Refine.antt =====
-- From the bytes of a packet to the orders that rest: include/feed/itch_feed_handler.hpp with
-- include/market_data_handler_v2.hpp on a book that is seen as a map.
use hft_trading_system.Prelude.{
  ℕ, ◌-◌, ◌<◌, ◌≤◌, ◌≡◌, refl, sym, ap, ◌∙◌, List, [], ◌∷◌, ◌++◌, length, All,
}
use hft_trading_system.Ouch.Bytes.{write_be16}
use hft_trading_system.OrderBook.{OrderBook}
use hft_trading_system.OrderBook.Invariant.{IsValid}
use hft_trading_system.OrderBook.Spec.{Call, Reply, Orders, add, cancel, execute, replay}
use hft_trading_system.OrderBook.View.{view}
use hft_trading_system.OrderBook.Refine.{call, run, run_refines, RunFits}
use hft_trading_system.Feed.{process_packet, handle_events}
use hft_trading_system.Feed.Wire.{Message}
use hft_trading_system.Feed.Packet.{frames, FitsFrame, Ends, process_packet-frames}
use hft_trading_system.Feed.Drive.{run_message, run_messages, handle-meanings}

-- What a message asks of the map of orders.
abbrev pub calls_of : Message → List Call
calls_of (Message.add h side shares stock price mpid) = add h.order_ref side price shares ∷ []
calls_of (Message.executed h shares number) = execute h.order_ref shares ∷ []
calls_of (Message.executed_price h shares number printable price) = execute h.order_ref shares ∷ []
calls_of (Message.cancelled h shares) = execute h.order_ref shares ∷ []
calls_of (Message.deleted h) = cancel h.order_ref ∷ []
calls_of (Message.other msg_type rest) = []

abbrev pub calls_of_all : List Message → List Call
calls_of_all [] = []
calls_of_all (m ∷ ms) = calls_of m ++ calls_of_all ms

run-append : (cs ds : List Call) (b : OrderBook) → (run (cs ++ ds) b).0 ≡ (run ds (run cs b).0).0
unfolding run
run-append [] ds b = refl
run-append (c ∷ cs) ds b = run-append cs ds (call b c).0

run-calls_of : (b : OrderBook) (m : Message) → run_message b m ≡ (run (calls_of m) b).0
unfolding run call run_message
run-calls_of b (Message.add h side shares stock price mpid) = refl
run-calls_of b (Message.executed h shares number) = refl
run-calls_of b (Message.executed_price h shares number printable price) = refl
run-calls_of b (Message.cancelled h shares) = refl
run-calls_of b (Message.deleted h) = refl
run-calls_of b (Message.other msg_type rest) = refl

run-calls_of_all :
    (b : OrderBook) (ms : List Message) → run_messages b ms ≡ (run (calls_of_all ms) b).0
unfolding run run_messages
run-calls_of_all b [] = refl
run-calls_of_all b (m ∷ ms) =
    run-calls_of_all (run_message b m) ms
    ∙ ap (λ (c : OrderBook). (run (calls_of_all ms) c).0) (run-calls_of b m)
    ∙ sym (run-append (calls_of m) (calls_of_all ms) b)

-- A packet of messages other than replacements that are laid out as the protocol says, given to a
-- valid book: the book does for each message in order what the message asks, the orders that then
-- rest are those of a map from ids to orders that does the same, and the book stays valid. Each order
-- that is added has to fit the book at its turn, and find a level left.
pub process_packet-replay :
    (b : OrderBook) (header : List ℕ) (count : ℕ) (ms : List Message) (rest : List ℕ)
    → IsValid b
    → length header ≡ 18
    → count < 65536
    → All FitsFrame ms
    → length ms ≤ count
    → Ends (count - length ms) rest
    → RunFits (calls_of_all ms) b
    → let b' =
        handle_events b (process_packet (header ++ (write_be16 count ++ (frames ms ++ rest)))).1 in
      (b' ≡ run_messages b ms) × (view b' ≡ (replay (calls_of_all ms) (view b)).0) × IsValid b'
process_packet-replay b header count ms rest v eighteen hc a le e fits =
    let decoded = process_packet-frames header count ms rest eighteen hc a le e in
    let (valid, refines) = run_refines (calls_of_all ms) b v fits in
    let same = run-calls_of_all b ms in
    rw (decoded, handle-meanings b ms, same)
      (refl, ap (λ (x : Orders × List Reply). x.0) refines, valid)

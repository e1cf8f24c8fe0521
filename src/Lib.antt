-- ===== src/Lib.antt =====
-- The order books, the matching engine and the order gateway of a trading system.
--
-- Parts. `Types` holds the data of include/types.hpp. `Book` is one side of a book
-- (include/book_side.hpp): a list of price levels, best first, each with its queue of orders;
-- `Book.Level` has the operations on one level. `OrderBook` is include/orderbook.hpp: two sides,
-- the index from ids to orders, and the two pools. `Matching` is include/matching_engine.hpp, which
-- repeats the private members of the order book line by line, so that its state holds an order
-- book; its trade callback is the list of the trades given to it. `TopOfBook` is
-- include/top_of_book.hpp, five levels a side in arrays sorted in place. `RateLimiter` is
-- include/security/rate_limiter.hpp, which order entry asks before an order reaches the engine.
-- `Risk` is include/risk/enhanced_risk_manager.hpp, the checks before an order and the halts.
-- `Ouch` is the order entry protocol: the messages of include/ouch/ouch_messages.hpp as bytes, with
-- `Ouch.Bytes` for their fields and `Ouch.Incoming` for the messages of the exchange, and the
-- session of include/ouch/ouch_session.hpp over a stream of them. `Feed` is the market data feed:
-- the handlers of include/feed/itch_feed_handler.hpp and include/feed_handler.hpp, and the adapters
-- of include/market_data_handler_v2.hpp and include/market_data_handler.hpp that apply what they
-- decode to the order book of `OrderBook`; the theorems on packets are about messages other than
-- replacements, of which the code does only half. `Halt` is the halt sequence of
-- include/strategy/halt_manager.hpp, and `Pool` the monitored order pool of include/order_pool.hpp,
-- which calls it. `RingBuffer` is the ring between two processes of
-- include/ipc/shared_ring_buffer.hpp. `Position` is include/strategy/position.hpp, the position and
-- profit of one symbol. `World` is include/symbol_world.hpp, which puts an order book, a matching
-- engine, a position and the risk manager of include/strategy/risk_manager.hpp together for one
-- symbol, and `Engine` is include/trading_engine.hpp, which keeps the symbols and halts them
-- through `Halt`. `Pending` is include/execution/limit_manager.hpp, the expiry of limit orders,
-- with the event bus of include/core/event_bus.hpp as far as it calls the manager. `QueueFill` is
-- include/paper/queue_fill_detector.hpp, which decides when a paper order in a queue is filled.
--
-- Correspondence. A definition has the name of the function it models. Prices, quantities, ids and
-- times are native numbers, and uint32_t arithmetic on quantities wraps around where the code
-- computes (`u32`, `sub32`). A pool is the number of its free entries: the code uses an entry only
-- through its free list. An intrusive list is a list, and a pointer to an order is its id with its
-- side and price. The array `levels_` of a side holds, at a price of its band, the level of that
-- price in the list. `try_match_buy` and `try_match_sell` are one loop over the opposite side.
--
-- Structure. `Prelude` has the lemmas that all parts share, with the rulesets `list_laws` and
-- `int_laws`. `Book.Queue`, `Book.Lookups`, `Book.Levels`, `Book.GoodLevel`, `Book.Sides`,
-- `Book.Rows` and `Book.Take` carry the laws of the lists and the invariant of a side.
-- `OrderBook.Invariant` is the invariant of a book, `OrderBook.Edits` and `OrderBook.Preserve` show
-- that each write keeps it, and `OrderBook.Add`, `OrderBook.Locate`, `OrderBook.Remove`,
-- `OrderBook.Undo`, `OrderBook.RoundTrip`, `OrderBook.Queries` and `OrderBook.Reach` state what the
-- operations do. `OrderBook.Spec` is the contract of the book, a map from ids to orders;
-- `OrderBook.View` reads a book as such a map, and `OrderBook.Refine` and `OrderBook.Observe`
-- relate runs of calls, and what a client can observe, to it. `Matching.Priority` matches against a
-- plain queue of orders, without levels, index or pools, and is the specification of the engine;
-- `Matching.Front` to `Matching.Refine` relate one round and then the loop to it, `Matching.Edits`,
-- `Matching.Engine` and `Matching.Correct` the whole of `add_order`, and `Matching.Uncrossed` and
-- `Matching.Reach` state what holds in every state.
--
-- `Risk.Consistent` and `Risk.Invariant` have what holds of the risk manager in every state, and
-- `Risk.Exposure` and `Risk.Limits` what a fill adds to the notionals and what a check then promises.
-- `Ouch.Layout` is about the messages on the wire, `Ouch.Session.Frames` about the stream of frames
-- that a session reads, and `Ouch.Session.Channel` joins a sender to a receiver;
-- `Ouch.Session.Token` is about the order tokens. `Feed.Wire` is the layout of the messages of the
-- feed, `Feed.Fields`, `Feed.Decode` and `Feed.Packet` are about reading it, `Feed.Drive` joins the
-- feed to the book, and `Feed.Refine` to the map of orders that the book implements.
-- `Halt.Closing`, `Halt.Flatten` and `Halt.Retry` are about one halt and its retries,
-- `Pool.Accounts`, `Pool.Ownership` and `Pool.Critical` about who holds the orders of the pool and
-- when it halts trading. `RingBuffer.Threads` has the accesses of the two threads of the ring as
-- steps, in any order; `RingBuffer.Valid` is what holds in every state, which
-- `RingBuffer.Producing` and `RingBuffer.Consuming` show for the steps of each thread and
-- `RingBuffer.Invariant` for all, and `RingBuffer.Fifo` joins the steps to whole calls.
--
-- `Position.Value` and `Position.Gains` write the profit of a position as sums of products of
-- natural numbers, and `Position.Fill` joins the four cases of a fill. `World.Limits` is about the
-- risk limits of a symbol and `World.Orders` about the orders sent for it. `Engine.Halting` shows
-- what a halt sends, and `Engine.Named` and `Engine.Reach` what holds in every state.
-- `Pending.Slots`, `Pending.Expiry` and `Pending.Reach` are about one slot, the loop over the
-- slots, and the states. `QueueFill.State` has the state and `QueueFill.Level` the operations on
-- one queue, `QueueFill.Volume` and `QueueFill.Fifo` are about the volume taken off a queue,
-- `QueueFill.Accounts` and `QueueFill.Conserve` about the fills reported.
--
-- Bounds and fuel. The loop of `try_match` runs on fuel, one more than the number of the orders of
-- the opposite side: each round but the last fills an order whole or the incoming order. The
-- theorems on orders ask that the price lies in the band of the array of its side and that the
-- volume of a level stays below 2^32 (`Fits`), and those on the engine that a level is left in its
-- pool (`Accepts`): the code does not check these. The pools have the sizes of the source. The loop
-- of `process_incoming` runs on the number of bytes in the buffer, 65536 at most: a message takes at
-- least two. `recv` gives at most the bytes that this buffer has room for, and ends the connection when
-- there is no room; a snapshot of a book is of at most 20 levels, and a pool of at least one order, since
-- the code writes outside of its arrays otherwise.
-- The answers of the system calls are arguments of the session's operations, and what the callbacks
-- of a halt manager answer are arguments of its operations, as is what the order sender of a
-- trading engine answers. An int64_t is an unbounded integer: no theorem is about quantities that
-- overflow it.
--
-- Not modelled: computations on doubles (the risk manager takes their results from its
-- configuration; strategies with the market maker, indicators, metrics, accounts, paper trading but
-- for the fills of orders in a queue), network input and output below the byte stream, shared
-- memory, the tools and dashboards, and the names of enumeration values. Threads are left out but
-- for the ring: each other operation is one step.
pub mod Prelude
pub mod Types
pub mod Book
pub mod OrderBook
pub mod Matching
pub mod TopOfBook
pub mod RateLimiter
pub mod Risk
pub mod Ouch
pub mod Feed
pub mod Halt
pub mod Pool
pub mod RingBuffer
pub mod Position
pub mod World
pub mod Engine
pub mod Pending
pub mod QueueFill

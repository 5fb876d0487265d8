-- ===== src/Lib.antt =====
-- A model of the trading system of this repository: the order book and its matching engine, the order
-- gateway in front of it, and the pool, queue and sockets on which both stand.
--
-- How the parts interact. The TCP server (src/lib/tcp_server.cpp) polls its sockets; a socket
-- (src/lib/tcp_socket.cpp) hands its inbound bytes to the gateway
-- (src/core/gateway/order_gateway_server.cpp), which cuts them into requests, checks the sequence
-- numbers and gives them to the sequencer (src/core/gateway/fifo_Sequencer.h). The sequencer sorts
-- what is pending by time and pushes it into a lock-free queue (src/lib/lock_free_queue.h), from which
-- the engine (src/core/matching_engine/matching_engine.cpp) takes one request at a time for the order
-- book of its ticker (src/core/matching_engine/order_book.cpp). A book keeps orders and price levels in
-- memory pools (src/lib/memory_pool.h); its responses and market updates go into two more queues.
--
-- The parts log into a file through a queue of its own (src/lib/logger.cpp).
--
-- The files. Common holds shared names, Boolean tests, results with faults, lists and integers; Text has
--   texts as code points, and Text/Decimal the reading of decimal texts.
--   Pool: `MemoryPool`, a record of the blocks and the three indices; Pool/Access reads and writes through
--     pointers; Pool/Count, Pool/Search, Pool/Invariant and Pool/Capacity have the lemmas.
--   LfQueue: `LFQueue`, each method as one step; LfQueue/Window, LfQueue/Refine, LfQueue/Fifo and
--     LfQueue/Reading relate it to a list. LfQueue/Threads cuts `push` and `pop` at their accesses to shared variables, for one
--     producer and one consumer; LfQueue/Places, LfQueue/Producing,
--     LfQueue/Consuming and LfQueue/Handover have the invariant.
--   Exchange: src/core/exchange, the constants, `Side`, `Order`, `OrdersAtPrice`; Exchange/Messages
--     the messages, Exchange/Printing their texts and Exchange/Distinct which of them differ.
--   Book: `OrderBook`, a record of its fields with the two pools, and the log of what it has sent;
--     Book/Levels has `addPriceLevel` and `removePriceLevel`, Book/Orders `addOrderToBook` and
--     `removeOrderFromBook`, Book/Match `matchOrder` and `findMatch`, Book/Handlers `addOrder` and
--     `cancelOrder`. Book/Access, Book/Keeps and Book/Links are a calculus of what the methods leave
--     alone; Book/Weight, Book/Rounds and Book/Resting are about matching,
--     Book/Keyed and Book/Cancel about the client map. Book/Printing has `toString`, Book/Sorted and
--     Book/Printable are about its check, and Book/Teardown has the destructor. Book/Entries,
--     Book/Entering, Book/History, Book/Found and Book/RoundTrip follow the client map through `addOrder`, Book/Exhausted is
--     about a full pool and Book/Indices about `priceToIndex`. Common/Ring has doubly linked rings as
--     lists, and Pool/Linked and Book/Rings the links of a pool as functions. Book/Queue, Book/Elsewhere, Book/Appending,
--     Book/Unlinking and Book/Removing relate the orders of a level to a list; Book/LevelRings, Book/ElsewhereLevels, Book/Seeking,
--     Book/Contents, Book/Inserting, Book/Placing, Book/PriceLevels, Book/Adding, Book/Ordered, Book/Delisting, Book/LevelRemoval
--     and Book/Heads the levels of a side; Book/Emptying, Book/Cancelling, Book/Filling, Book/Opening and Book/Newcomer both.
--   Engine: `MatchingEngine`; Engine/Answers is about a request, Engine/Lifetime about the thread,
--     and Engine/Pipeline about the way of a request from the sequencer to its book.
--   Sequencer: `FIFOSequencer`; Sequencer/Sorting is the contract of std::sort.
--   Gateway: `OrderGatewayServer`; Gateway/Bytes has the packed layouts, Gateway/Stream, Gateway/Untimed
--     and Gateway/Admission are about `rxCallback`, Gateway/Sending and Gateway/Frames about the responses,
--     and Gateway/Lifetime about the thread.
--   TcpSocket and TcpServer: `TCPSocket` and `TCPServer`; TcpServer/Registered is about `poll`,
--     and TcpServer/Listening has `listen` and `stop`.
--   SocketUtils: src/lib/socket_utils.h, the making of sockets, and `TCPSocket::connect`; SocketUtils/Passed
--     is about when it succeeds.
--   ThreadUtils: src/lib/thread_utils.h, what a thread does that is started.
--   Logger: `Logger`, the formatting and the file; Logger/Thread the thread and its callers, Logger/Format
--     is about the formatting, Logger/Journal the contract, which Logger/Drained, Logger/Written and Logger/Stopped
--     show to be kept.
--   Tests: runs on concrete data, and each theorem applied to an example.
--
-- Conventions. A pointer into a pool is the index of its block, and null is `none`. A failed assertion,
-- FATAL or an exception in a `noexcept` function is the fault `terminated`; a null or dangling
-- dereference or an index out of range is the fault `undefined`. `size_t` wraps at 2^64. `matchOrder`
-- moves the pointer `qtyRemains` down by the filled quantity and reads through it: what stands there is
-- a parameter, and the read is the fault `undefined` where the parameter gives no word. Sizes are those of the production build, where OME_SIZE is 256.
--
-- Fuel. The search of the pool gets as many rounds as there are blocks, and the walk of `addPriceLevel` as
-- many as the level pool has blocks. The loop of `findMatch` gets its fuel from the caller: more than the
-- sum, over the live orders, of the open quantity and one. The loop of `rxCallback` gets one round more
-- than there are bytes. The loops of `toString` get as many rounds as the pool of what they walk along has
-- blocks, which is enough on a ring of different blocks, and the loop of `formatMessage` one more than the format
-- has characters. A 64-bit number has at most 20 digits.
--
-- Not modelled: the calls of the log within the other parts, what the system calls do (their answers are
-- arguments), the clock, main, the branches for other systems than Linux, and relaxed
-- memory orders.
-- The layouts are those of a little-endian machine.
pub mod Common
pub mod Pool
pub mod LfQueue
pub mod Text
pub mod Logger
pub mod SocketUtils
pub mod ThreadUtils
pub mod Exchange
pub mod Book
mod Tests
pub mod Sequencer
pub mod Engine
pub mod Gateway
pub mod TcpSocket
pub mod TcpServer

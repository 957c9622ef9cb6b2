-- ===== src/Lib.antt =====
-- A matching system for one symbol: orders with price-time priority in a two-sided book, an engine
-- that matches incoming orders against it, a risk manager that checks orders and keeps positions, two
-- lock-free queues for messages between threads, a pool of memory nodes, statistics and metrics, FIX
-- messages, a TCP and a websocket server, and two programs that put these together. The code is C++,
-- in headers under include/ and programs under src/.
--
-- How the parts interact. The engine owns an order book and hands it the orders that rest. The book
-- keeps two maps from prices to price levels and a map from order IDs to orders. A price level is a
-- queue of orders with a cached total. All of them share the order objects by `shared_ptr`, so an
-- order that one of them changes is changed for all. The risk manager sees orders and trades by
-- value. The queues, the pool and the statistics are parts of their own. The simple server parses
-- each message of a client, submits the order to its engine and answers with an execution report and
-- the text of the book. The dashboard makes orders at random, has the risk manager check them, submits
-- them, counts them in the metrics and sends JSON texts to its clients.
--
-- Files:
--   Base: numbers, lists, options, integers over the native numbers, 64-bit words, `std::map` as a
--     sorted list of entries (Base.SortedMap) and `std::unordered_map` as an association list
--     (Base.Assoc).
--   Core: include/core/types.hpp (Core.Types), order.hpp (Core.Order) and trade.hpp (Core.Trade).
--     `double` is a type with operations and no laws (Core.Double). The clock of a constructor is
--     the argument `now`; the trades of a submission each take a reading of their own.
--   Store: the order objects. A reference is a number, a store gives the order behind each one, and
--     an operation that changes orders takes and returns the store.
--   PriceLevel: include/engine/price_level.hpp; Totals is about the cached total.
--   Book: include/engine/order_book.hpp. `addOrder` is add_order, `cancelOrder` cancel_order,
--     `modifyOrder` modify_order; Views has the const methods. Book.Side gives the abstract view, the
--     queue of a side in price-time order, and Book.Invariant the well-formed books: levels in key
--     order, none empty, each with orders of its own price, side and symbol, and the order map in
--     step with the queues, so that no order stands twice and every queued order is found by its ID.
--   Engine: include/engine/matching_engine.hpp, its state and the body of a matching loop;
--     Engine.Matching has `submitOrder` and the loops. Engine.AsWritten is about the engine with its
--     null placeholders for the front orders, Engine.Fills about the same loops with the order
--     book's own lookup, against one-pass references (fills, market_fills).
--   Risk: include/risk/risk_manager.hpp. `validateOrder` is validate_order, `updatePosition`
--     update_position (Risk.Update). The map of positions is a list of entries, in the order in which
--     the sums over it run.
--     Risk.Verdict has the limits as a list and Risk.Account a ledger of long and short holdings, by
--     which validations and trades are specified.
--   SpscQueue: include/utils/lockfree_queue.hpp, the class template LockFreeQueue. Its calls are
--     try_push, try_pop, count_items (`size`) and the tests of empty and full; SpscQueue.Threads
--     has the steps of two threads in any order.
--   MpscQueue: the class template MPSCQueue of the same file; a push is two steps, between which other
--     threads may run, and the producers that stand between them are part of the state.
--   MemoryPool: include/utils/memory_pool.hpp, the class template MemoryPool with one call at a time;
--     its nodes are numbers. `allocate` takes fuel for its retry, and 2 is enough.
--   Latency: include/utils/profiler.hpp, the class LatencyStats; `record` is record_latency.
--     Latency.Percentile has `getPercentile` and `getStdDev`.
--   Metrics: include/utils/metrics.hpp, the class SystemMetrics; Metrics.Report has `toString`, and
--     Metrics.Events what is recorded, as a list.
--   Config: include/utils/config.hpp; `loadFromFile` is load_from_file, `saveToFile` save_to_file.
--   Network.Fix: include/network/fix_message.hpp. `serialize`, `parse`, `toOrder`, `createNewOrder` and
--     `createExecutionReport` are serialize, parse, to_order, create_new_order and
--     create_execution_report; Fix.Tags has the numbers of the tags.
--   Network.TcpServer: include/network/tcp_server.hpp. What `accept` and `recv` return, and a call of
--     `stop`, are events, which the threads meet in any order; `stop` is begin_stop and can_return, the
--     test that no thread is left to join.
--   Network.WebSocket: include/network/websocket_server.hpp, the handshake, base64 and frames.
--   Network.MarketData: include/network/market_data.hpp, the texts of books, trades and statistics.
--   SimpleServer: src/simple_server.cpp, the message handler handle_fix_message.
--   Dashboard: src/dashboard_server.cpp, its texts and one round of the simulation.
--   Timer: include/utils/timer.hpp. Profiler: the class Profiler of include/utils/profiler.hpp.
--   Logger: include/utils/logger.hpp.
--   Display: the texts for display of orders, trades, levels, books and latencies (toString, toCSV and
--     displayBook of the core classes).
--   Base.Bytes: texts as lists of bytes; Decimal has decimal notation, Search the search in texts, and
--     Nesting a scanner of JSON brackets, by which the JSON texts are specified.
--   Tests: concrete inputs.
--
-- Fuel. The matching loops take fuel and answer `none` without it. With the placeholders a loop ends
-- in its first round, so 1 is enough. With the order book's lookup a round exhausts the incoming order
-- or takes an order out of the opposite queue, so any fuel above the length of that queue is enough.
-- Decimal digits of n take n + 1 rounds, which are enough since a division by 10 makes a number that is
-- not 0 smaller. The base64 loop takes one round more than the bits that wait, and its padding at most
-- 4 rounds.
--
-- Parameters. `double` and its decimal notation (Core.Double: `std::to_string`, `std::fixed`,
-- `std::stod`), `std::sqrt` and the conversion of a double to an integer; the readings of clocks and of
-- the cycle counter; the results of the socket calls; the numbers of `rand`; whether a file opens and
-- what it holds; and the text of `formatOrderBookJSON`, which the simple server calls and no file
-- declares.
--
-- Numbers. Quantities, identifiers and counters are natural numbers with the wrap of `uint64_t`
-- written out where the code adds or subtracts without a guard. Prices are integers; the spread and
-- the mid price wrap as `int64_t` does.
--
-- Not modelled: the log lines of the programs other than the warnings of the engine, the loops in which
-- the main functions wait and sleep, the demonstrations and tests under src/, and the allocator adapter
-- and the concurrent calls of the memory pool.
pub mod Base
pub mod Core
pub mod Store
pub mod PriceLevel
pub mod Book
pub mod Engine
pub mod Risk
pub mod SpscQueue
pub mod MpscQueue
pub mod MemoryPool
pub mod Latency
pub mod Metrics
pub mod Config
pub mod Network
pub mod SimpleServer
pub mod Dashboard
pub mod Timer
pub mod Profiler
pub mod Logger
pub mod Display
pub mod Tests

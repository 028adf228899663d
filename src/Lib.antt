-- ===== src/Lib.antt =====
-- A model of the core of cryptobot_algo, a C++ library for trading on Binance and Bybit: how the
-- order books are kept in step with the exchanges, the order book itself, the statistics over the last
-- prices, the strategy that reads them, the orders and their ids, and the profit of positions.
--
-- How the parts interact. A session receives snapshots and diffs of the order book, and a parser hands
-- them to a synchroniser (aoe/binance/order_book_sync, aoe/bybit/order_book_sync). The synchroniser
-- decides when the order book may apply them, when a packet was lost and when to start over, and calls
-- the order book (aos/order_book). Strategies read the best levels and add prices to a sliding window
-- (aos/sliding_window_storage), which keeps trackers of the average, the minimum and the maximum. A
-- strategy (aos/strategies) compares a value with the window, asks which assets are connected with it
-- (aos/market_triplet_manager) and what they share (aos/mutual_information), and signals what to trade.
-- A session (aoe/session/web_socket) runs coroutines that connect, read and write; what it reads goes
-- to listeners (aoe/response_queue_listener), whose coroutines parse a message (aoe/binance/parser,
-- aoe/bybit/parser) and hand the event over. Requests (aoe/binance/request, aoe/bybit/request) make
-- the JSON of an order from it and from the names of its enumerations (aos/converters, enum_printer).
-- Orders go through an order manager (aoe/binance/order_manager, aoe/bybit/order_manager), which takes
-- their ids from the manager of ids (aos/uid), keeps them in a storage and changes them as the events
-- of the exchange say.
--
-- Files:
--   Base            names of the libraries, tests and conditionals, lists, integers, maps
--   Binance         aoe/binance. EnumPrinter: the texts of its enumerations; Sync,
--                   order_book_sync/order_book_sync.h, has the state and the handlers
--                   ProcessSnapshot and ProcessDiff as functions on it; the classes of the spot and of
--                   the futures market differ in CheckPacketLost only, the parameter `lost`.
--                   Sync/Invariant: histories and the order of the calls; Sync/Buffer: the buffered
--                   diffs; Sync/Recovery: getting in
--                   step, and what a lost packet does
--   Bybit           aoe/bybit, likewise; Sync/Order has the theorems
--   OrderBook       aos/order_book/order_book.h. Level: levels and the specification of a side, a sorted
--                   list; Interfaces: what is used of Boost; Side: one side of OrderBookInner with its
--                   map, tree, memory and pool; Side/Nodes, Side/Removal, Side/Refine, Side/Clearing,
--                   Side/Room: that it implements the specification; Book: OrderBook and
--                   OrderBookEventListener; Tops: the export of the best levels; Notifiers:
--                   aos/order_book_subscriber, and Notifiers/Follows what their callbacks hear
--   Session         aoe/session/web_socket/web_socket.h. WebSocket: the coroutines of a session as frames,
--                   each at the operation that it waits for, and the events that resume one of them;
--                   the class that reads and writes and the class that only writes differ in two
--                   parameters. Conserved, Drained, Silent, Unconnected and Overlap: histories,
--                   over the steps of Frames, Held, Keeps and Served
--   Listener        aoe/response_queue_listener: the queue and the coroutine of a listener, with the parser
--                   and the receiver as parameters; Listener/InOrder: what is handed over; Listener/Strand: a
--                   receiver that spawns its handlers on a strand of its own, and Listener/Sound what
--                   holds of it at every moment
--   Parsers         aoe/binance/parser and aoe/bybit/parser. Doc: what is used of simdjson; Levels, Orders,
--                   Executions: the messages; Statuses, Unheard, Books, FirstOnly: the theorems, of
--                   which Books and Unheard put a parser into a listener and before its receiver
--   Converters      aos/trading_pair, aos/ticker and aos/converters
--   Requests        the order requests and cancellations of both exchanges. Json: what is used of
--                   nlohmann::json; Sent: what an accepted order contains
--   Subscriptions   the subscription builders of both exchanges, as what they give to a session; Named: which
--                   pairs have one
--   Trackers        aos/min_tracker, aos/max_tracker, aos/avg_tracker, aos/deviation_tracker and
--                   aos/sliding_window_storage. Frequency: std::map of counts; Extreme: the minimum and
--                   maximum trackers as one with two parameters; Average; Window; Window/Owned:
--                   the class that owns its trackers
--   Positions       aos/pnl and aos/position_strategy. Calculators: realized and unrealized profit;
--                   Unrealized: the storages of one price per key; Net and Net/Cost: net positions;
--                   Hedged and Hedged/Legs: positions with a long and a short leg;
--                   Storage: aos/position_storage, with net positions; Storage/Own has the theorem;
--                   Executions: the executions of orders, which change the storage; what they do to
--                   a quantity is in Executions/Quantities
--   Pool            aos/common/mem_pool.h. The pool that is an array of blocks: Free, when its search ends;
--                   Blocks, what an allocation does. ThreadSafe: the free list that threads share, as
--                   atomic operations; Alone, an operation that is not interrupted; Twice, one that is
--   Ids             aos/uid: pool, generator and manager of unique ids
--   Orders          aoe/binance/order and aoe/bybit/order. Storage: order_storage; Manager:
--                   order_manager, over the storage and the manager of ids; Binance and Bybit: the
--                   enumerations, the events and the watcher of each exchange; Bybit/Classes: the
--                   classes of Bybit, with the text of those of Binance. Storage/Maps: the storage as a
--                   map; Manager/Live, Changes, Reissue and Collide: histories of a manager;
--                   Binance/Events and Bybit/Events: what an event does in a history
--                   Multi: aos/multi_order_manager
--   Quantity        aoe/bybit/order_min_qty_calculator/calculator.h and the filter that it reads, in exact
--                   arithmetic
--   Strategy        aos/strategy/strategy.h, and the same loop of the observable windows. Rounds: the
--                   loop level by level; Deviation: aos/strategies/deviation_and_mutual_info and
--                   aos/strategy_engine; Deviation/Levels and Deviation/Signals: what it signals
--   Statistics      aos/histogram, aos/joint_histogram; Information: aos/mutual_information; Bins and
--                   Marginal: the counts
--   Triplets        aos/market_triplet_manager; Linked has the theorem
--   Tests           the theorems at concrete inputs, over small implementations of the parameters
--
-- Conventions. A coroutine is not interrupted between two operations that it waits for, since its
-- strand runs one at a time; whatever may happen while it waits is an event of the history. A
-- handler that runs on a strand is one step, since a strand runs one at a time. Calls of another
-- object are recorded in a list, newest first. uint64_t and size_t wrap at 2^64, written out.
-- Prices and quantities of the order book are natural numbers of ticks and lots; the values of the
-- trackers and of the profits are integers. The sources use doubles there: rounding is not
-- modelled, and division is a parameter (`quot`, `ratio`). boost::intrusive::avltree and
-- boost::pool are the records AvlTree and BoostPool of documented operations; a null pointer that
-- is dereferenced is `none`. Two loops are on fuel: that of Clear gets as much as there are nodes,
-- and the search of a pool as there are blocks.
--
-- Not modelled: the REST sessions and the wrappers of the web socket sessions of each exchange; the
-- requests for snapshots and amendments, signing and credentials; the parsers of trades and funding
-- rates; the logger, and the builders and containers, which only allocate; the order of iteration
-- of unordered maps and sets, and of the orders with one status; the logarithm of the mutual
-- information, a parameter; the queue of the strand, whose tasks run one after another; hedged
-- positions in the storages of positions and in executions; the totals over positions;
-- aos/position_tracker; the real-time mutual information.
pub mod Base
pub mod Binance
pub mod Bybit
pub mod Converters
pub mod Ids
pub mod Listener
pub mod OrderBook
pub mod Orders
pub mod Parsers
pub mod Pool
pub mod Positions
pub mod Quantity
pub mod Requests
pub mod Session
pub mod Statistics
pub mod Strategy
pub mod Subscriptions
pub mod Tests
pub mod Trackers
pub mod Triplets

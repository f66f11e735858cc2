-- ===== src/Lib.antt =====
-- moboware: the matching engine, from the bytes of a client's message to the trades it causes; the
-- application and the channels that it runs in; the containers of the common library; the feeds of market
-- data from the exchanges; and the socket servers and their sessions.
--
-- The program. The application (src/lib/applications/application.cpp) reads its configuration file, and loads
-- and starts its channels (src/lib/channels/web_socket_channel.cpp). A channel has a web socket server
-- (src/lib/web_socket), hands the data of its clients to all of its modules (src/lib/modules), and sends
-- their replies. The matching engine module hands each message to the event processor
-- (src/lib/modules/matching_engine_module/order_event_processor.cpp), which parses it as JSON, reads
-- the order data and calls the matching engine module (matching_engine_module.cpp). The module finds
-- the engine of the order's instrument. An engine (matching_engine.cpp) has a book of bids and a book
-- of asks. A book (order_book.cpp, include/modules/matching_engine_module/order_book.h) is a
-- `std::map` from prices to levels, the best price first, and a level (order_level.cpp) is the queue
-- of the orders at one price, the oldest first. After an insert or an amend that succeeds, the engine
-- matches the best levels of the two books as long as their prices cross, and sends a trade to the
-- caller's endpoint for each of the two orders of a match. A feed of market data (src/lib/exchanges)
-- subscribes to streams of an exchange and parses its messages, as the parser of JSON reads them, into
-- trade ticks, best prices and order books for its caller, for instance the calculator of an average
-- price (src/playground/market_data_feed). A socket server (src/lib/socket) keeps its sessions in a map
-- by the endpoint of the other side.
--
-- Which file models what:
--   Base            Booleans, options, lists measured by native numbers, texts as lists of bytes.
--   OrderData       order_data.h, order_data.cpp: the records of orders and replies, and `Validate`.
--                   OrderData/Wire has `SetData` of the three requests, Prices is about its prices;
--                   Messages has the texts of the outgoing messages, Grammar the grammar of JSON;
--                   Texts has the texts of orders, replies, trades and times for a reader.
--   PriceMap        the `std::map` of order_book.h: a list of prices and levels, sorted by the
--                   comparison of the side (`std::greater` for bids, `std::less` for asks).
--   OrderLevel      order_level.cpp: `Insert`, `TradeTopLevel`, `CancelOrder`, `FindOrder`, `MoveOrder`,
--                   `GetTopLevel`, `GetLastOrder`, `GetOrderBook`; OrderLevel/Laws is about the queue.
--   OrderBook       order_book.cpp: `Insert`, `Amend`, `Cancel`, `RemoveLevelAtPrice`, `GetOrderBook`.
--                   Invariant and Preserve have the well-formedness of a book, Full the absence of
--                   empty levels, Priority and AmendPrice the place of an order in the book, Edit and
--                   Withdraw the orders of a book as one list, Amend all branches of `Amend` on that list,
--                   Unknown the ids that no order has.
--   MatchingEngine  matching_engine.cpp: `OrderInsert`, `OrderAmend`, `OrderCancel`, `CheckMatch`,
--                   `ExecuteOrder`, `GetOrderBook`. Spec has the matching of two plain lists of orders,
--                   Steps the rounds of the loop as a relation, Refine the two together; Uncrossed,
--                   BestPrices and EmptyLevels are about the best levels, Trades about the trades,
--                   Requests about sequences of requests.
--   MatchingModule  matching_engine_module.cpp, order_event_processor.cpp: the handlers, with the map of
--                   engines as an association list. Routing is about the engine that a message reaches,
--                   Amends about the id of an amend that was read from a message, Replies about who is
--                   answered.
--   FastMap         src/lib/common/include/common/unordered_fast_map.hpp; FastMap/Entries is about the
--                   map as the list of its entries, Calls about sequences of calls.
--   RingBuffer      src/lib/common/include/common/ring_buffer.hpp, for elements of one byte: the array and
--                   the two pointers as positions. A `memcpy` between overlapping parts of the array is
--                   undefined, and the result `none`. RingBuffer/Windows is about parts of an array,
--                   Contents and Reading about the buffer as a queue. The addition of a size to a pointer
--                   does not wrap in the model.
--   CircularBuffer  src/lib/common/include/common/circular_buffer.hpp; Visits is about the elements that
--                   `Loop` visits, Latest about what was added last. The end index wraps at 2 ^ 64.
--   LockLessRingBuffer  src/lib/common/include/common/lock_less_ring_buffer.h: `Push`, `Pop` and the tests of
--                   the version that is compiled, with counters that wrap at 2 ^ 16. Fifo is about the
--                   slots between the counters, Calls about calls in sequence, Overrun about two calls of
--                   `Push` that overlap.
--   Exchange        src/lib/exchanges/exchange/include/exchange/exchange.hpp; Sax has the calls of the JSON
--                   parser and the chain of a parse, Search the two searches in texts.
--   Binance         src/lib/exchanges/binance/include/binance: the session handler and the subscription;
--                   Parsers has the parsers of trade ticks, book tickers and levels, and the stream parser.
--                   Streams is about the names of streams; Books about snapshots of an order book; Ticks
--                   about trade ticks and book tickers.
--   Bitstamp        src/lib/exchanges/bitstamp: bitstamp_stream_parser.cpp and the headers of its parser,
--                   session handler and feed; Trades is about trade ticks.
--   VwapCalculator  src/playground/market_data_feed/vwap_calculator.hpp, over the circular buffer.
--   SocketServer    src/lib/socket/include/socket: tcp_socket_server.hpp, ssl_socket_server.hpp and the closing
--                   and sending of socket_session_base.hpp. Table is the `std::map` of the sessions without
--                   its order; Accepting is about the start and the connections, Sessions and Removal about
--                   the closed sessions of the SSL server, Tcp about those of the TCP server. Each handler
--                   that the service runs is one step; what was posted runs in the order of the posts.
--   SocketSession   src/lib/socket/include/socket/socket_session_base.hpp: the read of a session over the ring
--                   buffer. Writing is about a write into the buffer, Stream and Delivery about the bytes on
--                   their way from the socket to the callback, and Connecting has `Accept` and `Connect` of
--                   the sessions over TCP and SSL.
--   SecureServer    src/lib/socket/include/socket: web_socket_server.hpp, web_socket_session.hpp, over the table and
--                   the posted removals of SocketServer. Pings is about the ping timer, Notices about the
--                   notices of a close, Connecting has `Accept` and `Connect` of its sessions.
--   TcpServer       src/lib/common/tcp_server.cpp, session.cpp, tcp_client.cpp: the server and the client of the
--                   common library. Removal is about the removals that the sessions post, Client is the client.
--   WebSocketServer src/lib/web_socket/web_socket_server.cpp, web_socket_session.cpp: the sessions by the
--                   operation that is pending on them. Checks is about the check of the closed sessions,
--                   Closes about the sessions that are left, Lifetimes and Dangling about sessions that are
--                   destroyed while they read, Connecting has `Connect` of a session.
--   Channel         src/lib/common/channel_base.cpp, src/lib/channels/web_socket_channel.cpp, and the modules of
--                   src/lib/modules: the configuration, the start, and the data of the clients. Loading is
--                   about a channel that is accepted, Starting about the calls of its start, Forwarding
--                   about the modules that a message reaches, Serving about the replies on their way back.
--   Application     src/lib/applications/application.cpp: `LoadConfig` and `Run`. Lines is about the lines of
--                   the configuration file, Running about the start of the channels.
--   Logger          src/lib/common/include/common/logger.hpp: levels, buffers, the queue and its writer.
--                   Buffers is about the text in a buffer, Lines about the text that reaches the file,
--                   Files has `SetLogFile` over a disk of named texts. How
--                   often the queue is found full, and whether the writer's wait was signalled, are arguments.
-- Each component's Tests file has runs on small inputs.
--
-- How the code is rendered. A method that changes an object takes it as its last argument and returns
-- it with the result. An iterator or a reference into a book is the price that it stands at, and a
-- write through it is `assign`. `CreateAndSendMessage` adds a message, with its endpoint, to a list.
-- A web socket that has got a close frame is closed at once: the closing handshake is one step.
-- An exception of `Process`, from the reading of a message, is `none`; it leaves the channel (`serve_data`
-- says so in its result) and reaches the service, which is not modelled. Prices, volumes and
-- the times of orders are natural numbers; what is read from a signed 64-bit number wraps at 2 ^ 64 (`to_uint64`).
-- The subtraction of volumes stops at 0 in the model; what the code takes off an order is the minimum of
-- its volume and another one.
--
-- Fuel. The loop of `ExecuteOrder` runs on the number of the orders of the two books: each round that
-- does not return uses up an order. The digits of a number are made on one more than the number, which
-- a division by 10 makes smaller. No other function has fuel.
--
-- Parameters. boost::json is the record `Json`: the parser, the typed accesses of a value, and the
-- printer, each of which may fail. The clock is the number of its reading. The type of endpoints, and
-- the endpoint of a message, are parameters of the engine. nlohmann's parser is the sequence of the
-- calls that it makes for a message (`SaxEvent`); it stops at the first call that returns false. `double`
-- and strtod are the record `Doubles`. Whether a call of a socket fails, and what a write sends, come
-- with each event of a server. What arrives at a session's socket, how much a read yields and what the
-- callback takes are arguments too, and so are, for the channels and the application, the values of
-- boost::json (`ConfigJson`), its incremental parser (`ConfigParser`) and the calls of the network that work.
--
-- Memory and time. The memory that is reserved for a vector of levels adds no element to it, and a write at
-- an index that is not below the size of the vector is undefined, the result `none`. The times of trade ticks
-- are signed 64-bit counts of nanoseconds, and their overflow is undefined too; the times of orders are
-- natural numbers and do not overflow.
--
-- Not modelled. The locks: each call holds its engine's lock, so that calls are a sequence. The
-- sockets, which are asynchronous input and output over boost, and with them the life of a session
-- that is still waited on, but for the server of src/lib/web_socket; the socket clients of
-- src/lib/socket, which own one session; the buffer sizes of sockets; the timers, whose expiry is
-- an event of the servers that ping; the starts of the exchanges'
-- clients; the other playground programs.
pub mod Base
pub mod OrderData
pub mod PriceMap
pub mod OrderLevel
pub mod OrderBook
pub mod MatchingEngine
pub mod MatchingModule
pub mod FastMap
pub mod RingBuffer
pub mod CircularBuffer
pub mod Exchange
pub mod Binance
pub mod Bitstamp
pub mod VwapCalculator
pub mod SocketServer
pub mod LockLessRingBuffer
pub mod Logger
pub mod SocketSession
pub mod WebSocketServer
pub mod Channel
pub mod Application
pub mod SecureServer
pub mod TcpServer

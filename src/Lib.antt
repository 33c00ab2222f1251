-- ===== src/Lib.antt =====
-- A verification library of the network monitor.
--
-- The program follows an underground network. `TransportNetwork` keeps the stations, the lines and
-- the passengers; `NetworkMonitor` loads its layout, connects a `StompClient` over a WebSocket, and
-- feeds the events that the client receives to the network. `StompFrame` parses what the server
-- sends. `WebSocketClient` chains the asynchronous operations of a connection.
--
-- Which file models which part:
--   Prelude and its children: shared names, `uint32_t`, signed integers, results of C++ calls, and
--     in Results and Loops what holds of a call if it returns, and of a loop over a list.
--   Map: `std::unordered_map` as a list of entries in the order of iteration.
--   Stomp: src/stomp-frame.cpp and inc/network-monitor/stomp-frame.h. Types has the enumerations and
--     the object, Tables the static tables, Frame the functions `Parse*` and the accessors, Stoi the
--     `std::stoi` of the standard library, Validate `Validate`. Wire states the wire format apart
--     from the parser; Scan, Cursor, HeaderLine, HeaderSound, HeaderBlock, BlockSound, Sections,
--     Syntax, Accepts, Correct and View prove what the parser does.
--   Transport: src/transport-network.cpp, src/transport-network-internal.cpp and their headers. Types
--     has the structures, Compare the operators `==`, Edge `RouteEdge`, Node `StationNode`, Network
--     `TransportNetwork`. Pointers says what each write does to the pointers between stations;
--     WellFormed states their invariant, which LineWellFormed proves for `AddLine` and Reachable for
--     every sequence of calls; Lines is about when `AddLine` returns; Serving, Carrying and LineServes
--     are about the routes that a station is served by after it, Passengers about the count of
--     passengers, TravelTime about `SetTravelTime` and `GetTravelTime`; Ride is
--     `GetTravelTime` along a route, Loading the loops of `FromJson` on what has been read, Reading
--     `FromJson` with the JSON library as a parameter. Search has the search of
--     `GetOptimalTravelRoute`, its child Itinerary the rest of it and its callers; of the others,
--     Walks says apart from the queue what can be reached and what it costs, Measure why the search
--     ends, Queue is about the queue, Relaxing, Visiting, Shortest and Ending what each loop keeps, and
--     Optimal what is found. Trails are walks that come to no stop twice, and Bounded says when
--     their metrics do not wrap; then Parents, Storing, Tracing and Backwards follow the parents
--     from stop to stop, Best has the travel route that comes of them, and Fastest the callers.
--   Client: inc/network-monitor/stomp-client.h. Types has the members and the effects, Handlers the
--     methods and the functions passed to the WebSocket client, Events the calls that a client
--     receives; Frames is about the frames that it sends and waits for, Runs about any sequence of
--     calls, Delivery about a whole session, Plain
--     about the calls that neither connect nor tell of a lost connection.
--   WebSocket: inc/network-monitor/websocket-client.h. Types has the members and the asynchronous
--     operations, Client the methods and the completion functions, World the client with the
--     operations that are pending; Reports counts them, Connections and Losses are about any sequence
--     of calls and ends of operations.
--   Stack: the StompClient over its WebSocketClient, the calls of one run as calls of the other. Wiring
--     says which functions the WebSocketClient has, Told and Projection what the StompClient is told of,
--     Runs is about any sequence of calls and ends of operations, Steps and Session about a whole
--     session.
--   Monitor: inc/network-monitor/network-monitor.h. Types has the members, Handlers `Configure`, the
--     functions passed to the client and `OnMessage`, Events the monitor with its client; Delivery
--     is about the messages, Session about the program from `Configure` on.
--   Downloader: src/file-downloader.cpp, as the calls of libcurl and of the file system, with what a
--     program may do with a handle and a file.
--   Tests: concrete inputs, and an instance of each property that has hypotheses.
--
-- Conventions. A `std::string` is the list of its bytes. An index that the source keeps in a
-- `uint32_t` wraps at 2 ^ 32; the properties are about frames below that length. Loops over an index
-- take the frame's length as fuel: Stomp/Scan proves that the loop has then ended by its own test. An
-- error code is a value of the result, an exception is `throws`, undefined behaviour is
-- `undefined_behaviour`.
-- A method of a client or of the monitor returns its object and its effects in their order: the calls
-- of the component below and of the caller's functions, and the lines of output. A `std::function` is
-- a value of any type `F`, or none if it is empty; the monitor's own are the constructors of
-- MonitorFunction, and `perform` runs them. The properties range over all sequences of calls and of
-- ends of operations, which is what `io_context::run` can make of them on one thread. The numbers that
-- `Subscribe` draws, the JSON library, the file that `Configure` parses, what the reading of the
-- certificate does, and the results of Boost are arguments. The caller's functions
-- are taken to be called when the handler of the client has ended, those of the StompClient in the
-- middle of the handlers of its WebSocketClient.
-- The edges of a network stand on a heap, a list that only grows, and a `shared_ptr` to one is its
-- index, since two stations share each edge. A loop over a `std::unordered_map` runs in the order of
-- the list that models the map, which no property assumes anything of. The loop of Transport/Ride may
-- go round in a circle, so it takes fuel, and its result says whether it has ended: one more than
-- the number of rounds is enough. So do the loops of Transport/Search; the one over the priority queue
-- needs no more rounds than `rounds` of Transport/Search/Ending gives, since each write lowers a metric
-- below 2 ^ 32, of one of the stops that the network has; and the loop over the parents no more than
-- there have been writes. The top of the priority queue, and the first of
-- the sorted paths, is an entry with the least metric; which of several, no property assumes.
--
-- Not modelled: the WebSocket server, whose members Run, OnRead and CreateSession do not compile for
-- any template arguments; `main`, and `NetworkMonitor::Run` but for its timer: `io_context::run`
-- returns only when no operation is pending, so that the end of the program depends on Boost; the
-- blocks that libcurl hands to `write_data`; the options of the WebSocket stream and the log of its
-- client.
mod Prelude
pub mod Map
pub mod Stomp
pub mod Transport
pub mod Client
pub mod WebSocket
pub mod Monitor
pub mod Downloader
mod Stack
mod Tests

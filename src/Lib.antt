-- ===== src/Lib.antt =====
-- The calculator server: HTTP/1.1 on POSIX sockets, with persistent and pipelined connections.
--
-- A connection reads bytes with `recv` and feeds them to a request parser; each request that the
-- parser completes goes to the handler (the router, which parses the query string, reads the operands
-- and calls the calculator), and the response is serialized behind those that wait for `send`. The
-- server polls all connections and calls them on readiness and on deadlines.
--
-- Which module is which file of the repository:
--   Text, Request, Response, Calculator, Query: src/text.cpp, src/request.cpp, src/response.cpp,
--     src/calculator.cpp, src/query.cpp and their headers under include/calc, function by function
--     under the same names; Calculator/Exact and RoundTrip and Query/Escapes and RoundTrip hold proofs.
--   Config: include/calc/config.hpp.
--   Parser: src/request_parser.cpp and include/calc/request_parser.hpp. The record RequestParser has
--     the fields of the class; `feed` and `next` return the new parser. The free functions are in
--     Parser/RequestLine, HeaderLine and BodyLength, `parse_head` is in Parser/Head. Parser/Stream is
--     the abstract parser, on the unread bytes alone; Parser/Delivery is a client that feeds reads and
--     calls `next` until nothing comes. Parser/Framing, Search, Newlines, Validity, Refinement,
--     Growth, Yields, Chunks, Bounds, Occupancy, Measure, Lines, Fields, Payload and RoundTrip hold
--     the proofs; RoundTrip has the messages that a client prints.
--   Router: src/router.cpp, with `is_valid_host` in Router/Host and the operands in Router/Operands;
--     Router/Report says what an answer must be, Slots which queries are accepted, and EndToEnd,
--     Soundness and Printed hold the proofs.
--   Connection: src/connection.cpp and include/calc/connection.hpp; Connection/State has the class and
--     its small functions, Input `recv`, Output `send`. Connection/Steps has the transitions as a
--     relation, labelled with the responses that they queue; Paths, Runs, Order, Buffer,
--     Recency, Rounds, Flushing, Waits, Liveness, Finality and Teardown hold the proofs.
--   Server: src/server.cpp and include/calc/server.hpp. `serve` is the loop of `run`, a round for each
--     answer of `poll`; Server/Sound, Invariant,
--     History, Timeout and Progress hold the proofs.
--   FileDescriptor: include/calc/file_descriptor.hpp, as objects that construct, move, reset and
--     release; FileDescriptor/Ownership holds the proofs.
--   SocketUtils: src/socket_utils.cpp; SocketUtils/Listening holds the proofs.
--   Main: src/main.cpp, the options and the exit status; Main/Options holds the proofs.
--   DemoClient: tools/demo_client.cpp. DemoClient/Reader is the class ResponseReader, Sockets has
--     `connect_once`, `send_all` and `socket_is_open`, Session is `main`, Table is `pad`, Numbers has
--     `std::stoi` and `std::stoul`; Filling, Texts, Lines, Heads, RoundTrip, Pipeline and Wire hold the
--     proofs, which meet the connection's responses.
--   Prelude: lists, bytes, decimal text, signed integers and tests, shared by all.
--
-- Numbers: a byte is a number below 256; std::size_t and std::uint64_t wrap around at 2^64 where a sum
-- may (u64); positions within a buffer do not. Times are numbers of nanoseconds since the start of the
-- clock, and `milliseconds` turns the constants of the configuration into them. A 64-bit signed value
-- is an integer ℤ that `fits`.
--
-- Fuel: the search loops of the parser have as much as the buffer has bytes, the loop over the lines
-- one per byte, a query one per byte and one more, `to_string` one more than the number; each round
-- takes a byte, or a digit. `drain` has two more than the buffered bytes. `respond_loop` and
-- `advance_loop` of the connection have a round for each buffered byte and each answer of `send`, and
-- two and three more. `parse_fields` of the client has as much as the head has bytes.
--
-- What is not under this repository is a parameter: the answers of `recv`, `send` and `shutdown`
-- are lists in the record Socket, over which the theorems quantify; a socket with no answers left
-- says EAGAIN. So are those of `poll` and `accept` for the server, of `socket`, `bind`, `listen`,
-- `connect` and `fcntl` for each address of `getaddrinfo`, of the client's blocking calls, and the
-- texts of `strerror` and `gai_strerror`. `double` with `std::strtod` is the record Doubles in
-- Main, with laws on bounds up to 2^53. The handler is a parameter of the connection, and may throw. `std::from_chars`,
-- `std::to_string` and the overflow builtins are definitions of their documented results.
--
-- Not modelled: the log (src/logger.cpp) and the texts made for it and for the screen, the signal
-- handlers of src/main.cpp (the stop request is the end of the answers of `poll`), options of sockets
-- whose result is ignored, `socket_endpoint` of the client (its texts are given), and the tests.
pub mod Prelude
pub mod Text
pub mod Config
pub mod Request
pub mod Parser
pub mod Response
pub mod Calculator
pub mod Query
pub mod Router
pub mod Connection
pub mod Server
pub mod FileDescriptor
pub mod SocketUtils
pub mod Main
pub mod DemoClient
mod Tests

-- ===== src/Lib.antt =====
-- A verification library of ramix, a Go framework for servers that talk to their clients in framed
-- messages over TCP and WebSocket.
--
-- How the program works. A server (server.go) is built from options (option.go), registers routes
-- and middleware in its router (router.go) and runs: it accepts connections, each with a reader, a
-- writer and a supervisor (connection.go). The reader feeds what it reads to a frame decoder
-- (frame_decoder.go), decodes each frame as a message (decoder.go) and hands the request to the
-- worker pool (worker_pool.go, worker.go), whose workers run the chain of handlers of the request's
-- route (context.go, recovery.go). What happens is counted (stats.go). Shutdown stops these parts
-- in order.
--
-- Which file models what. The functions keep their names, in snake case.
--   Prelude    shared names: numbers, tests, lists, the sentinel errors and results (errors.go)
--   Bytes      binary.LittleEndian and binary.BigEndian on lists of bytes
--   Codec      message.go, request.go, encoder.go, decoder.go
--   Frame      frame_decoder.go: NewFrameDecoder, validateConfiguration, Decode, decodeOne; below it
--              Config (which settings are accepted), Length and Reference (decodeOne against plain
--              numbers), Loop (the loop ends), Split, Stream and Feed (reads of any sizes), Wire (the
--              settings of a connection, the frames of encoded messages)
--   Transport  the two transports of option.go
--   Options    option.go: the options, and validateServerOptions against a description
--   Stats      stats.go: the counters, the compare-and-swap loops among other writers (Cas), the
--              tally of a history of calls (History), snapshots (Snapshot)
--   Pool       worker_pool.go, worker.go: the queues, the workers and the drain as steps in any
--              order; its invariant, the order of the tasks and the end of a drain
--   Server     server.go, server_state.go: the states of a server, the calls that change them and
--              the gate of connection setups, as a relation of steps of concurrent goroutines
--   Context    context.go, recovery.go: Next on a chain of handlers that call Next, panic or recover
--   Slices     Go's slices over arrays that they may share: append and copies (Append: what they keep)
--   Router     router.go: groups, Use, RegisterRoute and the frozen routes, over slices (Values: the
--              same calls with values that nothing shares; Owned, Changes: which slices share no
--              array; Refine: the slices show the values; Routes: calls that come too late)
--   Manager    manager.go: the groups of connections and those that are being finalized
--   Connection connection.go: the state of a connection, its sends, its writer and its close, as a
--              relation of steps (Sends: the account of the messages; Close: the order of a close;
--              Requests: the calls that ask for a close, whole)
--   Heartbeat  heartbeat.go: the activity clock and the expiry
--   Session    server.go (handleRequest, reportConnectionError); below it Tcp and WebSocket, the
--              readers of tcp_connection.go and ws_connection.go, and Serve, a service of messages
--              that both are compared with (TcpServes, SocketServes)
--   Writer     tcp_connection.go: writeFull over any answers of the writer
--   Admission  tcp_server.go, websocket_server.go: how connections are let in, as steps of the
--              accept loop and the upgrade handlers (Limit, Excess: how many there can be)
--   Launch     server.go: NewServer and the startup of Run, with what it binds (Checks, Bind, Parts:
--              what each part keeps; Outcome: where it ends)
--   Owner      server.go (shutdownOwner), manager.go (quiesceAll, forceCloseAll, waitAll): the goroutine
--              that shuts the server down, among the moves of all others (Keeps, Track, Loops, Waits:
--              what they keep; Closed: where it ends)
--   Export     stats_export.go: the Prometheus text and the JSON snapshot, over HTTP (Decimal, Lines
--              and Samples: the text read back)
--
-- How the parts meet. Session runs the decoder of Frame, the Codec, the Pool, the counters of Stats
-- and the close of Connection as the readers call them. Launch runs the validation of Options, the
-- life of Server and the constructors of Manager, Pool and Router. Owner runs the closes of
-- Connection, the drain of Pool, the sets of Manager and the end of Server. Export reads a snapshot
-- of Stats.
--
-- Conventions. `int` and `uint64` have 64 bits; an unsigned number is a natural number below its
-- bound, and every operation that can pass a bound is written with its test or its remainder. A
-- byte is a number below 256 and a string is the list of its bytes. A function that returns an
-- error gives a `Result`: a value, a sentinel error, or a run-time panic; the texts of errors are
-- left out. A critical section is one step; goroutines are any interleaving of such steps. A
-- counter that is changed without a lock is a loop over the writes that come between.
--
-- In the router, whose copies matter, a slice is a view of an array that another slice may write to,
-- and the room that append leaves in a new array is an argument. Elsewhere a slice is its value.
-- What a task's handlers take by the clock stands in the task, for any durations.
--
-- Fuel. Decode's loop takes one unit per round and gets one more than there are bytes: each round
-- cuts off a byte at least. Next's loop gets two more than there are handlers: each turn, nested
-- ones included, moves the context's step. That both are enough is proved, as no result is `stuck`
-- or `exhausted`. The rounds of waitAll and the answers of a writer are lists: that they are enough
-- is proved where the context ends in some round, and where there is an answer for every byte.
--
-- What is not modelled. Sockets, TLS, the HTTP upgrade, logging, the mode and the clock are I/O: what
-- a read, a write, a listen call, a key pair or a ticker answers is an argument, for any answers.
-- url.ParseRequestURI and path.Clean are parameters of the options' validation, GOMAXPROCS of the
-- defaults, and FormatFloat and the JSON encoder of the export. A connection's supervisor with its
-- children, the hooks, the ping and pong handlers and the keys of a context are not modelled.
pub mod Prelude
pub mod Bytes
pub mod Codec
pub mod Frame
pub mod Transport
pub mod Stats
pub mod Options
pub mod Pool
pub mod Context
pub mod Server
pub mod Router
pub mod Slices
pub mod Manager
pub mod Connection
pub mod Heartbeat
pub mod Session
pub mod Writer
pub mod Export
pub mod Admission
pub mod Launch
pub mod Owner

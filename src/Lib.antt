-- ===== src/Lib.antt =====
-- A model of hislip, a server for the High-Speed LAN Instrument Protocol of IVI-6.1, with the theorems
-- that make it correct.
--
-- The program. A client opens two connections to the server. On the synchronous one it sends program
-- messages as Data and DataEnd, and gets responses the same way; on the asynchronous one it asks for
-- the status, for locks and for a Device Clear while the other is busy. The package protocol/ has the
-- header of 16 bytes, the table of message types, versions and MessageIDs, and the reading and writing
-- of messages. The package server/ keeps a session for each pair of connections. A reader takes
-- messages off a connection, Accept decides whether the session takes them, a handler runs the
-- operation against the instrument (the interface Device), and the writers send what it answers.
--
-- Files and code. A module has the name of what it models, a child module that of what it proves.
--   Prelude, Errors            numbers, lists, tests; the sentinel errors and results
--   Protocol/Version           protocol/version.go: Less, Negotiate, the Initialize parameters
--   Protocol/MessageType       protocol/constants.go: the table of messages, and its queries
--   Protocol/MessageId         protocol/messageid.go: Counter with its wrap-around at 32 bits
--   Protocol/ErrorCode         protocol/errors.go: FatalCodeFor, ErrorCodeFor
--   Protocol/Header            protocol/header.go: DecodeHeader, Encode
--   Protocol/Codec             protocol/codec.go: CheckLength, ReadPayload, WriteMessage
--   Protocol/Stream            server/stream.go: a connection as a script of its reads and writes
--   Server/Rmt, Status         server/rmt.go, server/status.go: the trackers of a session
--   Server/Transaction         server/transaction.go: To and the methods that call it
--   Server/Locks               server/locks.go: LockManager; Request, which waits, in Locks/Waiting;
--                              Locks/Abstract has the lock table that it implements
--   Server/Policy              server/policy.go: SCPIQueryPolicy.Feed and the constant policies
--   Server/Device, Config      server/device.go, server/config.go
--   Server/WireError           server/errors.go: WireErrorFor
--   Server/Session, State      server/session.go, server/writer.go; State/Keeps has the rules by which
--                              Data, Reports and Serve are shown to write through the writers only
--   Server/Registry            server/server.go, server/initialize.go
--   Server/Lifetimes           the same two files over time: connections that come, leave and are closed,
--                              and the locks that sessions take and give up meanwhile
--   Server/Reader, Dispatch    server/reader.go (readOne, run), server/dispatch.go
--   Server/Reader/Pool         server/reader.go: the queue and the pool of buffers, as interleaved steps
--   Server/Data, Clear, Async  server/data.go, server/clear.go, server/async.go
--   Server/Reports, Serve      server/serve.go: error reports and counters, both message handlers
--   Server/Channels            server/serve.go: Serve, the channel set-ups and the loops; what goes out on
--                              the connections of a session, in Channels/Framing and Conversation
--   Listener                   listen.go: Listen, Serve and Close with the server's CloseAll, as interleaved
--                              steps
--   Internal/TestDevice        internal/testdevice/testdevice.go: the instrument of the tests
--   Internal/TestStream        internal/teststream/teststream.go: the streams of the tests
--   Simulated                  examples/server/main.go: the simulated SCPI instrument; Simulated/Strings
--                              has the functions of strings and strconv that it calls
--   Examples                   a scripted instrument, and the theorems at concrete inputs
--
-- State. State of Server/State.antt holds the instrument's state, the connections by number, the locks,
-- the counters and one session; a step takes it and returns a result with the new one, so that what was
-- done before an error stays done. Registry of Server/Registry.antt holds the sessions of a server. The
-- instrument is a record of functions over a state of any type, which every theorem takes. Errors are
-- values, and an error of other code is a text.
--
-- Bounds and fuel. Bytes, MessageIDs and lengths are natural numbers with the wrap-around of their
-- width written out; the counters are taken not to overflow. ReadPayload recurses on what remains.
-- The loop of Feed has two units of fuel for a byte (see Policy/Chunks.antt). The loop of SendResponse
-- has one unit for each read of the instrument: an instrument may give chunks without end, so the
-- theorems ask for more fuel than it gives chunks. A lock request that waits runs over a list of rounds,
-- each with the calls of other sessions in its gaps.
--
-- Not modelled: handlers of a session's two channels that run at the same time. A handler is one run, in
-- which the other channel's handler changes nothing; the source has a goroutine for each and no mutex over
-- a handler, so that the theorems on handlers are about runs that do not overlap. What an overlap does to
-- the asynchronous connection, on which both write, is in Channels/Torn. Left out too are the mutexes
-- (Request shows its own critical sections), goroutines other than as the steps of the reader, of the
-- listener and of a server's connections in any order, the hand-over of a session from its set-up to its
-- loop, the String methods and the logs, the parser of test vectors, and the main functions. The program
-- messages of the simulated instrument are ASCII, as SCPI is,
-- and its float64 is a parameter: zero, the parser and the printer.
pub mod Prelude
pub mod Errors
pub mod Protocol
pub mod Server
pub mod Simulated
pub mod Listener
pub mod Examples
pub mod Internal

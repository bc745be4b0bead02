-- ===== src/Lib.antt =====
-- A model of USSL, the Universal State Synchronization Layer: a server that keeps documents, lets
-- clients read and write them at paths, and synchronises them.
--
-- The parts. A connection (crates/ussl-transport/src/tcp.rs and websocket.rs) hands what it receives to
-- its handler (handler.rs), which parses it into commands (crates/ussl-protocol) and answers each. A
-- command names a document and a path in it. The manager (crates/ussl-core/src/manager.rs) keeps the
-- documents in a map by their ids, with their subscribers and the clients that are present. A document
-- (crates/ussl-core/src/document.rs) has a strategy, metadata, a tree of values and a document of the
-- CRDT library `yrs`. The tree and its paths are crates/ussl-core/src/crdt.rs. A rate limiter bounds
-- what a client may ask, and a storage keeps documents by their ids.
--
-- The files.
--   Prelude, Text, TextMap: library names, integers and words, texts as lists of UTF-8 bytes, and
--     `DashMap` as an association list.
--   Core/Error, Core/Strategy: crates/ussl-core/src/error.rs, and `Strategy` of crdt.rs.
--   Core/Path: `PathSegment::parse` of crdt.rs. `next` is `PathParser::next` on fuel, `collect` and
--     `segments` are the collected iterator. Path/Closed and Path/Spelling are about it.
--   Core/Value: `Value` of crdt.rs. `get_path` and `set_path` are the methods; `store` is the loop of
--     `set_path` from the current entry on. Value/Convert has `as_f64` and the conversions; Value/RoundTrip
--     and Value/Frame are about the paths.
--   Core/Document: document.rs. Document/Id and Document/Meta are `DocumentId` and `DocumentMeta`;
--     Document/State has `Document::get`, `set`, `delete`, `push`, `increment` and `set_ttl`,
--     Document/Sync has `encode_state`, `apply_update`, `apply_state` and `compact`.
--   Core/Manager: manager.rs. Manager/State has the operations of `DocumentManager`, Manager/Backup
--     `backup` and `restore`, Manager/Glob `matches_pattern`; the other files are about them.
--   Transport/RateLimit: crates/ussl-transport/src/rate_limit.rs, the token bucket on a clock of
--     nanoseconds. RateLimit/Bounds and RateLimit/Burst are about it.
--   Storage/Memory: crates/ussl-storage/src/memory.rs and the types of lib.rs beside it, with
--     `serde_json` as the record `Json`. Memory/Contract and Memory/Size are about it.
--   Storage/Sql: the statements of SQL that the two storages below run, as data, and what they mean on a
--     table; a connection is the record `Client`. Sql/Entries is about them.
--   Storage/Sqlite: crates/ussl-storage/src/sqlite.rs, with `rusqlite` as the record `Rusqlite`.
--     `upsert`, `entry_outputs`, `with_id` and `delete_row` are its statements; Sqlite/Agreement is about
--     it and Storage/Memory.
--   Storage/Postgres: crates/ussl-storage/src/postgres.rs, with `sqlx` as the record `Sqlx`, in the same
--     way. Postgres/Agreement is about it and Storage/Memory.
--   Protocol/Tokenizer: `Tokenizer` of crates/ussl-protocol/src/parser.rs. `next_token` and `rest` are
--     its methods; Tokenizer/Spelling is about them.
--   Protocol/Command: crates/ussl-protocol/src/command.rs and error.rs. The functions of `Command`
--     are in Command/New.
--   Protocol/Arguments, Protocol/Options: the parse functions of parser.rs, those whose arguments are
--     tokens alone and those with options or a value. A loop `while let Some(opt) = tokens.next()` runs
--     over `tokens_of`, which Tokenizer/Tokens defines and is about. Protocol/Json is `parse_value` and
--     `json_to_value`, with the reader of `serde_json` as the record `SerdeJson`.
--   Protocol/Parser: `Parser` of parser.rs. `feed` and `parse` are its methods, `dispatch` the `match`
--     of `parse_line`. Parser/Framing and Parser/Spelling are about them.
--   Protocol/Messages: `Display` of the errors of both crates.
--   Protocol/Response: crates/ussl-protocol/src/response.rs. `put` is what `encode_into` appends;
--     Response/Decimal and Response/Base64 are the numbers and `base64_encode`, Response/Frame is
--     about `encode`.
--   Transport/Handler: crates/ussl-transport/src/handler.rs. `Handler` is `ConnectionHandler`, `World`
--     what connections share: the manager, and the tasks that `persist_document` spawned.
--     Handler/Documents and Handler/Whole have one function for each `handle_` method, of the same name,
--     and `handle_command`; Handler/Process has `process`, whose loop is `process_loop`. The other files
--     below Handler are about them: Rounds, Drain and Parts about the loop, Gate and Password about the
--     authentication, Stands, Calls and Histories about the manager, Subscriptions, and SetGet.
--   Transport/Connection, Tcp, WebSocket: `handle_connection` of tcp.rs and `handle_ws_connection` of
--     websocket.rs, as machines on the events that `select!` gives. Connection has what the two have in
--     common. Connection/Orderly, Connection/Sent, Written and Closed are about them.
--   Transport/Accept, Servers: how a server of tcp.rs or websocket.rs is made, and the loop of its
--     `run`; `accept_all` is the loop on the arrivals, and Servers/Names is about it.
--   Transport/Tls: `TlsConfig::from_pem` of crates/ussl-transport/src/tls.rs, with the files and `rustls`
--     as the record `Rustls`.
--   Transport/Metrics: crates/ussl-transport/src/metrics.rs, with the registry of `prometheus` as the
--     record `Prometheus`. Metrics/Endpoint is what `MetricsServer` answers; Metrics/Registering,
--     Counting and Http are about them.
--   Daemon: crates/usld/src/main.rs. `start` is `main` up to the wait for the signal, and
--     `collect_garbage` one tick of the task that collects expired documents. Daemon/Settings and Guard
--     are about `start`.
--   Client: crates/ussl-cli/src/main.rs. `execute_command` is the function, on the reads that come in;
--     Client/Session is the rest of `main`. Client/Answers and Arrays are about it and the responses,
--     Client/Sending about it and the parser, and Client/Lines, Shows, Counts and Trimmed help them.
--   Text/Space, Text/Case, Text/Utf8: `trim`, `to_uppercase` and `String::from_utf8_lossy` on bytes.
--   Samples: concrete libraries in place of `yrs` and `serde_json`, and the theorems at concrete inputs.
--
-- Conventions. A method is a function that takes the state last and returns its result with the new
-- state. The clock is the argument `now`, in milliseconds. A `u64` or `i64` wraps around, as in a
-- release build. `Result` has a third outcome `hang` for a call that does not return. `yrs` is the
-- record `Yrs` of the calls that the code makes; what a theorem needs of it is `TextLaws` or
-- `SyncLaws`. The iterator over a path takes fuel: one more than the length of the path, which is
-- enough whenever any fuel is, since each call that gives a segment consumes a byte.
-- The loop of `process` takes one more fuel than the buffer has bytes, since each round takes a line
-- out of it, and a loop over tokens takes as much as the input has bytes, since each token has one. A
-- command that does not return makes a run `hung` and a connection `stuck`. A clock is read once for a
-- call of `process`. Which event comes next on a connection, which writes succeed, and what the other
-- connections make of what is shared in between is given from outside.
--
-- Not modelled: the limits of memory (an array that `set_path` pads to an index near the greatest
-- `usize` ends the program), the locks (an operation is one step), the order in which `DashMap` is walked (here
-- the order of insertion), `f64` (a parameter), the delivery of broadcast messages to receivers (a
-- connection is told which delta comes), the tasks that store documents (they are recorded, not run),
-- the sockets and the tasks of the loops that accept connections, the set-up of the databases, the
-- reading of the command lines, the banner and the logging of the daemon, of ussl-cli the line editor
-- and the texts of banner and help, and the programs of examples.
pub mod Prelude
pub mod Text
pub mod TextMap
pub mod Core
pub mod Transport
pub mod Storage
pub mod Protocol
pub mod Samples
pub mod Daemon
pub mod Client

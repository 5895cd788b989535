-- ===== src/Lib.antt =====
-- Braidpool's node: its connections, messages, configuration and payout updates.
--
-- The program. A node (node/run/src/main.rs) reads its configuration (node/config/src/lib.rs),
-- makes one table of connections and one broadcast channel, starts a heartbeat task, dials its
-- seeds and listens. Each connection is a task that runs `start` (node/connection/src/lib.rs): it
-- takes a place in the table (node/connection/src/connection_manager.rs), greets the peer, and
-- runs a read loop and a message handler until either returns. The handler answers by the
-- protocol (node/protocol/src). The library node/uhpo/src builds and signs the payout updates of a
-- pool; the node does not call it yet.
--
-- Where it is.
--   Base, Base/*           tests, lists, and what a Rust call comes to: `ok`, `err` or `panic`
--   Protocol, Protocol/*   node/protocol/src: messages (Message), the handlers of each kind (Ping,
--                          Handshake, Heartbeat), `Message::as_bytes`, `from_bytes` and
--                          `response_for_received` (Wire), and what replies there are (Replies)
--   Manager, Manager/*     node/connection/src/connection_manager.rs: `ConnectionManager` with
--                          `new`, `insert`, `remove`, `get`, `num_connections`; its hash map
--                          (Table), its invariant (Invariant), its contract (Registry), each
--                          method (Methods), calls about two peers (Commuting), and the table
--                          with the order of its entries forgotten (Unordered)
--   Connection/ReadLoop    `start_read_loop`           of node/connection/src/lib.rs
--   Connection/Handler     `handle_received`, `start_message_handler`
--   Connection/Session     `start`, with the entry in the table in Session/Registration
--   Connection/Heartbeat   `start_heartbeat`
--   Connection/Listen      `start_connection`, `connect`, `start_listen`
--   Connection/Io, Channels   tokio's channels and the writer, as parameters, and what they promise
--   Connection/Backpressure, Flow, Delivery, Answers, Writes, Backlog, Liveness, Pulse
--                          what the loops do
--   Node, Node/*           all tasks of a node over one table and one broadcast channel
--   Server, Server/*       the same node with the stream, channel, writer and broadcast receiver
--                          of each connection; Server/View says what the node of Node keeps
--   Link, Link/*           two connections at the two ends of one stream
--   Config, Config/*       node/config/src/lib.rs
--   Run, Run/*             node/run/src/main.rs (`main`) and cli.rs (`Cli`), and the node that they
--                          leave (Launch)
--   Uhpo, Uhpo/*           node/uhpo/src: `TransactionBuilder` (Builder), `PayoutUpdate` (Update,
--                          Payout, Cosigning, BothSigned, Chain), `add_signature` (Signature,
--                          Signing), `UhpoError` (Error); the crate bitcoin as a parameter (Bitcoin)
--   UnitTests, SignatureTests   the unit tests of each file, as functions that panic where an
--                          assertion fails (Base/Asserts)
--   Sample/*               instances of the parameters, on which the Tests modules run
--
-- How the code is read. A function that changes an object takes its state and returns the new
-- one. `Result` and panics are `Outcome`; a task is `Progress`, which goes on, has returned an
-- error, or has panicked, with the state that it reached. `main` also keeps the seeds that it has
-- dialled, whatever it comes to. Streams and receivers are the lists of what they will give. A
-- `select!` is run on a list of its branches, in the order in which they are polled, and a node on
-- a list of the steps of its tasks. The tasks run on several threads, so whatever they share can
-- change between two uses of it: each method of the table holds its mutex to its end and is one
-- step, and the heartbeat task asks the table and sends in two steps. A task that leaves, since
-- the table refuses it or it has panicked, drops its receiver in that step.
--
-- Parameters. `Codec` is serde with flexbuffers, `Mpsc` and `Broadcast` are tokio's channels,
-- `Sink` is the writing half of a stream, `Timer` is `tokio::time::Interval`, `System` is the files,
-- the resolver, the TOML parser and the logging crates, `Bitcoin` and `Crypto` are the crates
-- bitcoin and secp256k1. What the theorems use of them is in `IsRoundTrip`, `IsMpsc`,
-- `IsBroadcast`, `IsReliable`, `IsTimer`, `IsBitcoin`, `NeverPanics` and `IsSegwit`, each of which
-- states documented behaviour; Sample/* has an instance of every one. Equality of addresses is
-- decidable (`Discrete`). `enqueue`, in Server, says what a broadcast receiver will give once one
-- more message has been sent: it may drop messages where the receiver lags.
--
-- Bounds. `usize` and `u64` values of the configuration are numbers; nothing is computed with them
-- but comparisons and the printing of the port, whose twenty digits of fuel suffice below 2 ^ 64.
-- Amounts are below 2 ^ 64 satoshis, and their sums and differences panic out of that range. The
-- lists of turns, steps and stream items are finite, of any length. The system clock is an argument.
--
-- Not modelled. Log lines, the framing and the sockets of tokio, and the fairness of its
-- scheduler; the empty struct `PayoutSettlement`; what the spawned task of the heartbeat's unit
-- test finds, which no assertion looks at; streams that lose or break what they carry between two
-- linked nodes.
pub mod Base
pub mod Protocol
pub mod Manager
pub mod Connection
pub mod Node
pub mod Server
pub mod Link
pub mod Uhpo
pub mod Config
pub mod Run
pub mod Sample

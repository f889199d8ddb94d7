-- ===== src/Lib.antt =====
-- An xDS control plane for Envoy in six chapters (chapter-01 to chapter-06), each a program of its
-- own: a snapshot of resources, a stream that pushes it to a client, and in most chapters an admin
-- API that changes it. A library of definitions that follow the Rust text, and theorems on them.
--
-- The parts, and the files that model them:
-- * chapter-0N/controlplane/src/snapshot.rs, the builders of the snapshots: Chapter0N/Snapshot.antt,
--   over the messages of Config.antt, the shared builders of Config/Parts.antt and the constants and
--   tags of Config/Names.antt. A message has the fields that some builder sets.
-- * `push_if_new` and the `select!` loop of the State-of-the-World stream, in chapters 2, 3 and 6:
--   Sotw/Push.antt and Sotw/Loop.antt. The laws are in Sotw/Converge, Turns, Resend, Nack and
--   Subscribe. Chapter 2 adds its rollback to the loop as an argument; chapters 3 and 6 fill the
--   interface of Sotw/Counter.antt, and Sotw/Counted.antt is the theorem on it. Chapter02/Refinement.antt
--   has the service that chapter 2 is to be, with a label for each event, and Sotw/Shown.antt what a turn shows of it.
-- * `send_delta` and the loop of the incremental stream, in chapters 4 and 5: Delta/Send.antt and
--   Delta/Loop.antt. The chapters differ in the record `Selection` of Delta.antt. Delta/Client.antt is
--   the specification: what a client holds by applying the responses. Delta/Held.antt is the same for a
--   client that connects again and claims what it holds.
-- * chapter-0N/controlplane/src/main.rs, the two remote calls: Chapter0N/Service.antt, over Rpc.antt.
-- * The same files, `Control` and `handle_admin`: Chapter02/Control and Admin,
--   Chapter03/Control, Chapter04/Control, Chapter05/Control, Chapter06/Control and Weights. The loop
--   of chapter 1, which has no watch channel, is Chapter01/Stream.antt.
-- * `resolve_upstream` and its like, the resolution of a host's name: Resolve.antt. What `main` does
--   with it: each chapter's Startup.antt.
-- * chapter-0N/upstream/src/main.rs, the backends: Upstream.antt (the answer to a request, in both
--   forms), Upstream/Port.antt, and Chapter06/Backends.antt for the load reports.
--
-- Two readings of the snapshots stand beside the builders. Config/Graph.antt follows the references
-- of the encoded resources from a listener to the hosts, as a proxy does, given a decoder that reads
-- back what was encoded (`Codec`); the chapters' theorems are in Chapter0N/Reading.antt, and
-- Coding.antt has a codec that meets the law. Chapter05/Parsing.antt splits the `xdstp` names.
--
-- How they interact: the admin API (in chapter 6 the ORCA clients) acts on the control state, which
-- sends a snapshot over a `tokio::sync::watch` channel; the task of each stream takes a turn when the
-- client sends a message or, if it sent none, when the channel has a change. A history is a list of
-- such events, in any order, and the state of a stream's task with the control state is `World`.
-- There each method of `Control` and each turn is one atomic event. Below that, Tasks.antt of chapters
-- 2, 3, 4 and 6 takes the locks and atomic operations of a method one by one: tasks that share the control
-- state take actions in any order (Concurrent.antt, and `Reach` for chapter 2). Sotw/Workers.antt puts
-- any number of streams beside such tasks. A turn of a stream reads the shared state once, and all
-- that follows it in the turn touches the stream's own state only, so a turn is one action; a NACK of
-- chapter 2 takes the last good snapshot in one action and advertises it in another. Sotw/Author.antt
-- is the interface of the tasks that make snapshots, with a ghost ledger of the versions given out,
-- Sotw/Actions and Delivery are the theorems on it, and Chapter02/Ledger, Chapter03/Network and Chapter06/Network
-- fill it.
-- Delta/Workers and Delivery are the same for incremental streams, and chapter 4 has its Network.antt.
--
-- What stands for code that is not in the repository is a parameter: `encode` for the encoder of
-- prost, the record `Watch` of External.antt for tokio's watch channel with its documented laws,
-- `tx` for whether the client still takes responses, `HashOrder` for the order of Rust's hash maps,
-- `lookup` for the resolver, `generate` and `minted` for what rcgen returns, `F64` for the operations on `f64`,
-- `HeaderValue` for what two functions of the crate `http` take as a header. External.antt, Prelude/Maps.antt and
-- Chapter06/Fixed.antt show an instance of each interface. `F64` has laws of
-- IEEE 754 only; the order is `<=`, which is false of NaN.
--
-- Bounds: the counters are `u64` and wrap at 2^64; theorems that need versions to differ ask for
-- fewer events. The resolution has ten attempts, as in the source. All other recursion is structural.
--
-- Not modelled: sockets, logging, timers, signals and task spawning; the parse of a backend's
-- utilization; build scripts; backpressure of the outbound channel; the stream task's own steps
-- between two awaits.
mod Prelude
mod Samples
mod Coding
pub mod External
pub mod Concurrent
pub mod Http
pub mod Rpc
pub mod Upstream
pub mod Config
pub mod Resolve
pub mod Sotw
pub mod Delta
pub mod Chapter01
pub mod Chapter02
pub mod Chapter03
pub mod Chapter04
pub mod Chapter05
pub mod Chapter06

-- ===== src/Lib.antt =====
-- NagisaLake dispatches ComfyUI jobs from a Hub to Workers that connect to it. These files model the
-- parts of the program that keep state about jobs and Workers, and the messages between them.
--
-- The parts and how they interact:
-- * crates/nagisalake-protocol names the messages. Protocol.antt and its children have one record
--   per struct and one data type per enum of src/messages.rs. JSON values are a type `J` with the
--   operations that the code calls on them (Protocol/Json.antt), `f32` is Protocol/Float.antt.
--   Protocol/Validate.antt and its children are src/validate.rs, the checks of every message that
--   comes in.
-- * crates/nagisalake-hub-auth says who may do what (src/principal.rs): Auth.antt.
-- * crates/nagisalake-core names the states of a job and the transitions between them: Core.antt;
--   Core/Lifecycle.antt has the transitions as a step relation.
-- * crates/nagisalake-journal keeps the jobs of a Worker through restarts. Journal/Memory.antt is the
--   in-memory journal on a sorted dictionary, Journal/Sqlite.antt the SQLite journal on a table of
--   rows (Journal/Sqlite/WorkerJobs.antt, decoded in Journal/Sqlite/Decode.antt), Journal/State.antt
--   the checks that they share, and Journal/Spec.antt the contract of both: what a request does to the one job that it names.
-- * crates/nagisalake-rpc carries messages: Rpc/Code.antt the status codes, Rpc/Frames.antt the
--   headers of frames and their parsers, Rpc/Words.antt the integers in them, and Rpc/Framing.antt
--   and its children the reader and the writer of a stream of frames (src/framing.rs). A read or a
--   write of the socket is an entry of a list, so any batching and any cut of the bytes is a value.
-- * apps/nagisalake-hub/src/hub/sessions.rs is the directory of connected Workers, from which the Hub
--   reserves capacity for a command: Hub/Sessions.antt and its children, where
--   Hub/Sessions/Machine.antt has all calls as the steps of one machine. Each call of the source holds
--   the write lock from its first read to its last write, so a concurrent run is a sequence of calls.
--   Hub/WorkerIds.antt is the id that hub/worker.rs gives to a registration.
-- * apps/nagisalake-hub/src/ratelimit.rs throttles requests: Hub/RateLimit.antt has the token buckets,
--   Hub/RateLimit/Tables.antt the shards and the limiter, Hub/RateLimit/Address.antt the address that a
--   request is counted under. Hub/Eviction.antt is the queue of accesses by which it forgets the
--   oldest caller.
-- * apps/nagisalake-hub/src/hub/state.rs keeps what the Hub has read from its store for some seconds:
--   Hub/ReadCache.antt, on the same queue.
-- * apps/nagisalake-hub/src/hub/worker.rs and hub/jobs.rs change the jobs that the Hub keeps in memory:
--   Hub/Jobs.antt has the records, Hub/Jobs/Events.antt the events of Workers, Hub/Jobs/Cancel.antt
--   cancellations and errors. A call reads a job under one lock and writes it under a later one, and
--   takes the jobs of both times as arguments, so any interleaving with other calls is covered.
-- * Hub/Uploads.antt is the end of an upload in hub/worker.rs, with `artifact_record` of hub/api.rs.
--   Its call takes five locks, one after the other, and the data of each are an argument.
-- * apps/nagisalake-hub/src/hub/scheduler.rs binds queued jobs to Workers: Hub/Scheduler.antt. It works
--   on the directory of Hub/Sessions.antt, whose machine its passes are runs of.
-- * crates/nagisalake-workflow binds inputs to places in the JSON of a workflow: Workflow/Pointer.antt
--   and its children are src/pointer.rs, with strings as lists of code points.
-- * Examples.antt and its children apply the theorems to concrete values.
--
-- Conventions: `&mut self` is a state that goes in and comes out; `Result` is the type of that name
-- in Prelude/Tests.antt; unsigned integers are natural numbers, with saturation written where the
-- source saturates; time is an argument. All recursion is structural but that of `drain` in
-- Rpc/Framing.antt, on a fuel of one more than the bytes in the buffer: each round takes four or more.
--
-- Not modelled: the SQL of the store behind the Hub (its answers are arguments), failures of the
-- database under the SQLite journal, serde attributes, logging and
-- metrics, the channels to the Workers (what is sent on them is in the answers of the calls), and the
-- parts of the program that are I/O over HTTP, SQL or sockets.
pub mod Prelude
pub mod Protocol
pub mod Core
pub mod Journal
pub mod Rpc
pub mod Auth
pub mod Hub
pub mod Workflow
pub mod Examples

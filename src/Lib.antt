-- ===== src/Lib.antt =====
-- Ballista's scheduler and executors: a verification library for the Rust crates under rust/.
--
-- A client submits a query to the scheduler (rust/scheduler/src/lib.rs), which has DataFusion make
-- a physical plan of it and cuts that into query stages (rust/scheduler/src/planner.rs). The
-- stages and a pending task for each of their partitions are stored in a backend, sled or etcd,
-- through the state (rust/scheduler/src/state/mod.rs, standalone.rs, etcd.rs). Executors
-- (rust/executor/src/execution_loop.rs) poll the scheduler: a poll reports the statuses of tasks,
-- may hand out a task whose inputs are completed, with its shuffles resolved to the locations of
-- those inputs, and brings the jobs' records up to date.
--
-- Prelude: the library's names, Boolean tests on numbers, list helpers.
-- Text: Rust strings as lists of bytes; Text/Decimal is `{}` of a number, Text/Split `split('/')`.
-- Error: rust/core/src/error.rs. `Result` has a third case for a panic. Error/Actions has the
--   actions on a state that the async methods become: what was written before an error stays
--   written. Error/Ensures is for what holds if an action succeeds, Error/Returns for actions that
--   do succeed.
-- Proto: the messages of rust/core/proto/ballista.proto; a `oneof` is an option of a data type.
-- Serde: rust/core/src/serde/scheduler; Serde/Actions its actions, Serde/RoundTrip the proofs.
-- The files Plan: rust/core/src/execution_plans and `find_unresolved_shuffles` of the state.
--   DataFusion's operators are the record `DataFusion`: kind, schema, partition count and
--   `with_new_children`.
-- Planner: `plan_query_stages`, `plan_query_stages_internal`, its loops and cases as functions of
--   their own. Planner/Shuffles is `remove_unresolved_shuffles`, Planner/Chunks the locations that
--   `execute_query_stage` computes. Planner/Execute is `execute` and
--   `execute_distributed_query`. Planner/Order, Stages, Cuts, Results, Total, Resolved, Resolves,
--   Executed and Panics hold the specifications and proofs.
-- Backend: `ConfigBackendClient` and the map that it promises; Backend/Entries that map,
--   Backend/Standalone the sled client with its mutex, Backend/Etcd the etcd client with its lock.
-- State: the methods of `SchedulerState`, with State/Keys the keys, State/Codec the calls of prost,
--   State/Assign `assign_next_schedulable_task`, State/JobState and State/Synchronize
--   `get_job_status_from_tasks` and `synchronize_job_status`. State/KeyLaws, Backed, Records,
--   Located, Pushes, Readers, Blocked, Listed, Assigned, JobSpec and Synchronized hold the proofs.
-- Server: the handlers `poll_work`, `get_job_status` and `get_executors_metadata`; Server/Submit is
--   `execute_query` with the task that it spawns, Server/Files `get_file_metadata`. Server/Polls
--   and Server/Failures hold proofs.
-- Executor: the polling loop and the spawned tasks as a step relation; Executor/Slots its
--   invariants.
-- Client: `collect` of rust/client/src/context.rs, and Client/Waiting the proofs on it.
-- Logical: rust/core/src/serde/logical_plan. Logical/Arrow has Arrow's types, Logical/Messages their
--   messages. Types, Scalars, Functions, Exprs and Plans are the conversions of data types and
--   schemas, scalar values and their types, operators and functions, expressions, and plans, with
--   Writing for to_proto.rs and Reading for from_proto.rs. Types/Enums and Scalars/Checked are the
--   second readings that the code has of types and of lists. Exprs/ReadBack and Plans/Rebuild say
--   what survives; the other files below these hold proofs.
-- Physical: rust/core/src/serde/physical_plan. Physical/Exprs and Physical/Writing are to_proto.rs,
--   Physical/Reading is from_proto.rs; Physical/Rebuild says what survives, and the other files
--   hold proofs.
-- Format: `format_plan` of rust/core/src/utils.rs, and the logs that evaluate it. `PlanTexts` has the
--   texts of DataFusion's operators and which logs are on; Format/Prints says when logs succeed.
-- Diagram: `produce_diagram` of rust/core/src/utils.rs, whose counter `id` is passed along; a plan is
--   drawn as lines, which are then rendered. Diagram/Numbering and Diagram/Sources hold the proofs.
-- Examples: instances of the parameters, and runs.
--
-- Code outside the repository is a parameter: DataFusion, sled (`Sled`), etcd (`Etcd`), prost
-- (`Prost`, with `IsProst` for what protocol buffers promise), the query engine, tonic's rendering
-- of a status, DataFusion's `LogicalPlanBuilder`, its physical planner and the constructors of its
-- plans (`PhysicalBuilder`), and the `Debug` texts of other libraries' types. The order in which a
-- `HashMap` is iterated is a parameter as well. The state and the actions take the conversions of
-- plans as an interface (`PlanSerde`).
--
-- Numbers are unbounded where the source has `usize` and no cast; the casts to u32, u16, u8, i16 and
-- i8 and the executor's atomic counter wrap. `slice::chunks` runs on fuel, the number of partitions:
-- each chunk takes at least one. The client's polling runs on fuel, the number of polls; more than
-- those that find the job pending are enough. A port is a number, read through its cast to u16.
--
-- A mutex is modelled as what follows once its lock is had: waiting for another poll is no step. A
-- task without id or plan makes the executor's loop panic; that ends the loop, and is no step either.
--
-- Not modelled: Arrow and Flight IO, timing, the gRPC transport, logs that cannot fail,
-- failures to write a diagram's file, the Python bindings and the JDBC driver.
pub mod Prelude
pub mod Text
pub mod Error
pub mod Proto
pub mod Serde
pub mod Plan
pub mod Planner
pub mod Backend
pub mod State
pub mod Server
pub mod Executor
pub mod Client
pub mod Logical
pub mod Physical
pub mod Format
pub mod Diagram
pub mod Examples

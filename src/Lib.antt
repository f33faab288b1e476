-- ===== src/Lib.antt =====
-- ProofGraph: the verification library.
--
-- ProofGraph is a canvas of typed nodes and edges whose content is proposed by generation runs. A
-- run is a row of a table in PostgreSQL; workers claim it under a lease with an epoch, work through
-- its stages with checkpoints, and hand over a patch of graph operations. What happens to a run is
-- told by an append-only log of events, numbered on the canvas and in the run. What a change of the
-- graph makes out of date is found along the dependencies of the edges.
--
-- Files and the code they are about:
--   Base, Json        shared helpers: tests, lists, results and transactions, JSON values.
--   Retention         proofgraph/generation/retention.py: what a stored payload may hold.
--   Tables            proofgraph/generation/models.py and schemas.py: rows and envelopes.
--   Events            proofgraph/generation/events.py: append_event_locked.
--   Queue             proofgraph/generation/queue.py: leases, exhausted runs, the fenced lock;
--                     Queue/Recovery: finalize_expired_patch_ready_runs; Queue/Claim: claim_run;
--                     Queue/Rows, Queue/Order and Queue/Steps: picking a row, and what may
--                     become of it.
--   Services          proofgraph/generation/services.py: cancel and retry a run, and read it;
--                     Services/Selection: validate_explicit_selection of context.py;
--                     Services/Fingerprint and Creation: create_generation_run; Services/Creating,
--                     Keeping, Repeating, Fitting and Suitable: what it leaves behind.
--   Execution         proofgraph/generation/execution.py: the executor's transactions;
--                     Execution/Stages: begin_stage and complete_stage; Execution/Endings:
--                     cancellation, failure, the patch and completion;
--                     Execution/Checkpoints: what a completed stage is worth.
--   Lifecycle         the transactions of the queue, the services, the executor and the reset of a demo
--                     session as one type of actions, and histories of them in any order;
--                     Lifecycle/CleanUp, Fairness, Fencing, Exclusion and Reset: the loop on
--                     exhausted runs, the order of claims, and what becomes of leases.
--   Graph             proofgraph/graph/models.py and staleness.py: Graph/Tables the rows,
--                     Graph/Queries queries on them, Graph/Traversal reachable_dependents,
--                     Graph/Staleness capturing and resolving an invalidation,
--                     Graph/Staleness/Marking apply_staleness.
--   Graph/Operations  proofgraph/graph/operations.py and serialization.py: Payload, Kinds and
--                     Metadata validate a request; Rows reads and writes the tables; Changes,
--                     Nodes, Edges, Assumptions, Support and Review are the handlers; Apply is
--                     apply_graph_operation. Calls, Keys, Revisions and Versions: calls in
--                     a row; Effects: what the handlers may do to the tables; Integrity: the
--                     constraints of the tables.
--   Patch             proofgraph/generation/patch_application.py: the selection of the operations
--                     of a patch and their order.
--   Stream            proofgraph/generation/sse.py: the events that a subscriber of a canvas gets;
--                     Stream/Sorting and Delivery: their order, and which they are.
--   Demo              proofgraph/demo/quotas.py: the quotas of hybrid runs;
--                     Demo/Fencing: cleanup.py and services.py, the runs of a session that ends.
--   Examples          tests and concrete instances.
--
-- The state is a record of tables (Tables.Store). A transaction takes the state and returns a result
-- with the new state, or an error, and an error leaves the state as it was, as a rolled back
-- transaction does. Row locks make transactions on one row follow each other, so that an
-- interleaving of workers is a sequence of transactions. Histories (Lifecycle) take the runs that are
-- there; creating runs is in Services. Each transaction gets its clock, its new
-- identifiers and the rows that others have locked as arguments, with no assumption on them.
--
-- Identifiers are natural numbers, timestamps count microseconds. A UUID's text is its 32 digits in
-- groups (Queue/Uuid). The column types of the database are unbounded here.
--
-- Loops: terminalize_exhausted_runs and finalize_expired_patch_ready_runs run on fuel, and `none`
-- says that it ran out; one more than the runs that have not failed is enough for the first.
-- reachable_dependents runs with a unit of fuel for each root and each dependency, and _selection
-- with a round for each selected id; both are enough for every input.
--
-- Pydantic's reading of a stored stage result is an argument of begin_stage; a column of JSON gives
-- back the value that was stored. A transaction has one time, which stands for the times of its
-- statements (`Now()` of PostgreSQL is the statement's). An event type outside the enumeration is refused by the constraint
-- ck_event_type and does not occur here.
--
-- Not modelled: telemetry and logging; the HTTP handlers; calls of providers and research services;
-- the loop of process_claimed_run; the web client; migrations; the evaluation
-- workflow.
pub mod Base
pub mod Json
pub mod Retention
pub mod Tables
pub mod Events
pub mod Queue
pub mod Services
pub mod Execution
pub mod Lifecycle
pub mod Graph
pub mod Patch
pub mod Demo
pub mod Stream
mod Examples

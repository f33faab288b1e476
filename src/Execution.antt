-- ===== src/Execution.antt =====
-- proofgraph/generation/execution.py: the transactions of a worker on the run that it has leased.
-- `now` is the start of a transaction, `clock` what `timezone.now()` returns in it. Rows: the
-- stage table and what is dumped as JSON; Stages: beginning and completing a stage; Endings: how a
-- run is cancelled, fails or completes; Checkpoints: a completed stage is reused.
pub mod Rows
pub mod Stages
pub mod Endings
pub mod Checkpoints

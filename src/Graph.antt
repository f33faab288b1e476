-- ===== src/Graph.antt =====
-- proofgraph/graph: the canvas graph. Ids: sets of identifiers; Tables: the rows; Queries: queries
-- on them; Traversal: the breadth-first search over dependencies; Staleness: what an operation
-- makes stale; Operations: the operations.
pub mod Ids
pub mod Tables
pub mod Queries
pub mod Traversal
pub mod Staleness
pub mod Operations

-- ===== src/Graph/Operations.antt =====
-- proofgraph/graph/operations.py: the localized operations on a canvas. Payload and Kinds read a
-- request; Metadata: which metadata it may write; Serialization: rows as JSON; Rows: the rows that
-- it names; Changes, Nodes, Edges, Assumptions, Support and Review: the handlers; Settling and
-- Apply: apply_graph_operation; Effects: what the handlers may do to the tables; Integrity: the
-- constraints of the tables; Calls, Keys, Revisions and Versions: calls in a row.
pub mod Payload
pub mod Kinds
pub mod Metadata
pub mod Serialization
pub mod Rows
pub mod Changes
pub mod Nodes
pub mod Edges
pub mod Support
pub mod Assumptions
pub mod Review
pub mod Settling
pub mod Apply
pub mod Effects
pub mod Integrity
pub mod Calls
pub mod Keys
pub mod Revisions
pub mod Versions

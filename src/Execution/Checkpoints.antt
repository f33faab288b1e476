-- ===== src/Execution/Checkpoints.antt =====
-- What _begin_stage makes of a stage that _complete_stage has stored.
use proofgraph.Json.{Json}

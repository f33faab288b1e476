-- ===== src/Lifecycle/Reset.antt =====
-- proofgraph/demo/services.py: the reset of a demo session takes its runs from their workers.
use proofgraph.Lifecycle.Sound.{Sound}

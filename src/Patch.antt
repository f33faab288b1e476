-- ===== src/Patch.antt =====
-- proofgraph/generation/patch_application.py: applying a reviewed patch. Selection: the operations
-- that a request selects, in an order that respects their dependencies.
pub mod Selection

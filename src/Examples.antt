-- ===== src/Examples.antt =====
-- The theorems at concrete inputs, and tests of the definitions.
mod Samples
mod Lifecycle
mod Queue
mod Execution
mod Reset
mod Retention
mod Graph
mod Operations
mod Services
mod Patch
mod Demo
mod Stream

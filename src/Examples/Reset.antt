-- ===== src/Examples/Reset.antt =====
-- The reset of a demo session while a worker holds its run.
use proofgraph.Base.{some, committed}
use proofgraph.Tables.{GenerationRun, Store}
use proofgraph.Demo.Fencing.{reset_run}
use proofgraph.Examples.Samples.{running_run, table}

-- A run of session 3 on canvas 7, leased until 50.
abbrev demo_run : GenerationRun
demo_run = record running_run { request = record running_run.request { demo_session_id = some 3 } }

after_reset : Store
after_reset = committed (table demo_run) (reset_run 3 7 1 40 (table demo_run))

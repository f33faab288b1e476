-- ===== src/Examples/Execution.antt =====
-- A checkpoint at concrete inputs.
use proofgraph.Base.{Option, none, some, [], ◌∷◌, committed}
use proofgraph.Json.{Json, Items, Fields}
use proofgraph.Tables.{StageStatus, StageResult, GenerationStage, Store}
use proofgraph.Execution.Stages.{complete_stage}
use proofgraph.Examples.Samples.{running_run, table, first_lease}

abbrev planning : GenerationStage
planning = record {
  id = 5;
  run_id = 1;
  name = "planning";
  input_hash = "ab";
  status = StageStatus.running;
  attempt = 1;
  openai_response_id = none;
  output = none;
  error = none;
  started_at = some 21;
  completed_at = none;
}

abbrev plan : StageResult
plan = record {
  stage_name = "planning";
  output = Fields.end;
  provider_identity = "replay";
  model_response_id = none;
  token_usage = none;
  progress_events = [];
}

abbrev planned : Store
planned = record (table running_run) { stages = planning ∷ [] }

-- A reader of the dumps of results without text for the response, usage and events.
read_result : Json → Option StageResult
read_result
      (Json.obj (
        Fields.field _ _ (
          Fields.field _ (Json.text name) (
            Fields.field _ (Json.obj output) (
              Fields.field _ (Json.text provider) (
                Fields.field _ Json.null (
                  Fields.field _ Json.null (Fields.field _ (Json.arr Items.nil) Fields.end)))))))) =
    some (record {
      stage_name = name;
      output = output;
      provider_identity = provider;
      model_response_id = none;
      token_usage = none;
      progress_events = [];
    })
read_result _ = none

after_planning : Store
after_planning = committed planned (complete_stage first_lease 5 plan 30 31 planned)

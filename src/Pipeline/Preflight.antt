-- ===== src/Pipeline/Preflight.antt =====
-- `preflight_processing_pipeline_inputs` of packages/domain/services/processing_pipeline.py.
use gis_agent.Prelude.{String, false, Option, none, some, List, [], str_eq, if◌then◌else◌}
use gis_agent.Prelude.Result.{Result, ok, ◌>>=◌}
use gis_agent.Prelude.Dict.{insert, lookup}
use gis_agent.Plan.{OperationNode}
use gis_agent.Pipeline.Schedule.{Ending, run_nodes, unresolved, raised, completed, empty_plan}
use gis_agent.Pipeline.Files.{FilePath, Files}
use gis_agent.Pipeline.Sources.{
  SourceError, References, or_text, text_at, resolve_raster_source, resolve_vector_source,
}

-- `references`, and the files on the disk.
pub record Inputs : Type 0 where
  pub references : References
  pub files : Files

-- `str(outputs.get(slot) or step_id or default)`
unfoldable pub output_ref : String → String → OperationNode → String
unfolding lookup
output_ref slot default node = or_text (text_at slot node.outputs) (or_text node.step_id default)

abbrev pub publish : String → References → FilePath × Files → Inputs
publish ref references (path, files) = record {
  references = insert ref path references;
  files = files;
}

module _ (working_dir : String) where
  -- What the loop does with a node.
  unfoldable pub preflight_node : OperationNode → Inputs → Result SourceError Inputs
  unfolding resolve_raster_source resolve_vector_source insert output_ref
  preflight_node node inputs =
      if str_eq node.op_name "input.upload_raster"
      then (do
        source ← resolve_raster_source working_dir false node inputs.references inputs.files
        ok (publish (output_ref "raster" "uploaded_raster" node) inputs.references source))
      else if str_eq node.op_name "input.upload_vector"
      then (do
        source ← resolve_vector_source working_dir false node inputs.references inputs.files
        ok (publish (output_ref "vector" "uploaded_vector" node) inputs.references source))
      else ok inputs

  -- `preflight_processing_pipeline_inputs`
  unfoldable pub preflight_inputs : List OperationNode → Files → Option (Ending Inputs SourceError)
  unfolding run_nodes preflight_node
  preflight_inputs nodes files =
      run_nodes preflight_node nodes (record { references = []; files = files })

-- What `approve_task_plan` learns of it: the text of the exception, if there is one. `message` is
-- the text of each.
abbrev pub exception_text :
    (Ending Inputs SourceError → String) → Option (Ending Inputs SourceError) → Option String
exception_text message none = some ""
exception_text message (some (completed final)) = none
exception_text message (some empty_plan) = some (message empty_plan)
exception_text message (some (raised e)) = some (message (raised e))
exception_text message (some (unresolved ids inputs)) = some (message (unresolved ids inputs))

-- The preflight of `approve_task_plan`, with the directory of each task.
abbrev pub preflight_of :
    (Ending Inputs SourceError → String)
    → (String → String)
    → Files
    → String
    → List OperationNode
    → Option String
preflight_of message working_dir files task_id nodes =
    exception_text message (preflight_inputs (working_dir task_id) nodes files)

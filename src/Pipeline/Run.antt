-- ===== src/Pipeline/Run.antt =====
-- `run_processing_pipeline` of packages/domain/services/processing_pipeline.py: the dispatch of a
-- node, the events, and what is returned.
use gis_agent.Prelude.{String, true, Option, none, some, List, [], ◌∷◌, ◌++◌, str_eq, if◌then◌else◌}
use gis_agent.Prelude.Result.{Result, ok, err, ◌>>=◌}
use gis_agent.Prelude.Text.{append_text}
use gis_agent.Prelude.Dict.{Dict, insert, lookup}
use gis_agent.Plan.{OperationNode}
use gis_agent.Pipeline.Schedule.{Ending, run_nodes}
use gis_agent.Pipeline.Files.{FilePath, Files, join}
use gis_agent.Pipeline.Sources.{
  References, or_text, Resolved, resolve_raster_source, resolve_vector_source,
}
use gis_agent.Pipeline.Preflight.{output_ref}
use gis_agent.Pipeline.Context.{
  Context, StepError, from_library, unresolved_source, unsupported_operation, start_context,
}
use gis_agent.Pipeline.Export.{Writer, export}

-- Where an operation of rasterio or shapely puts its result: the output that names it, the name where
-- there is none, and the suffix of the file.
pub record Target : Type 0 where
  pub slot : String
  pub default : String
  pub suffix : String

abbrev pub raster_at : String → Target
raster_at default = record { slot = "raster"; default = default; suffix = ".tif" }

abbrev pub vector_at : String → Target
vector_at default = record { slot = "vector"; default = default; suffix = ".geojson" }

-- The branches of the dispatcher, but for the inputs and the export.
unfoldable pub operation_targets : Dict Target
operation_targets =
    ("raster.clip", raster_at "raster_clip")
    ∷ ("raster.reproject", raster_at "raster_reproject")
    ∷ ("raster.resample", raster_at "raster_resample")
    ∷ ("raster.band_math", raster_at "raster_math")
    ∷ ("raster.zonal_stats", record { slot = "table"; default = "zonal_stats"; suffix = ".csv" })
    ∷ ("raster.terrain_slope", raster_at "raster_terrain_slope")
    ∷ ("raster.terrain_aspect", raster_at "raster_terrain_aspect")
    ∷ ("raster.hillshade", raster_at "raster_hillshade")
    ∷ ("raster.mosaic", raster_at "raster_mosaic")
    ∷ ("raster.reclassify", raster_at "raster_reclassify")
    ∷ ("raster.mask", raster_at "raster_mask")
    ∷ ("raster.rasterize", raster_at "raster_rasterize")
    ∷ ("vector.buffer", vector_at "vector_buffer")
    ∷ ("vector.clip", vector_at "vector_clip")
    ∷ ("vector.intersection", vector_at "vector_intersection")
    ∷ ("vector.dissolve", vector_at "vector_dissolve")
    ∷ ("vector.reproject", vector_at "vector_reproject")
    ∷ ("vector.union", vector_at "vector_union")
    ∷ ("vector.erase", vector_at "vector_erase")
    ∷ ("vector.simplify", vector_at "vector_simplify")
    ∷ ("vector.spatial_join", vector_at "vector_spatial_join")
    ∷ ("vector.repair", vector_at "vector_repair")
    ∷ []

-- What rasterio and shapely compute for an operation and write to its file: they raise, or leave the
-- files behind the write.
abbrev pub Operator : Type 0
Operator = OperationNode → FilePath → References → Files → Result String Files

-- `detail` of an event.
pub data Detail : Type 0 where
  depends_on : List String → Detail
  failure : StepError → Detail
  no_detail : Detail

pub record PipelineEvent : Type 0 where
  pub event_type : String
  pub step_id : String
  pub op_name : String
  pub status : String
  pub detail : Detail

abbrev pub event : String → String → OperationNode → Detail → PipelineEvent
event event_type status node detail = record {
  event_type = event_type;
  step_id = node.step_id;
  op_name = node.op_name;
  status = status;
  detail = detail;
}

abbrev pub started_event : OperationNode → PipelineEvent
started_event node = event "operation_node_started" "running" node (depends_on node.depends_on)

abbrev pub failed_event : OperationNode → StepError → PipelineEvent
failed_event node e = event "operation_node_failed" "failed" node (failure e)

abbrev pub completed_event : OperationNode → PipelineEvent
completed_event node = event "operation_node_completed" "success" node no_detail

-- The events so far, and what the steps work on.
pub record Running : Type 0 where
  pub log : List PipelineEvent
  pub context : Context

-- An exception of a step, with the events until then.
pub record Failure : Type 0 where
  pub log : List PipelineEvent
  pub exception : StepError

abbrev pub as_step_error : Resolved → Result StepError (FilePath × Files)
as_step_error (err e) = err (unresolved_source e)
as_step_error (ok source) = ok source

abbrev pub refer_to : String → Context → FilePath × Files → Context
unfolding insert
refer_to ref c (path, files) = record c { references = insert ref path c.references; files = files }

module _ (operate : Operator) (write : Writer) (working_dir : String) where
  -- A branch of an operation.
  unfoldable pub operation : Target → OperationNode → Context → Result StepError Context
  unfolding output_ref insert
  operation at node c =
      let ref = output_ref at.slot at.default node in
      let path = join working_dir (append_text (or_text node.step_id ref) at.suffix) in
      do
        files ← from_library (operate node path c.references c.files)
        ok (refer_to ref c (path, files))

  unfoldable pub operation_or_error :
      Option Target → OperationNode → Context → Result StepError Context
  unfolding operation
  operation_or_error none node c = err (unsupported_operation node.op_name)
  operation_or_error (some at) node c = operation at node c

  unfoldable pub raster_input : OperationNode → Context → Result StepError Context
  unfolding output_ref insert resolve_raster_source
  raster_input node c = do
    source ← as_step_error (resolve_raster_source working_dir true node c.references c.files)
    ok (refer_to (output_ref "raster" "uploaded_raster" node) c source)

  unfoldable pub vector_input : OperationNode → Context → Result StepError Context
  unfolding output_ref insert resolve_vector_source
  vector_input node c = do
    source ← as_step_error (resolve_vector_source working_dir true node c.references c.files)
    ok (refer_to (output_ref "vector" "uploaded_vector" node) c source)

  -- The `try` block.
  unfoldable pub dispatch : OperationNode → Context → Result StepError Context
  unfolding raster_input vector_input export operation_or_error operation_targets lookup
  dispatch node c =
      if str_eq node.op_name "input.upload_raster"
      then raster_input node c
      else if str_eq node.op_name "input.upload_vector"
      then vector_input node c
      else if str_eq node.op_name "artifact.export"
      then export write working_dir node c
      else operation_or_error (lookup node.op_name operation_targets) node c

  -- The `try` block with the events around it.
  unfoldable pub observe :
      OperationNode → List PipelineEvent → Result StepError Context → Result Failure Running
  observe node log (err e) = err (record { log = log ++ failed_event node e ∷ []; exception = e })
  observe node log (ok c) = ok (record { log = log ++ completed_event node ∷ []; context = c })

  unfoldable pub run_node : OperationNode → Running → Result Failure Running
  unfolding observe dispatch
  run_node node r = observe node (r.log ++ started_event node ∷ []) (dispatch node r.context)

  -- The loop of `run_processing_pipeline`.
  unfoldable pub run_pipeline : List OperationNode → Files → Option (Ending Running Failure)
  unfolding run_nodes run_node
  run_pipeline nodes files =
      run_nodes run_node nodes (record { log = []; context = start_context files })

-- ===== src/Tests/Pipelines.antt =====
-- Runs of the pipeline over small plans, and the theorems about it at these inputs.
use gis_agent.Prelude.{
  String, true, false, Option, some, List, [], ◌∷◌, ◌≡◌, refl, mem, distinct, str_eq, if◌then◌else◌,
}
use gis_agent.Prelude.Result.{Result, ok, err}
use gis_agent.Prelude.Dict.{lookup, insert}
use gis_agent.Value.{str, list, item, no_items}
use gis_agent.Plan.{OperationNode, validated, plan_fits_schema}
use gis_agent.Lifecycle.{Submitted, approve_task_plan}
use gis_agent.Lifecycle.Approval.{Approved}
use gis_agent.Pipeline.Schedule.{Ending, run_nodes, completed, raised, unresolved}
use gis_agent.Pipeline.Executed.{RunsTo}
use gis_agent.Pipeline.Rounds.{run_nodes-RunsTo}
use gis_agent.Pipeline.Order.{RunsThrough, accepted-RunsThrough}
use gis_agent.Pipeline.Files.{FilePath, named, Files, suffix}
use gis_agent.Pipeline.Sources.{SourceError, no_raster_source}
use gis_agent.Pipeline.Preflight.{Inputs, preflight_inputs, preflight_of}
use gis_agent.Pipeline.Ready.{Known, preflight-Known}
use gis_agent.Pipeline.Approved.{IsRunnable, Approved-IsRunnable}
use gis_agent.Pipeline.Context.{Context, StepError, start_context}
use gis_agent.Pipeline.Export.{Writer}
use gis_agent.Pipeline.Exports.{IsExport, export-IsExport}
use gis_agent.Pipeline.Export as Export
use gis_agent.Pipeline.Run.{Operator, Running, Failure, run_pipeline, dispatch}
use gis_agent.Pipeline.Log.{Logged, run_pipeline-Logged}
use gis_agent.Pipeline.Branches.{Branch, dispatch-Branch}
use gis_agent.Pipeline.Outputs.{
  PipelineOutputs, pipeline_outputs, IsOutput, pipeline_outputs-IsOutput,
}
use gis_agent.Pipeline.Files.{with_file}
use gis_agent.Pipeline.Context.{geotiff, png_map}
use gis_agent.Registry.{operation_specs}
use gis_agent.PlanGuard.Graph.{detect_cycle, topological_sort}
use gis_agent.PlanGuard.Inputs.{is_type_compatible}
use gis_agent.PlanGuard.Fallback.{validate_required_params, has_external_input_fallback}
use gis_agent.PlanGuard.Chain.{validate_operation_plan}
use gis_agent.TaskState.{task_status_transitions, set_task_status, append_task_event, reload_steps}
use gis_agent.PlanJson.{fits_plan_response}
use gis_agent.Lifecycle.{update_task_plan_draft}
use gis_agent.Tests.Plans.{edited_task, handed}
use gis_agent.Tests.Guard.{sample, sample_passes, load, clip}
use gis_agent.Tests.Guard as Guard

-- Steps that only note their names.
abbrev note_step : OperationNode → List String → Result String (List String)
note_step node done = ok (node.step_id ∷ done)

abbrev looped : List OperationNode
looped = record clip { depends_on = "export" ∷ [] } ∷ Guard.export ∷ load ∷ []

sample_order :
    run_nodes note_step sample.nodes [] ≡ some (completed ("export" ∷ "clip" ∷ "load" ∷ []))
unfolding run_nodes mem
sample_order = refl

loop_unresolved :
    run_nodes note_step looped [] ≡ some (unresolved ("clip" ∷ "export" ∷ []) ("load" ∷ []))
unfolding run_nodes mem
loop_unresolved = refl

run_nodes-RunsTo_example :
    (e : Ending (List String) String) × (run_nodes note_step looped [] ≡ some e)
    × RunsTo note_step [] looped e
run_nodes-RunsTo_example = run_nodes-RunsTo note_step [] looped (unfold distinct in refl) refl

accepted-RunsThrough_example : RunsThrough note_step [] sample.nodes
accepted-RunsThrough_example =
    accepted-RunsThrough note_step [] sample (record sample { status = validated }) sample_passes
      (unfold distinct in refl)

-- A disk that holds one raster.
abbrev one_raster : Files
one_raster = record {
  exists = λ path. elim path [ named s ↦ mem s ("/data/dem.tif" ∷ []) | _ ↦ false ];
  opens = λ path. true;
}

abbrev no_files : Files
no_files = record { exists = λ path. false; opens = λ path. false }

name_suffix : suffix (named "/data/a.b/c.TIF/") ≡ ".TIF"
unfolding suffix
name_suffix = refl

hidden_suffix : suffix (named "/data/.tif") ≡ ""
unfolding suffix
hidden_suffix = refl

abbrev sources : Inputs
sources = record { references = ("raster_in", named "/data/dem.tif") ∷ []; files = one_raster }

sample_preflight : preflight_inputs "/tmp" sample.nodes one_raster ≡ some (completed sources)
unfolding preflight_inputs mem
sample_preflight = refl

preflight-Known_example : Known one_raster sample.nodes sources
preflight-Known_example =
    preflight-Known "/tmp" one_raster sample.nodes sources (unfold distinct in refl)
      sample_preflight

preflight_misses :
    preflight_inputs "/tmp" (record load { params = [] } ∷ []) one_raster
    ≡ some (raised (no_raster_source "load"))
unfolding preflight_inputs
preflight_misses = refl

abbrev message : Ending Inputs SourceError → String
message e = "no inputs"

abbrev checked : String → List OperationNode → Option String
checked = preflight_of message (λ task_id. "/tmp") one_raster

abbrev handed_over : Submitted
handed_over = handed edited_task (approve_task_plan checked "async" edited_task "task_1" 2)

approval_with_preflight : approve_task_plan checked "async" edited_task "task_1" 2 ≡ ok handed_over
unfolding update_task_plan_draft approve_task_plan validate_operation_plan detect_cycle
    topological_sort lookup insert operation_specs validate_required_params is_type_compatible
    has_external_input_fallback fits_plan_response plan_fits_schema set_task_status
    task_status_transitions append_task_event reload_steps preflight_inputs mem
approval_with_preflight = refl

Approved-IsRunnable_example :
    (a : Approved checked "async" edited_task "task_1" 2 handed_over) × IsRunnable one_raster
      a.plan.nodes
Approved-IsRunnable_example =
    Approved-IsRunnable message (λ task_id. "/tmp") one_raster "async" edited_task "task_1" 2
      handed_over approval_with_preflight

-- Operations and writers that write what they are told to.
abbrev with_path : FilePath → Files → Result String Files
with_path path files = ok (with_file path files)

abbrev operate_well : Operator
operate_well node path references files = with_path path files

abbrev pub write_well : Writer
write_well format source path files = with_path path files

abbrev fail_at : String → Operator
fail_at op node path references files =
    if str_eq node.op_name op then err "no such band" else with_path path files

run_pipeline-Logged_example :
    (e : Ending Running Failure) × (run_pipeline
        (fail_at "raster.clip")
        write_well
        "/tmp"
        sample.nodes
        one_raster
      ≡ some e)
    × Logged (fail_at "raster.clip") write_well "/tmp" one_raster sample.nodes e
run_pipeline-Logged_example =
    run_pipeline-Logged (fail_at "raster.clip") write_well "/tmp" one_raster sample.nodes
      (unfold distinct in refl) refl

dispatch-Branch_example :
    Branch operate_well write_well "/tmp" clip
      (start_context one_raster)
      (dispatch operate_well write_well "/tmp" clip (start_context one_raster))
dispatch-Branch_example =
    dispatch-Branch operate_well write_well "/tmp" clip (start_context one_raster)
      (unfold mem in refl)

abbrev two_formats : OperationNode
two_formats = record Guard.export {
  params = ("formats", list (item (str "GeoTIFF") (item (str "png") no_items))) ∷ [];
}

abbrev pub clipped : Context
clipped = record (start_context (with_file (named "/tmp/clip.tif") one_raster)) {
  references = ("clipped", named "/tmp/clip.tif") ∷ [];
}

abbrev or_same : Context → Result StepError Context → Context
or_same c (ok c') = c'
or_same c (err e) = c

abbrev shipped : Context
shipped = or_same clipped (Export.export write_well "/tmp" two_formats clipped)

export_returns : Export.export write_well "/tmp" two_formats clipped ≡ ok shipped
unfolding Export.export lookup insert mem
export_returns = refl

export-IsExport_example : IsExport write_well "/tmp" two_formats clipped shipped
export-IsExport_example =
    export-IsExport write_well "/tmp" two_formats clipped shipped export_returns

exported_both :
    shipped.artifacts
    ≡ record { artifact_type = geotiff; path = named "/tmp/clip.tif"; source_step = "export" }
      ∷ record {
        artifact_type = png_map;
        path = named "/tmp/export_preview.png";
        source_step = "export";
      }
      ∷ []
unfolding Export.export lookup insert mem
exported_both = refl

abbrev count_files : FilePath → Files → String
count_files path files = "8 x 8"

abbrev delivered : PipelineOutputs String
delivered = record {
  artifacts = shipped.artifacts;
  tif_path = some (named "/tmp/clip.tif");
  png_path = some (named "/tmp/export_preview.png");
  metrics = some "8 x 8";
}

outputs_return : pipeline_outputs count_files write_well "/tmp" shipped ≡ ok delivered
unfolding pipeline_outputs Export.export lookup insert mem
outputs_return = refl

pipeline_outputs-IsOutput_example : IsOutput count_files write_well "/tmp" shipped delivered
pipeline_outputs-IsOutput_example =
    pipeline_outputs-IsOutput count_files write_well "/tmp" shipped delivered outputs_return

-- ===== src/Tests/Builds.antt =====
-- Plans that are built for small tasks, and the theorems about the builder at these inputs.
use gis_agent.Prelude.{String, some, List, [], ◌∷◌, ◌≡◌, refl, mem, dedup_from, none, false}
use gis_agent.Prelude.Result.{Result, ok, err}
use gis_agent.Prelude.Dict.{lookup, insert, update}
use gis_agent.Value.{Value, str, list, Items, item, no_items}
use gis_agent.Registry.{operation_specs}
use gis_agent.Plan.{OperationNode, OperationPlan, draft, validated, step_ids}
use gis_agent.PlanGuard.Graph.{detect_cycle, topological_sort}
use gis_agent.PlanGuard.Inputs.{is_type_compatible}
use gis_agent.PlanGuard.Fallback.{validate_required_params, has_external_input_fallback}
use gis_agent.PlanGuard.Chain.{validate_operation_plan, finished}
use gis_agent.Pipeline.Export.{export}
use gis_agent.Pipeline.Defaults.{default_params_of, default_export_raises}
use gis_agent.Builder.Decimal.{decimal}
use gis_agent.Builder.Request.{ParsedTaskSpec}
use gis_agent.Builder.Formats.{normalize_export_formats}
use gis_agent.Builder.Nodes.{build_operation_plan_from_registry}
use gis_agent.Builder.Built.{IsBuilt, build-IsBuilt}
use gis_agent.Builder.Exportable.{IsExportable, normalize-IsExportable}
use gis_agent.Tests.Guard as Guard
use gis_agent.Tests.Pipelines.{write_well, clipped}

numbers : decimal 1207 "_x" ≡ "1207_x"
unfolding decimal
numbers = refl

-- A task that asks for `operations`.
abbrev asking : List Value → ParsedTaskSpec
asking operations = record {
  analysis_type = "CLIP";
  operation_params =
      ("operations", list (items operations))
      ∷ ("source_path", str "/data/dem.tif")
      ∷ ("clip_path", str "aoi.geojson")
      ∷ [];
  preferred_output = "PNG" ∷ "methods_text" ∷ [];
  requested_dataset = none;
  need_confirmation = false;
  missing_fields = [];
}
  where
    items : List Value → Items
    items [] = no_items
    items (v ∷ vs) = item v (items vs)

abbrev or_none : Result String OperationPlan → List OperationNode
or_none (ok plan) = plan.nodes
or_none (err e) = []

abbrev clip_task : ParsedTaskSpec
clip_task =
    asking (
      str "input.upload_raster" ∷ str " raster.clip " ∷ str "raster.magic" ∷ str "raster.clip" ∷ [])

clip_steps :
    step_ids (or_none (build_operation_plan_from_registry clip_task 1 draft []))
    ≡ "step_1_input_upload_raster" ∷ "step_2_raster_clip" ∷ "step_3_artifact_export" ∷ []
unfolding build_operation_plan_from_registry decimal lookup insert operation_specs update mem
    dedup_from
clip_steps = refl

build-IsBuilt_example :
    (plan : OperationPlan) × (build_operation_plan_from_registry clip_task 1 draft [] ≡ ok plan)
    × IsBuilt clip_task plan
build-IsBuilt_example = build-IsBuilt clip_task 1 draft [] refl

normalize-IsExportable_example :
    IsExportable (normalize_export_formats (some "table") ("PNG" ∷ "methods_text" ∷ []))
normalize-IsExportable_example = normalize-IsExportable (some "table") ("PNG" ∷ "methods_text" ∷ [])

abbrev default_export : OperationNode
default_export = record Guard.export { params = default_params_of "artifact.export" }

default_export_raises_example : ¬ (export write_well "/tmp" default_export clipped ≡ ok clipped)
default_export_raises_example =
    default_export_raises write_well "/tmp" default_export refl clipped clipped

-- The same formats in a plan that the guard lets pass.
abbrev export_task : ParsedTaskSpec
export_task = asking (str "input.upload_raster" ∷ str "artifact.export" ∷ [])

abbrev with_nodes : List OperationNode → OperationPlan
with_nodes nodes = record Guard.sample { nodes = nodes }

export_plan_passes :
    validate_operation_plan
      (with_nodes (or_none (build_operation_plan_from_registry export_task 1 draft [])))
    ≡ finished (
        ok
          (record (with_nodes
            (or_none (build_operation_plan_from_registry export_task 1 draft []))) {
              status = validated;
            }))
unfolding build_operation_plan_from_registry decimal lookup insert operation_specs update mem
    dedup_from validate_operation_plan detect_cycle topological_sort validate_required_params
    is_type_compatible has_external_input_fallback
export_plan_passes = refl

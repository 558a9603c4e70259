-- ===== src/DefaultPlan.antt =====
-- packages/domain/services/operation_plan_defaults.py: the default plan, and what the guard of
-- packages/domain/services/plan_guard.py says of it.
use gis_agent.Prelude.{ℕ, String, true, Option, none, some, List, [], ◌∷◌, ◌≡◌, refl}
use gis_agent.Prelude.Int.{pos}
use gis_agent.Prelude.Result.{err}
use gis_agent.Prelude.Dict.{lookup, insert}
use gis_agent.Value.{boolean, list, item, no_items, str}
use gis_agent.Plan.{OperationNode, OperationPlan, PlanStatus}
use gis_agent.Registry.{operation_specs}
use gis_agent.PlanGuard.Errors.{input_missing}
use gis_agent.PlanGuard.Graph.{detect_cycle, topological_sort}
use gis_agent.PlanGuard.Fallback.{
  validate_required_params, has_external_input_fallback, allows_implicit_demo_input,
}
use gis_agent.PlanGuard.Chain.{finished, validate_operation_plan}

abbrev pub default_nodes : List OperationNode
default_nodes =
    record {
      step_id = "step_clip_default";
      op_name = "raster.clip";
      depends_on = [];
      inputs = [];
      params = ("crop", boolean true) ∷ [];
      outputs = ("raster", "raster_default") ∷ [];
      retry_policy = ("max_retries", pos 1) ∷ [];
    }
    ∷ record {
      step_id = "step_export_default";
      op_name = "artifact.export";
      depends_on = "step_clip_default" ∷ [];
      inputs = ("primary", "raster_default") ∷ [];
      params = ("formats", list (item (str "geotiff") (item (str "png_map") no_items))) ∷ [];
      outputs = ("artifact", "artifact_default") ∷ [];
      retry_policy = ("max_retries", pos 0) ∷ [];
    }
    ∷ []

abbrev pub or_empty : Option (List String) → List String
or_empty none = []
or_empty (some fields) = fields

-- `build_default_operation_plan`
unfoldable pub build_default_operation_plan : ℕ → PlanStatus → Option (List String) → OperationPlan
build_default_operation_plan version status missing_fields = record {
  version = version;
  status = status;
  missing_fields = or_empty missing_fields;
  nodes = default_nodes;
}

-- In every version and status, and with all missing fields, the guard refuses the default plan: its
-- clip step has no area of interest.
pub validate-default :
    (version : ℕ) (status : PlanStatus) (missing_fields : Option (List String))
    → validate_operation_plan (build_default_operation_plan version status missing_fields)
      ≡ finished (err (input_missing "step_clip_default" "raster.clip" "aoi" "vector"))
unfolding build_default_operation_plan validate_operation_plan detect_cycle topological_sort lookup
    insert operation_specs validate_required_params has_external_input_fallback
    allows_implicit_demo_input
validate-default version status missing_fields = refl

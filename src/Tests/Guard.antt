-- ===== src/Tests/Guard.antt =====
-- Small graphs and plans, what the guard does on them, and the theorems about it at these inputs.
use gis_agent.Prelude.{
  String, true, false, some, List, [], ◌∷◌, ◌≡◌, refl, All, ◌⊎◌, mem, distinct, eq_iff, arith,
}
use gis_agent.Prelude.Result.{ok}
use gis_agent.Prelude.Dict.{lookup, insert, keys}
use gis_agent.Value.{boolean, str, list, item, no_items}
use gis_agent.Plan.{OperationNode, OperationPlan, draft, validated}
use gis_agent.Registry.{operation_specs}
use gis_agent.PlanGuard.Graph.{Graph, detect_cycle, topological_sort, dependencies}
use gis_agent.PlanGuard.Graph.Paths.{Reaches}
use gis_agent.PlanGuard.Graph.Cycle.{detect_cycle_correct}
use gis_agent.PlanGuard.Graph.Sort.{
  IsTopological, IsClosed, topological_sort_sound, topological_sort_complete,
}
use gis_agent.PlanGuard.Paths.{looks_like_external_ref}
use gis_agent.PlanGuard.Inputs.{value_matches, is_type_compatible}
use gis_agent.PlanGuard.Fallback.{validate_required_params, has_external_input_fallback}
use gis_agent.PlanGuard.Chain.{finished, validate_operation_plan}
use gis_agent.PlanGuard.Accepted.{Accepted, validate-Accepted}

abbrev pub diamond : Graph
diamond = ("a", "b" ∷ "c" ∷ []) ∷ ("b", "d" ∷ []) ∷ ("c", "d" ∷ "d" ∷ []) ∷ ("d", []) ∷ []

abbrev pub ring : Graph
ring = ("a", "b" ∷ []) ∷ ("b", "a" ∷ []) ∷ ("c", []) ∷ []

diamond_acyclic : detect_cycle diamond ≡ some false
unfolding detect_cycle lookup
diamond_acyclic = refl

ring_cyclic : detect_cycle ring ≡ some true
unfolding detect_cycle lookup
ring_cyclic = refl

diamond_sorted : topological_sort diamond ≡ some ("d" ∷ "b" ∷ "c" ∷ "a" ∷ [])
unfolding topological_sort lookup insert
diamond_sorted = refl

ring_sorted : topological_sort ring ≡ some ("c" ∷ [])
unfolding topological_sort lookup insert
ring_sorted = refl

bbox_matches : value_matches "vector" (str " BBOX(1,2,3,4) ") ≡ true
unfolding value_matches
bbox_matches = refl

raster_is_no_vector : value_matches "vector" (str "data/dem.TIF") ≡ false
unfolding value_matches
raster_is_no_vector = refl

rasters_match : value_matches "raster[]" (list (item (str "./a.b/x.tif") no_items)) ≡ true
unfolding value_matches
rasters_match = refl

name_is_no_path : looks_like_external_ref "raster_default" ≡ false
unfolding looks_like_external_ref
name_is_no_path = refl

abbrev pub load : OperationNode
load = record {
  step_id = "load";
  op_name = "input.upload_raster";
  depends_on = [];
  inputs = ("upload_id", "file_1") ∷ [];
  params = ("source_path", str "/data/dem.tif") ∷ [];
  outputs = ("raster", "raster_in") ∷ [];
  retry_policy = [];
}

abbrev pub clip : OperationNode
clip = record {
  step_id = "clip";
  op_name = "raster.clip";
  depends_on = "load" ∷ [];
  inputs = ("raster", "raster_in") ∷ [];
  params = ("clip_path", str "aoi.geojson") ∷ ("crop", boolean true) ∷ [];
  outputs = ("raster", "clipped") ∷ [];
  retry_policy = [];
}

abbrev pub export : OperationNode
export = record {
  step_id = "export";
  op_name = "artifact.export";
  depends_on = "clip" ∷ [];
  inputs = ("primary", "clipped") ∷ [];
  params = [];
  outputs = ("artifact", "out") ∷ [];
  retry_policy = [];
}

abbrev pub sample : OperationPlan
sample = record {
  version = 1;
  status = draft;
  missing_fields = [];
  nodes = export ∷ clip ∷ load ∷ [];
}

pub sample_passes :
    validate_operation_plan sample ≡ finished (ok (record sample { status = validated }))
unfolding validate_operation_plan detect_cycle topological_sort lookup insert operation_specs
    validate_required_params is_type_compatible has_external_input_fallback
sample_passes = refl

validate-Accepted_example : Accepted sample (record sample { status = validated })
validate-Accepted_example =
    validate-Accepted sample (record sample { status = validated }) sample_passes

detect_cycle_correct_example :
    (detect_cycle ring ≡ some true) × ((x : String) × Reaches ring x x)
    ⊎ (detect_cycle ring ≡ some false) × ((x : String) → ¬ (Reaches ring x x))
detect_cycle_correct_example = detect_cycle_correct ring

diamond-distinct : distinct (keys diamond) ≡ true
unfolding distinct
diamond-distinct = refl

topological_sort_sound_example :
    (steps : List String) × (topological_sort diamond ≡ some steps) × IsTopological diamond steps
topological_sort_sound_example = topological_sort_sound diamond diamond-distinct

diamond-IsClosed : IsClosed diamond
unfolding dependencies lookup mem
diamond-IsClosed a b e = ground (arith, eq_iff b "b", eq_iff b "c", eq_iff b "d")

topological_sort_complete_example :
    (steps : List String) × (topological_sort diamond ≡ some steps)
    × All (λ k. mem k steps ≡ true) (keys diamond)
topological_sort_complete_example =
    topological_sort_complete diamond diamond-distinct diamond-IsClosed diamond_acyclic

-- ===== src/PlanGuard/Fallback.antt =====
-- The fallbacks of packages/domain/services/plan_guard.py for an input that names no reference.
use Prim.Native.String.{◌++◌ as ◌^^◌}
use text.Mathlib.Text.{starts_with}
use gis_agent.Prelude.{
  String, Bool, not, ◌&&◌, ◌||◌, Option, none, some, List, [], ◌∷◌, ◌++◌, any, mem, str_eq,
  if◌then◌else◌, keep, is_empty,
}
use gis_agent.Prelude.Result.{Result, ok, guard, ◌>>◌}
use gis_agent.Prelude.Text.{strip, lower}
use gis_agent.Prelude.Dict.{lookup, Dict}
use gis_agent.Value.{Value, null, str}
use gis_agent.Plan.{OperationNode}
use gis_agent.Registry.{OperationSpec}
use gis_agent.PlanGuard.Errors.{GuardError, param_missing, param_any_missing}
use gis_agent.PlanGuard.Inputs.{base_type, param_is_present, value_matches}

abbrev when_any : Bool → List String → List String
when_any b keys = if b then keys else []

abbrev raster_keys : List String
raster_keys =
    "source_path" ∷ "source_paths" ∷ "raster_path" ∷ "raster_paths" ∷ "template_raster_path" ∷ []

abbrev vector_inputs : List String
vector_inputs =
    "vector" ∷ "vectors" ∷ "aoi" ∷ "clip_vector" ∷ "overlay" ∷ "mask" ∷ "right" ∷ "vector_b"
    ∷ "zones" ∷ "zone" ∷ []

abbrev vector_keys : String → List String
vector_keys key =
    "vector_path"
    ∷ "vector_paths"
    ∷ "aoi_path"
    ∷ "clip_path"
    ∷ "clip_vector_path"
    ∷ "clip_vector_paths"
    ∷ "overlay_path"
    ∷ "overlay_paths"
    ∷ "mask_path"
    ∷ "mask_paths"
    ∷ "zones_path"
    ∷ "zone_path"
    ∷ "right_path"
    ∷ "vector_b_path"
    ∷ "source_path"
    ∷ "source_paths"
    ∷ "geometry"
    ∷ "geometries"
    ∷ "bbox"
    ∷ "clip_geometry"
    ∷ "clip_geometries"
    ∷ "clip_bbox"
    ∷ "overlay_geometry"
    ∷ "overlay_geometries"
    ∷ "overlay_bbox"
    ∷ (key ^^ "_geometry")
    ∷ (key ^^ "_geometries")
    ∷ (key ^^ "_bbox")
    ∷ []

-- `_candidate_param_keys_for_input`. The set is only searched, so a list with repetitions serves.
unfoldable pub candidate_param_keys : String → String → List String
unfolding strip lower mem
candidate_param_keys input_key expected =
    let key = lower (strip input_key) in
    ((key ^^ "_path") ∷ (key ^^ "_paths") ∷ [])
    ++ when_any
        (mem expected ("raster" ∷ "raster[]" ∷ [])
          || mem key ("raster" ∷ "rasters" ∷ "template_raster" ∷ []))
        raster_keys
    ++ when_any (mem expected ("vector" ∷ "vector[]" ∷ []) || mem key vector_inputs)
        (vector_keys key)
    ++ when_any (mem expected ("table" ∷ "table[]" ∷ []) || str_eq key "table")
        ("table_path" ∷ "table_paths" ∷ [])
    ++ when_any (str_eq expected "any" || str_eq key "primary")
        ("primary_path" ∷ "primary_paths" ∷ "source_path" ∷ "source_paths" ∷ [])
    ++ when_any (str_eq expected "uploaded_file") ("source_path" ∷ "source_paths" ∷ [])

-- `params.get(key)`
abbrev pub or_null : Option Value → Value
or_null none = null
or_null (some v) = v

abbrev pub text_or_null : Option String → Value
text_or_null none = null
text_or_null (some s) = str s

-- `_has_external_input_fallback`
unfoldable pub has_external_input_fallback : OperationNode → String → String → Bool
unfolding candidate_param_keys lookup value_matches
has_external_input_fallback node key expected =
    any (λ k. value_matches expected (or_null (lookup k node.params)))
      (candidate_param_keys key expected)
    || str_eq expected "uploaded_file"
      && value_matches expected (text_or_null (lookup key node.inputs))

-- `_allows_implicit_demo_input`
unfoldable pub allows_implicit_demo_input : OperationNode → String → String → Bool
unfolding base_type mem
allows_implicit_demo_input node key expected =
    mem (base_type expected) ("raster" ∷ "vector" ∷ "table" ∷ "any" ∷ [])
    && not (starts_with node.op_name "input.upload_")
    && not (str_eq node.op_name "raster.clip" && mem key ("aoi" ∷ "clip_vector" ∷ "vector" ∷ []))
    && is_empty node.depends_on

-- The keys of `required` that have no value among the parameters.
unfoldable pub missing_params : Dict Value → List String → List String
unfolding lookup param_is_present
missing_params params required =
    keep (λ k. not (param_is_present (or_null (lookup k params)))) required

unfoldable pub check_any_groups : OperationNode → List (List String) → Result GuardError Unit
unfolding lookup param_is_present
check_any_groups node [] = ok tt
check_any_groups node (group ∷ groups) = do
  guard (any (λ k. param_is_present (or_null (lookup k node.params))) group)
      (param_any_missing node.step_id node.op_name group)
  check_any_groups node groups

-- `_validate_required_params`
unfoldable pub validate_required_params : OperationNode → OperationSpec → Result GuardError Unit
unfolding missing_params check_any_groups
validate_required_params node spec = do
  let missing = missing_params node.params spec.required_params
  guard (is_empty missing) (param_missing node.step_id node.op_name missing)
  check_any_groups node spec.required_param_any

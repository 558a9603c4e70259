-- ===== src/Builder/Request.antt =====
-- The requested operations and their parameters, of
-- packages/domain/services/operation_plan_builder.py.
use gis_agent.Prelude.{
  zero, suc, String, Bool, true, false, not, ◌&&◌, ◌||◌, Option, none, some, List, [], ◌∷◌, keep,
  dedup, dedup_from, mem, str_eq, if◌then◌else◌,
}
use gis_agent.Prelude.Int.{ℤ, pos, negsuc}
use gis_agent.Prelude.Dict.{Dict, lookup, insert, has, update}
use gis_agent.Prelude.Text.{strip, non_empty}
use gis_agent.Value.{
  Value, str, boolean, int, dict, list, null, Fields, no_fields, entry, Items, no_items, item,
}
use gis_agent.Registry.{operation_specs}

-- The fields of a `ParsedTaskSpec` that the builder reads.
pub record ParsedTaskSpec : Type 0 where
  pub analysis_type : String
  pub operation_params : Dict Value
  pub preferred_output : List String
  pub requested_dataset : Option String
  pub need_confirmation : Bool
  pub missing_fields : List String

-- The names in a list of operations: what is no text prints as no name of an operation.
abbrev pub item_names : Items → List String
unfolding strip
item_names no_items = []
item_names (item (str s) items) = strip s ∷ item_names items
item_names (item value items) = item_names items

abbrev pub list_names : Option Value → List String
unfolding strip
list_names (some (list items)) = item_names items
list_names other = []

-- `op_name and op_name in OPERATION_SPECS`
unfoldable pub is_operation : String → Bool
unfolding operation_specs has
is_operation name = non_empty name && has name operation_specs

-- `_normalize_requested_operations` of a value that may be missing.
unfoldable pub normalize_requested_operations : Option Value → List String
unfolding is_operation dedup_from strip
normalize_requested_operations raw = dedup (keep is_operation (list_names raw))

-- `_pick_operation_sequence`
unfoldable pub pick_operation_sequence : ParsedTaskSpec → List String
unfolding normalize_requested_operations lookup
pick_operation_sequence parsed =
    normalize_requested_operations (lookup "operations" parsed.operation_params)

abbrev pub fields_dict : Fields → Dict Value
fields_dict no_fields = []
fields_dict (entry key value fields) = (key, value) ∷ fields_dict fields

abbrev object_fields : Option Value → Dict Value
object_fields (some (dict fields)) = fields_dict fields
object_fields other = []

-- `operation_overrides[op_name]`, where both are objects.
abbrev pub scoped_overrides : String → Dict Value → Dict Value
unfolding lookup
scoped_overrides op params =
    object_fields (lookup op (object_fields (lookup "operation_overrides" params)))

-- `for key in keys: if key in params: overrides[key] = params[key]`
unfoldable pub copy_keys : List String → Dict Value → Dict Value → Dict Value
unfolding lookup insert
copy_keys [] params overrides = overrides
copy_keys (key ∷ keys) params overrides = elim (lookup key params) [
  | none ↦ copy_keys keys params overrides
  | some value ↦ copy_keys keys params (insert key value overrides)
]

abbrev is_null : Value → Bool
is_null null = true
is_null value = false

-- The loop over all parameters.
unfoldable pub copy_others : Dict Value → Dict Value → Dict Value
unfolding insert mem
copy_others [] overrides = overrides
copy_others ((key, value) ∷ params) overrides = copy_others params (
    if mem key ("operations" ∷ "operation_overrides" ∷ []) || is_null value
    then overrides
    else insert key value overrides)

-- `max(1, n)`
abbrev pub at_least_one : ℤ → ℤ
at_least_one (pos zero) = pos 1
at_least_one (pos (suc n)) = pos (suc n)
at_least_one (negsuc n) = pos 1

-- The resolution that a window size stands for; a boolean is an `int` in Python.
abbrev pub window_resolution : Option Value → Dict Value → Dict Value
unfolding insert
window_resolution (some (int n)) overrides = insert "resolution" (int (at_least_one n)) overrides
window_resolution (some (boolean b)) overrides = insert "resolution" (int (pos 1)) overrides
window_resolution other overrides = overrides

unfoldable pub resample_overrides : ParsedTaskSpec → Dict Value → Dict Value
unfolding copy_keys has lookup insert
resample_overrides parsed scoped =
    let copied =
      copy_keys ("source_path" ∷ "resolution" ∷ "scale" ∷ []) parsed.operation_params scoped in
    if str_eq parsed.analysis_type "FILTER" && not (has "resolution" copied)
    then window_resolution (lookup "window_size" parsed.operation_params) copied
    else copied

-- The keys that an operation copies, if it has a list of its own.
unfoldable pub override_keys : Dict (List String)
override_keys =
    ("raster.band_math", "expression" ∷ "source_path" ∷ [])
    ∷ (
      "raster.clip",
      "source_path" ∷ "clip_path" ∷ "output_path" ∷ "clip_crs" ∷ "crop" ∷ "all_touched" ∷ [],
    )
    ∷ ("raster.reproject", "source_path" ∷ "target_crs" ∷ [])
    ∷ ("vector.buffer", "source_path" ∷ "distance_m" ∷ "source_crs" ∷ [])
    ∷ ("artifact.export", "source_path" ∷ "formats" ∷ [])
    ∷ []

-- `_extract_op_override_params`
unfoldable pub extract_op_override_params : ParsedTaskSpec → String → Dict Value
unfolding lookup override_keys copy_keys copy_others resample_overrides
extract_op_override_params parsed op =
    let scoped = update [] (scoped_overrides op parsed.operation_params) in
    if str_eq op "raster.resample"
    then resample_overrides parsed scoped
    else elim (lookup op override_keys) [
      | some keys ↦ copy_keys keys parsed.operation_params scoped
      | none ↦ copy_others parsed.operation_params scoped
    ]

-- ===== src/PlanGuard/Inputs.antt =====
-- The input checks of packages/domain/services/plan_guard.py: type names, references to files, and
-- the parameters that stand in for an input.
use text.Mathlib.Text.{starts_with}
use gis_agent.Prelude.{
  String, Bool, true, false, not, ◌&&◌, ◌||◌, Option, none, some, str_eq, if◌then◌else◌,
}
use gis_agent.Prelude.Text.{non_empty, strip, lower, ends_with, drop_last_two}
use gis_agent.PlanGuard.Paths.{looks_like_external_ref, infer_ref_base_type}
use gis_agent.Value.{
  Value, null, boolean, int, float, str, list, dict, Items, no_items, item, Fields, no_fields,
  entry, shows_text,
}

-- `_base_type`
unfoldable pub base_type : String → String
unfolding ends_with drop_last_two
base_type name = if ends_with name "[]" then drop_last_two name else name

-- `_is_type_compatible`
unfoldable pub is_type_compatible : String → String → Bool
unfolding base_type
is_type_compatible actual expected =
    if str_eq expected "any"
    then true
    else if ends_with expected "[]"
    then str_eq (base_type actual) (base_type expected)
    else str_eq (base_type actual) expected

-- `value.get("type")`; the keys of a JSON object are distinct.
unfoldable pub type_entry : Fields → Option Value
type_entry no_fields = none
type_entry (entry k v fs) = let rest = type_entry fs in if str_eq k "type" then some v else rest

abbrev object_is_present : Fields → Option Value → Bool
object_is_present fs (some v) = shows_text v
object_is_present no_fields none = false
object_is_present (entry k v fs) none = true

unfoldable mutual
  unfolding shows_text type_entry strip

  -- `_param_is_present`
  pub param_is_present : Value → Bool
  param_is_present null = false
  param_is_present (boolean b) = true
  param_is_present (int n) = true
  param_is_present (float m k) = true
  param_is_present (str s) = non_empty (strip s)
  param_is_present (list xs) = some_present xs
  param_is_present (dict fs) = object_is_present fs (type_entry fs)

  pub some_present : Items → Bool
  some_present no_items = false
  some_present (item x xs) = param_is_present x || some_present xs

-- The part of `_value_matches_expected_input` for a text, where the expected base type is neither
-- "any" nor "uploaded_file".
unfoldable pub text_matches : String → String → Bool
unfolding strip lower looks_like_external_ref infer_ref_base_type
text_matches base value =
    let candidate = strip value in
    if not (non_empty candidate)
    then false
    else if str_eq base "vector" && starts_with (lower candidate) "bbox("
    then true
    else if looks_like_external_ref candidate
    then elim (infer_ref_base_type candidate) [ none ↦ true | some t ↦ str_eq t base ]
    else false

abbrev accepts_anything : String → Bool
accepts_anything expected = str_eq expected "uploaded_file" || str_eq (base_type expected) "any"

abbrev object_matches : String → Fields → Bool
object_matches base fs =
    if str_eq base "vector"
    then elim (type_entry fs) [ none ↦ false | some v ↦ shows_text v ]
    else param_is_present (dict fs)

unfoldable mutual
  unfolding param_is_present text_matches base_type type_entry

  -- `_value_matches_expected_input`
  pub value_matches : String → Value → Bool
  value_matches expected (list xs) =
      let inner = if ends_with expected "[]" then base_type expected else expected in
      let found = some_matches inner xs in
      if accepts_anything expected then param_is_present (list xs) else found
  value_matches expected null = false
  value_matches expected (boolean b) = accepts_anything expected
  value_matches expected (int n) = accepts_anything expected
  value_matches expected (float m k) = accepts_anything expected
  value_matches expected (str s) =
      if accepts_anything expected
      then param_is_present (str s)
      else text_matches (base_type expected) s
  value_matches expected (dict fs) =
      if accepts_anything expected
      then param_is_present (dict fs)
      else object_matches (base_type expected) fs

  pub some_matches : String → Items → Bool
  some_matches expected no_items = false
  some_matches expected (item x xs) = value_matches expected x || some_matches expected xs

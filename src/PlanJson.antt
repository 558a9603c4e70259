-- ===== src/PlanJson.antt =====
-- packages/domain/services/plan_json_helpers.py with `TaskPlanResponse` of packages/schemas/task.py:
-- what is written to the plan column of a task, and what is checked before.
use gis_agent.Prelude.{
  String, Bool, true, false, not, ◌&&◌, ◌||◌, Option, none, some, [], str_eq, is_empty,
  if◌then◌else◌,
}
use gis_agent.Prelude.Result.{Result, ok, guard, ◌>>◌}
use gis_agent.Prelude.Dict.{Dict, lookup}
use gis_agent.Value.{Value, str, dict, list, null, Fields, no_fields, entry, Items, no_items, item}
use gis_agent.Plan.{OperationPlan, plan_fits_schema}
use gis_agent.Task.{PlanJson, TaskRun}

abbrev pub field : String → Fields → Option Value
field k no_fields = none
field k (entry j v fs) = if str_eq j k then some v else field k fs

-- A `str` that is required.
abbrev pub is_text : Option Value → Bool
is_text (some (str s)) = true
is_text _ = false

-- `str | None = None`
abbrev pub is_text_or_null : Option Value → Bool
is_text_or_null none = true
is_text_or_null (some null) = true
is_text_or_null o = is_text o

-- `dict[str, Any] | None = None`
abbrev pub is_dict_or_null : Option Value → Bool
is_dict_or_null none = true
is_dict_or_null (some null) = true
is_dict_or_null (some (dict fs)) = true
is_dict_or_null _ = false

abbrev pub all_items : (Value → Bool) → Items → Bool
all_items p no_items = true
all_items p (item v vs) = p v && all_items p vs

-- A list with a default, of items that pass `p`.
abbrev pub is_list_of : (Value → Bool) → Option Value → Bool
is_list_of p none = true
is_list_of p (some (list vs)) = all_items p vs
is_list_of p _ = false

abbrev pub text_item : Value → Bool
text_item v = is_text (some v)

abbrev pub dict_item : Value → Bool
dict_item (dict fs) = true
dict_item _ = false

-- `TaskPlanStepResponse`
unfoldable pub fits_plan_step : Value → Bool
fits_plan_step (dict fs) =
    is_text (field "step_name" fs)
    && (is_text (field "tool_name" fs)
        && (is_text (field "title" fs)
            && (is_text (field "purpose" fs)
                && (is_text (field "status" fs)
                    && (is_text_or_null (field "reasoning" fs)
                        && (is_list_of text_item (field "depends_on" fs)
                            && is_dict_or_null (field "detail" fs)))))))
fits_plan_step _ = false

-- `TaskPlanResponse`; its keys are not among those that `PlanJson` names.
unfoldable pub fits_plan_response : Dict Value → Bool
unfolding fits_plan_step lookup
fits_plan_response d =
    is_text (lookup "version" d)
    && (is_text (lookup "mode" d)
        && (is_text (lookup "status" d)
            && (is_text (lookup "objective" d)
                && (is_text (lookup "reasoning_summary" d)
                    && (is_list_of text_item (lookup "missing_fields" d)
                        && (is_list_of fits_plan_step (lookup "steps" d)
                            && (is_list_of dict_item (lookup "operation_plan_nodes" d)
                                && (is_text_or_null (lookup "error_code" d)
                                    && is_text_or_null (lookup "error_message" d)))))))))

-- The `ValidationError` of pydantic, by the model that refuses.
pub data InvalidJson : Type 0 where
  invalid_plan_response invalid_operation_plan : InvalidJson

abbrev pub empty_json : PlanJson
empty_json = record {
  operation_plan = none;
  operation_plan_version = none;
  execution_mode = none;
  execution_submitted = none;
  rejected_reason = none;
  rejected_at = none;
  other = [];
}

-- `task.plan_json or {}`
abbrev pub json_or_empty : Option PlanJson → PlanJson
json_or_empty none = empty_json
json_or_empty (some j) = j

abbrev pub is_absent : {A : Type 0} → Option A → Bool
is_absent none = true
is_absent (some a) = false

-- `bool(task.plan_json)`
abbrev pub has_json : Option PlanJson → Bool
has_json none = false
has_json (some j) =
    not (is_absent j.operation_plan)
    || not (is_absent j.operation_plan_version)
    || not (is_absent j.execution_mode)
    || not (is_absent j.execution_submitted)
    || not (is_absent j.rejected_reason)
    || not (is_absent j.rejected_at)
    || not (is_empty j.other)

abbrev pub plan_or_fits : Option OperationPlan → Bool
plan_or_fits none = true
plan_or_fits (some plan) = plan_fits_schema plan

-- `write_plan_json`; the flag is its argument `validate_operation_plan`.
unfoldable pub write_plan_json : TaskRun → Bool → PlanJson → Result InvalidJson TaskRun
unfolding fits_plan_response
write_plan_json task validate j = do
  guard (fits_plan_response j.other) invalid_plan_response
  guard (not validate || plan_or_fits j.operation_plan) invalid_operation_plan
  ok (record task { plan_json = some j })

-- `update_plan_json`, with the updates as a function on the plan data.
unfoldable pub update_plan_json :
    TaskRun → Bool → (PlanJson → PlanJson) → Result InvalidJson TaskRun
unfolding write_plan_json
update_plan_json task validate updates =
    write_plan_json task validate (updates (json_or_empty task.plan_json))

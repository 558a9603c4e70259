-- ===== src/Tests/Plans.antt =====
-- A task whose plan awaits approval: what is done with the plan, and the theorems about it.
use gis_agent.Prelude.{String, Option, none, some, List, [], ◌∷◌, ◌≡◌, ◌⊎◌, ◌≤◌, ap, refl}
use gis_agent.Prelude.Result.{Result, ok, err}
use gis_agent.Prelude.Dict.{Dict, lookup, insert}
use gis_agent.Value.{Value, str}
use gis_agent.Registry.{operation_specs}
use gis_agent.Plan.{OperationNode, OperationPlan, validated, draft, plan_fits_schema}
use gis_agent.PlanGuard.Graph.{detect_cycle, topological_sort}
use gis_agent.PlanGuard.Inputs.{is_type_compatible}
use gis_agent.PlanGuard.Fallback.{validate_required_params, has_external_input_fallback}
use gis_agent.PlanGuard.Chain.{validate_operation_plan, finished}
use gis_agent.PlanGuard.Again.{validate_twice}
use gis_agent.Task.{Store}
use gis_agent.TaskState.{task_status_transitions, set_task_status, append_task_event, reload_steps}
use gis_agent.PlanJson.{fits_plan_response}
use gis_agent.Lifecycle.{
  EditError, version_mismatch, Submitted, update_task_plan_draft, approve_task_plan,
  reject_task_plan,
}
use gis_agent.Lifecycle.Approval.{Approved, approve-Approved}
use gis_agent.Lifecycle.Edits.{Edited, update-Edited}
use gis_agent.Lifecycle.RoundTrip.{edit_can_be_approved}
use gis_agent.PlanGuard.Errors.{GuardError, input_missing}
use gis_agent.Lifecycle.{validate_operation_plan_for_edit, edit_failed_validation}
use gis_agent.Lifecycle.Checks.{edit_check_total}
use gis_agent.DefaultPlan.{build_default_operation_plan, validate-default}
use gis_agent.Lifecycle.Versions.{
  PlanRun, untouched, edited, approved, json_of, HasPlanVersion, latest, versions_kept,
}
use gis_agent.Lifecycle.Decided.{Rejected, reject-Rejected}
use gis_agent.Tests.Guard.{sample, sample_passes}
use gis_agent.Tests.Tasks.{fresh}

abbrev response : Dict Value
response =
    ("version", str "agent-v2")
    ∷ ("mode", str "llm_plan_execute_gis_workspace")
    ∷ ("status", str "ready")
    ∷ ("objective", str "clip")
    ∷ ("reasoning_summary", str "")
    ∷ []

abbrev waiting : Store
waiting = record (fresh "awaiting_approval") {
  task = record (fresh "awaiting_approval").task {
    plan_json = some (record {
      operation_plan = some sample;
      operation_plan_version = some 1;
      execution_mode = none;
      execution_submitted = none;
      rejected_reason = none;
      rejected_at = none;
      other = response;
    });
  };
}

abbrev second_version : OperationPlan
second_version = record sample { version = 2 }

abbrev passing : String → List OperationNode → Option String
passing task_id nodes = none

abbrev stored : Store → Result EditError Store → Store
stored s (ok s') = s'
stored s (err e) = s

abbrev pub edited_task : Store
edited_task = stored waiting (update_task_plan_draft waiting "task_1" second_version)

edit_returns : update_task_plan_draft waiting "task_1" second_version ≡ ok edited_task
unfolding update_task_plan_draft validate_operation_plan detect_cycle topological_sort lookup insert
    operation_specs validate_required_params is_type_compatible has_external_input_fallback
    fits_plan_response plan_fits_schema
edit_returns = refl

update-Edited_example : Edited waiting "task_1" second_version edited_task
update-Edited_example = update-Edited waiting "task_1" second_version edited_task edit_returns

edit_can_be_approved_example :
    (r : Submitted) × (approve_task_plan passing "async" edited_task "task_1" 2 ≡ ok r)
edit_can_be_approved_example =
    edit_can_be_approved passing "async" waiting edited_task "task_1" second_version edit_returns
      refl

abbrev pub handed : Store → Result EditError Submitted → Submitted
handed s (ok r) = r
handed s (err e) = record { store = s; queued_task = "" }

abbrev submitted : Submitted
submitted = handed edited_task (approve_task_plan passing "async" edited_task "task_1" 2)

approval_returns : approve_task_plan passing "async" edited_task "task_1" 2 ≡ ok submitted
unfolding update_task_plan_draft approve_task_plan validate_operation_plan detect_cycle
    topological_sort lookup insert operation_specs validate_required_params is_type_compatible
    has_external_input_fallback fits_plan_response plan_fits_schema set_task_status
    task_status_transitions append_task_event reload_steps
approval_returns = refl

old_version_refused :
    approve_task_plan passing "async" edited_task "task_1" 1 ≡ err (version_mismatch 1)
unfolding update_task_plan_draft approve_task_plan validate_operation_plan detect_cycle
    topological_sort lookup insert operation_specs validate_required_params is_type_compatible
    has_external_input_fallback fits_plan_response plan_fits_schema
old_version_refused = refl

approve-Approved_example : Approved passing "async" edited_task "task_1" 2 submitted
approve-Approved_example =
    approve-Approved passing "async" edited_task "task_1" 2 submitted approval_returns

abbrev refused : Store
refused = stored waiting (reject_task_plan waiting "task_1" 9 (some " too slow "))

rejection_returns : reject_task_plan waiting "task_1" 9 (some " too slow ") ≡ ok refused
unfolding reject_task_plan lookup fits_plan_response plan_fits_schema set_task_status
    task_status_transitions
rejection_returns = refl

reject-Rejected_example : Rejected waiting "task_1" 9 (some " too slow ") refused
reject-Rejected_example =
    reject-Rejected waiting "task_1" 9 (some " too slow ") refused rejection_returns

validate_twice_example :
    validate_operation_plan (record sample { status = validated })
    ≡ finished (ok (record sample { status = validated }))
validate_twice_example = validate_twice sample (record sample { status = validated }) sample_passes

edit_check_total_example :
    ((draft : OperationPlan) × (validate_operation_plan sample ≡ finished (ok draft))
      × (validate_operation_plan_for_edit sample ≡ ok draft))
    ⊎ ((e : GuardError) × (validate_operation_plan sample ≡ finished (err e))
        × (validate_operation_plan_for_edit sample ≡ err (edit_failed_validation e)))
edit_check_total_example = edit_check_total sample

default_plan_refused :
    validate_operation_plan (build_default_operation_plan 1 draft (some ("time_range" ∷ [])))
    ≡ finished (err (input_missing "step_clip_default" "raster.clip" "aoi" "vector"))
default_plan_refused = validate-default 1 draft (some ("time_range" ∷ []))

edited_and_approved : PlanRun "task_1" waiting submitted.store
edited_and_approved =
    approved passing "async" 2 submitted (edited second_version untouched edit_returns)
      approval_returns

waiting-HasPlanVersion : HasPlanVersion (json_of waiting)
waiting-HasPlanVersion plan is_plan =
    let same : sample ≡ plan = cc in ap (λ (p : OperationPlan). some p.version) same

versions_kept_example :
    HasPlanVersion (json_of submitted.store)
    × (latest (json_of waiting) ≤ latest (json_of submitted.store))
versions_kept_example = versions_kept "task_1" edited_and_approved waiting-HasPlanVersion

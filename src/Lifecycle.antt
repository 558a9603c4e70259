-- ===== src/Lifecycle.antt =====
-- The life of a plan that awaits approval in packages/domain/services/task_lifecycle.py: its edits,
-- its approval and its rejection.
pub mod Approval
pub mod Edits
pub mod Checks
pub mod RoundTrip
pub mod Decided
pub mod Versions
use gis_agent.Prelude.{
  ℕ, ◌<◌, String, Bool, true, false, not, ◌&&◌, Option, none, some, List, [], ◌∷◌, str_eq, ltb,
  ◌==◌, if◌then◌else◌,
}
use gis_agent.Prelude.Int.{pos}
use gis_agent.Prelude.Text.{non_empty, strip, append_text}
use gis_agent.Prelude.Result.{Result, ok, err, guard, ◌>>=◌, ◌>>◌}
use gis_agent.Value.{Value, str, int, boolean, null, Fields, no_fields, entry}
use gis_agent.Plan.{OperationNode, OperationPlan, plan_fits_schema, approved, rejected}
use gis_agent.PlanGuard.Errors.{
  GuardError, ErrorCode, plan_schema_invalid, plan_dependency_cycle, uncaught_key_error, error_code,
}
use gis_agent.PlanGuard.Chain.{Outcome, out_of_fuel, finished, validate_operation_plan}
use gis_agent.Task.{PlanJson, TaskRun, Store}
use gis_agent.TaskState.{
  Invalid, set_task_status, append_task_event, write_task_error, reload_steps,
}
use gis_agent.PlanJson.{InvalidJson, has_json, json_or_empty, write_plan_json, update_plan_json}

-- The errors that the three operations raise. `guard_raised` is an error of the guard that is passed
-- on, and `guard_unfinished` stands for a guard that does not end.
pub data EditError : Type 0 where
  task_not_found : (task_id : String) → EditError
  plan_not_awaiting : (task_id : String) → EditError
  plan_missing : (task_id : String) → EditError
  version_not_greater : (latest patched : ℕ) → EditError
  edit_failed_validation : GuardError → EditError
  guard_raised : GuardError → EditError
  guard_unfinished : EditError
  version_mismatch : (approved_version : ℕ) → EditError
  preflight_failed : (message : String) → EditError
  invalid_json : InvalidJson → EditError
  invalid_transition : Invalid → EditError

-- `raise ... from exc`
abbrev pub raise_as : {E A : Type 0} → (E → EditError) → Result E A → Result EditError A
raise_as as_edit (ok a) = ok a
raise_as as_edit (err e) = err (as_edit e)

abbrev pub edit_error : ErrorCode → GuardError → EditError
edit_error plan_schema_invalid e = edit_failed_validation e
edit_error plan_dependency_cycle e = edit_failed_validation e
edit_error uncaught_key_error e = guard_raised e

abbrev pub checked_for_edit : Outcome → Result EditError OperationPlan
checked_for_edit out_of_fuel = err guard_unfinished
checked_for_edit (finished r) = raise_as (λ e. edit_error (error_code e) e) r

-- `_validate_operation_plan_for_edit`
unfoldable pub validate_operation_plan_for_edit : OperationPlan → Result EditError OperationPlan
unfolding validate_operation_plan
validate_operation_plan_for_edit plan = checked_for_edit (validate_operation_plan plan)

-- The lookup and the first test of the three operations.
unfoldable pub load_awaiting : Store → String → Result EditError Unit
load_awaiting s task_id = do
  guard (str_eq s.task.id task_id) (task_not_found task_id)
  guard (str_eq s.task.status "awaiting_approval" && has_json s.task.plan_json)
      (plan_not_awaiting task_id)

abbrev pub or_zero : Option ℕ → ℕ
or_zero none = 0
or_zero (some n) = n

abbrev pub version_detail : ℕ → Option Fields
version_detail n = some (entry "operation_plan_version" (int (pos n)) no_fields)

-- `update_task_plan_draft`, up to its commit.
unfoldable pub update_task_plan_draft : Store → String → OperationPlan → Result EditError Store
unfolding load_awaiting validate_operation_plan_for_edit update_plan_json append_task_event
    reload_steps
update_task_plan_draft s task_id plan = do
  load_awaiting s task_id
  let latest = or_zero (json_or_empty s.task.plan_json).operation_plan_version
  guard (ltb latest plan.version) (version_not_greater latest plan.version)
  draft ← validate_operation_plan_for_edit plan
  task ← raise_as invalid_json (
      update_plan_json s.task true
        λ j. record j { operation_plan = some draft; operation_plan_version = some draft.version })
  ok (
      reload_steps (
        append_task_event (record s { task = task }) "task_plan_validated" none (some task.status)
          (version_detail draft.version)))

abbrev pub or_missing : String → Option OperationPlan → Result EditError OperationPlan
or_missing task_id none = err (plan_missing task_id)
or_missing task_id (some plan) = ok plan

-- `OperationPlan(**operation_plan_data)`
unfoldable pub parse_operation_plan : OperationPlan → Result EditError OperationPlan
unfolding plan_fits_schema
parse_operation_plan plan = do
  guard (plan_fits_schema plan) (invalid_json InvalidJson.invalid_operation_plan)
  ok plan

abbrev pub preflighted : Option String → Result EditError Unit
preflighted none = ok tt
preflighted (some message) = err (preflight_failed message)

-- What is committed, and the task that is handed over to `_queue_or_run`.
pub record Submitted : Type 0 where
  pub store : Store
  pub queued_task : String

module _ (preflight : String → List OperationNode → Option String) (execution_mode : String) where
  -- The part of `approve_task_plan` behind the checks.
  unfoldable pub submit_plan : Store → OperationPlan → ℕ → Result EditError Submitted
  unfolding update_plan_json set_task_status reload_steps
  submit_plan s plan approved_version = do
    task ← raise_as invalid_json (
        update_plan_json s.task true λ j. record j {
          operation_plan = some plan;
          operation_plan_version = some plan.version;
          execution_mode = some execution_mode;
          execution_submitted = some true;
        })
    s1 ← raise_as invalid_transition (
        set_task_status (record s { task = task }) "approved" none (some "task_plan_approved")
          (some (entry "approved_version" (int (pos approved_version)) no_fields)) false)
    s2 ← raise_as invalid_transition (
        set_task_status s1 "queued" none (some "task_queued")
          (some (entry "execution_mode" (str execution_mode) no_fields)) false)
    ok (record { store = reload_steps s2; queued_task = s2.task.id })

  -- `approve_task_plan`, up to `_queue_or_run`. `preflight` is the message of the exception that
  -- `preflight_processing_pipeline_inputs` raises, if it raises one.
  unfoldable pub approve_task_plan : Store → String → ℕ → Result EditError Submitted
  unfolding load_awaiting parse_operation_plan validate_operation_plan_for_edit submit_plan
  approve_task_plan s task_id approved_version = do
    load_awaiting s task_id
    stored ← or_missing task_id (json_or_empty s.task.plan_json).operation_plan
    parsed ← parse_operation_plan stored
    plan ← validate_operation_plan_for_edit parsed
    guard (plan.version == approved_version) (version_mismatch approved_version)
    preflighted (preflight s.task.id plan.nodes)
    submit_plan s (record plan { status = approved }) approved_version

abbrev pub or_reason : Option String → String
or_reason none = ""
or_reason (some reason) = reason

abbrev pub rejected_plan : Option OperationPlan → Result EditError (Option OperationPlan)
rejected_plan none = ok none
rejected_plan (some stored) = do
  parsed ← parse_operation_plan stored
  ok (some (record parsed { status = rejected }))

abbrev pub version_value : Option ℕ → Value
version_value none = null
version_value (some n) = int (pos n)

-- `(reason or "").strip() or "rejected_by_user"`
unfoldable pub rejected_reason : Option String → String
unfolding strip
rejected_reason reason =
    let given = strip (or_reason reason) in if non_empty given then given else "rejected_by_user"

-- The part of `reject_task_plan` from `write_task_error` to `append_task_event`.
abbrev pub log_rejection : Store → TaskRun → String → Option ℕ → Store
log_rejection s task because version =
    append_task_event
      (record s {
        task =
            write_task_error "task_cancelled_by_user"
              (append_text "Task plan rejected by user: " because) task;
      })
      "task_plan_rejected" none (some task.status)
      (some (
        entry "reason" (str because)
          (entry "operation_plan_version" (version_value version) no_fields)))

-- `reject_task_plan`, up to its commit; `now` is the time that it reads.
unfoldable pub reject_task_plan : Store → String → ℕ → Option String → Result EditError Store
unfolding load_awaiting parse_operation_plan write_plan_json write_task_error append_task_event
    set_task_status reload_steps rejected_reason
reject_task_plan s task_id now reason = do
  load_awaiting s task_id
  let because = rejected_reason reason
  let current = json_or_empty s.task.plan_json
  plan ← rejected_plan current.operation_plan
  task ← raise_as invalid_json (
      write_plan_json s.task true (record current {
        operation_plan = plan;
        rejected_reason = some because;
        rejected_at = some now;
      }))
  s1 ← raise_as invalid_transition (
      set_task_status (log_rejection s task because current.operation_plan_version) "cancelled"
        (some "awaiting_approval") (some "task_cancelled")
        (some (entry "reason" (str because) (entry "source" (str "user_reject") no_fields))) false)
  ok (reload_steps s1)

-- ===== src/Lifecycle/Decided.antt =====
-- What a rejection of a plan leaves, in packages/domain/services/task_lifecycle.py.
use gis_agent.Prelude.{
  ℕ, String, true, false, Option, some, List, str_eq, ◌≡◌, refl, sym, ap, ◌∙◌, eq_iff,
}
use gis_agent.Prelude.Result.{ok, err, bind-ok}
use gis_agent.Plan.{OperationNode, OperationPlan}
use gis_agent.Task.{PlanJson, Store}
use gis_agent.TaskState.{set_task_status, append_task_event, reload_steps, write_task_error}
use gis_agent.TaskState.Moves.{set_task_status_lem}
use gis_agent.PlanJson.{json_or_empty, write_plan_json}
use gis_agent.Lifecycle.{
  EditError, plan_not_awaiting, raise_as, load_awaiting, approve_task_plan, update_task_plan_draft,
  reject_task_plan, rejected_plan, rejected_reason, log_rejection,
}
use gis_agent.Lifecycle.Approval.{raise_as-ok, load_awaiting-ok, write_plan_json-ok}

-- Each of the three operations refuses the task, whatever its other arguments are.
pub record IsDecided (s : Store) (task_id : String) : Type 0 where
  pub no_edit :
      (plan : OperationPlan)
      → update_task_plan_draft s task_id plan ≡ err (plan_not_awaiting task_id)
  pub no_approval :
      (preflight : String → List OperationNode → Option String) (mode : String) (version : ℕ)
      → approve_task_plan preflight mode s task_id version ≡ err (plan_not_awaiting task_id)
  pub no_rejection :
      (now : ℕ) (reason : Option String)
      → reject_task_plan s task_id now reason ≡ err (plan_not_awaiting task_id)

IsDecided-by :
    (s : Store) (task_id : String)
    → s.task.id ≡ task_id
    → str_eq s.task.status "awaiting_approval" ≡ false
    → IsDecided s task_id
IsDecided-by s task_id same other =
    let refused : load_awaiting s task_id ≡ err (plan_not_awaiting task_id) =
      unfold load_awaiting in rw ((eq_iff s.task.id task_id).1 same, other) refl in
    record {
      no_edit = λ plan. unfold update_task_plan_draft in rw refused refl;
      no_approval = λ preflight mode version. unfold approve_task_plan in rw refused refl;
      no_rejection = λ now reason. unfold reject_task_plan in rw refused refl;
    }

-- What a rejection leaves.
pub record Rejected (s : Store) (task_id : String) (now : ℕ) (reason : Option String) (s' : Store)
    : Type 0 where
  pub is_task : s'.task.id ≡ task_id
  pub awaiting : s.task.status ≡ "awaiting_approval"
  pub cancelled : s'.task.status ≡ "cancelled"
  pub at_step : s'.task.current_step ≡ some "awaiting_approval"
  pub code : s'.task.error_code ≡ some "task_cancelled_by_user"
  pub plan : Option OperationPlan
  pub is_plan : rejected_plan (json_or_empty s.task.plan_json).operation_plan ≡ ok plan
  pub saved :
      s'.task.plan_json
      ≡ some (record (json_or_empty s.task.plan_json) {
        operation_plan = plan;
        rejected_reason = some (rejected_reason reason);
        rejected_at = some now;
      })
  pub decided : IsDecided s' task_id

-- A rejection that returns has found the task waiting; it cancels the task, with the reason and the
-- time in the plan data and the stored plan marked as rejected. In the state that it leaves, every
-- edit, approval and rejection is refused as not awaiting approval.
pub reject-Rejected :
    (s : Store) (task_id : String) (now : ℕ) (reason : Option String) (s' : Store)
    → reject_task_plan s task_id now reason ≡ ok s'
    → Rejected s task_id now reason s'
unfolding reject_task_plan write_task_error append_task_event reload_steps
reject-Rejected s task_id now reason s' h =
    let (_, h1, loaded) = bind-ok (load_awaiting s task_id) _ h in
    let (same_id, awaiting, _) = load_awaiting-ok s task_id loaded in
    let (plan, h2, planned) =
      bind-ok (rejected_plan (json_or_empty s.task.plan_json).operation_plan) _ h1 in
    let json : PlanJson = record (json_or_empty s.task.plan_json) {
      operation_plan = plan;
      rejected_reason = some (rejected_reason reason);
      rejected_at = some now;
    } in
    let (task, h3, written) =
      bind-ok (raise_as EditError.invalid_json (write_plan_json s.task true json)) _ h2 in
    let e0 = write_plan_json-ok s.task task true json (raise_as-ok _ _ written) in
    let logged =
      log_rejection s task (rejected_reason reason)
        (json_or_empty s.task.plan_json).operation_plan_version in
    let (s1, h4, moved) =
      bind-ok
        (raise_as EditError.invalid_transition (
          set_task_status logged "cancelled" (some "awaiting_approval") (some "task_cancelled") _
            false))
        _ h3 in
    let e1 =
      (set_task_status_lem logged s1 "cancelled" (some "awaiting_approval") (some "task_cancelled")
        _ false (raise_as-ok _ _ moved)).1 in
    let is_s' : reload_steps s1 ≡ s' = cc in
    let cancelled = ap (λ x. x.task.status) (sym is_s') ∙ ap (λ x. x.task.status) (sym e1) in
    let is_task =
      ap (λ x. x.task.id) (sym is_s')
      ∙ ap (λ x. x.task.id) (sym e1)
      ∙ ap (λ x. x.id) e0
      ∙ same_id in
    record {
      is_task = is_task;
      awaiting = awaiting;
      cancelled = cancelled;
      at_step = ap (λ x. x.task.current_step) (sym is_s') ∙ ap (λ x. x.task.current_step) (sym e1);
      code = ap (λ x. x.task.error_code) (sym is_s') ∙ ap (λ x. x.task.error_code) (sym e1);
      plan = plan;
      is_plan = planned;
      saved =
          ap (λ x. x.task.plan_json) (sym is_s')
          ∙ ap (λ x. x.task.plan_json) (sym e1)
          ∙ ap (λ x. x.plan_json) e0;
      decided = IsDecided-by s' task_id is_task (ap (λ x. str_eq x "awaiting_approval") cancelled);
    }

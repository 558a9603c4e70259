-- ===== src/Lifecycle/Edits.antt =====
-- What an edit by packages/domain/services/task_lifecycle.py needs and does.
use gis_agent.Prelude.{
  ◌<◌, String, true, none, some, [], ◌∷◌, ◌++◌, ltb, ltb→lt, ◌≡◌, refl, sym, ap, ◌∙◌,
}
use gis_agent.Prelude.Result.{ok, bind-ok, guard-bind}
use gis_agent.Plan.{OperationPlan, plan_fits_schema}
use gis_agent.PlanGuard.Chain.{finished, validate_operation_plan}
use gis_agent.PlanGuard.Accepted.{Accepted, validate-Accepted}
use gis_agent.Task.{PlanJson, TaskRun, Store, TaskEvent}
use gis_agent.TaskState.{append_task_event, reload_steps}
use gis_agent.PlanJson.{
  json_or_empty, write_plan_json, update_plan_json, fits_plan_response, plan_or_fits,
}
use gis_agent.Lifecycle.{
  EditError, raise_as, checked_for_edit, validate_operation_plan_for_edit, load_awaiting, or_zero,
  update_task_plan_draft, version_detail,
}
use gis_agent.Lifecycle.Approval.{
  raise_as-ok, checked_for_edit-ok, load_awaiting-ok, write_plan_json-ok,
}

-- The plan data of the task once `plan` is its draft.
abbrev pub draft_json : PlanJson → OperationPlan → PlanJson
draft_json j plan = record j {
  operation_plan = some plan;
  operation_plan_version = some plan.version;
}

-- An edit: it brings a greater version, the guard returns the plan that is stored, and the task still
-- awaits approval.
pub record Edited (s : Store) (task_id : String) (plan : OperationPlan) (s' : Store) : Type 0 where
  pub awaiting : s.task.status ≡ "awaiting_approval"
  pub greater : or_zero (json_or_empty s.task.plan_json).operation_plan_version < plan.version
  pub draft : OperationPlan
  pub guarded : validate_operation_plan plan ≡ finished (ok draft)
  pub accepted : Accepted plan draft
  pub is_task : s'.task.id ≡ task_id
  pub awaits_still : s'.task.status ≡ "awaiting_approval"
  pub saved : s'.task.plan_json ≡ some (draft_json (json_or_empty s.task.plan_json) draft)
  pub fits_response : fits_plan_response (json_or_empty s.task.plan_json).other ≡ true
  pub fits : plan_fits_schema draft ≡ true
  pub logged :
      (e : TaskEvent) × (e.event_type ≡ "task_plan_validated") × (s'.events ≡ s.events ++ e ∷ [])

write_plan_json_checks :
    (task task' : TaskRun) (j : PlanJson)
    → write_plan_json task true j ≡ ok task'
    → (fits_plan_response j.other ≡ true) × (plan_or_fits j.operation_plan ≡ true)
unfolding write_plan_json
write_plan_json_checks task task' j h =
    let (fits, rest) = guard-bind (fits_plan_response j.other) _ _ h in
    let (fits_plan, same) = guard-bind (plan_or_fits j.operation_plan) _ _ rest in (fits, fits_plan)

-- An edit that returns has found the task waiting, with a smaller version of the plan; the guard
-- accepts the new plan, which is stored as validated, the task still awaits approval, and the edit is
-- logged.
pub update-Edited :
    (s : Store) (task_id : String) (plan : OperationPlan) (s' : Store)
    → update_task_plan_draft s task_id plan ≡ ok s'
    → Edited s task_id plan s'
unfolding update_task_plan_draft validate_operation_plan_for_edit update_plan_json reload_steps
    append_task_event
update-Edited s task_id plan s' h =
    let (_, h1, loaded) = bind-ok (load_awaiting s task_id) _ h in
    let (same_id, awaiting, _) = load_awaiting-ok s task_id loaded in
    let latest = or_zero (json_or_empty s.task.plan_json).operation_plan_version in
    let (greater, h2) = guard-bind (ltb latest plan.version) _ _ h1 in
    let (draft, h3, checked) = bind-ok (checked_for_edit (validate_operation_plan plan)) _ h2 in
    let guarded : validate_operation_plan plan ≡ finished (ok draft) =
      checked_for_edit-ok (validate_operation_plan plan) checked in
    let json = draft_json (json_or_empty s.task.plan_json) draft in
    let (task, h4, written) =
      bind-ok (raise_as EditError.invalid_json (write_plan_json s.task true json)) _ h3 in
    let written' = raise_as-ok _ _ written in
    let e0 = write_plan_json-ok s.task task true json written' in
    let (fits_response, fits) = write_plan_json_checks s.task task json written' in
    let is_s' : reload_steps (
          append_task_event (record s { task = task }) "task_plan_validated" none (some task.status)
            (version_detail draft.version))
        ≡ s' =
      cc in
    record {
      awaiting = awaiting;
      greater = ltb→lt latest plan.version greater;
      draft = draft;
      guarded = guarded;
      accepted = validate-Accepted plan draft guarded;
      is_task = ap (λ x. x.task.id) (sym is_s') ∙ ap (λ x. x.id) e0 ∙ same_id;
      awaits_still = ap (λ x. x.task.status) (sym is_s') ∙ ap (λ x. x.status) e0 ∙ awaiting;
      saved = ap (λ x. x.task.plan_json) (sym is_s') ∙ ap (λ x. x.plan_json) e0;
      fits_response = fits_response;
      fits = fits;
      logged = (_, refl, ap (λ x. x.events) (sym is_s'));
    }

-- ===== src/Lifecycle/RoundTrip.antt =====
-- An edited plan and its approval, in packages/domain/services/task_lifecycle.py.
use gis_agent.Prelude.{
  ℕ, String, true, false, Option, none, some, List, str_eq, ◌==◌, ◌≡◌, refl, ap, ◌∙◌, eq_iff,
  test_of_eq,
}
use gis_agent.Prelude.Result.{ok, guard, guard-pass, then_ok}
use gis_agent.Prelude.Int.{pos}
use gis_agent.Value.{Fields, entry, int, str, no_fields}
use gis_agent.Plan.{OperationNode, OperationPlan, plan_fits_schema, approved}
use gis_agent.PlanGuard.Chain.{validate_operation_plan}
use gis_agent.PlanGuard.Again.{validate_twice}
use gis_agent.Task.{PlanJson, TaskRun, Store}
use gis_agent.TaskState.{
  set_task_status, append_task_event, reload_steps, can_transition, task_status_transitions,
  log_status, or_else, or_default,
}
use gis_agent.PlanJson.{
  has_json, json_or_empty, write_plan_json, update_plan_json, fits_plan_response, plan_or_fits,
}
use gis_agent.Lifecycle.{
  EditError, raise_as, checked_for_edit, validate_operation_plan_for_edit, load_awaiting,
  or_missing, parse_operation_plan, preflighted, Submitted, submit_plan, approve_task_plan,
  update_task_plan_draft,
}
use gis_agent.Lifecycle.Edits.{update-Edited, draft_json}
use gis_agent.Lifecycle.Approval.{submitted_json}

set_task_status-ok :
    (s : Store) (status : String) (step event : Option String) (detail : Option Fields)
    → can_transition task_status_transitions (or_default "draft" s.task.status) status ≡ true
    → set_task_status s status step event detail false
      ≡ ok (
          log_status
            (record s {
              task = record s.task {
                status = status;
                current_step = or_else step s.task.current_step;
              };
            })
            status
            step
            event
            detail)
unfolding set_task_status
set_task_status-ok s status step event detail h = rw h refl

write_plan_json_passes :
    (task : TaskRun) (j : PlanJson)
    → fits_plan_response j.other ≡ true
    → plan_or_fits j.operation_plan ≡ true
    → write_plan_json task true j ≡ ok (record task { plan_json = some j })
unfolding write_plan_json
write_plan_json_passes task j fits fits_plan = rw (fits, fits_plan) refl

approve_allowed : can_transition task_status_transitions "awaiting_approval" "approved" ≡ true
unfolding can_transition task_status_transitions
approve_allowed = refl

queue_allowed : can_transition task_status_transitions "approved" "queued" ≡ true
unfolding can_transition task_status_transitions
queue_allowed = refl

parse_passes : (p : OperationPlan) → plan_fits_schema p ≡ true → parse_operation_plan p ≡ ok p
unfolding parse_operation_plan
parse_passes p fits = rw fits refl

load_awaiting_passes :
    (s : Store) (task_id : String) (j : PlanJson) (plan : OperationPlan)
    → s.task.id ≡ task_id
    → s.task.status ≡ "awaiting_approval"
    → s.task.plan_json ≡ some j
    → j.operation_plan ≡ some plan
    → load_awaiting s task_id ≡ ok tt
unfolding load_awaiting
load_awaiting_passes s task_id j plan same awaiting is_json is_plan =
    let filled : has_json s.task.plan_json ≡ true = rw (is_json, is_plan) refl in
    then_ok (guard (str_eq s.task.id task_id) _) _
      (guard-pass _ _ ((eq_iff s.task.id task_id).1 same))
      (guard-pass _ _ (rw (awaiting, filled) refl))

module _ (preflight : String → List OperationNode → Option String) (execution_mode : String) where
  submit_plan_passes :
      (s : Store) (plan : OperationPlan) (version : ℕ) (j : PlanJson)
      → s.task.status ≡ "awaiting_approval"
      → s.task.plan_json ≡ some j
      → fits_plan_response j.other ≡ true
      → plan_fits_schema plan ≡ true
      → (r : Submitted) × (submit_plan preflight execution_mode s plan version ≡ ok r)
  unfolding submit_plan update_plan_json append_task_event
  submit_plan_passes s plan version j awaiting is_json fits fits_plan =
      let json = submitted_json preflight execution_mode (json_or_empty s.task.plan_json) plan in
      let s0 : Store = record s { task = record s.task { plan_json = some json } } in
      let detail1 = some (entry "approved_version" (int (pos version)) no_fields) in
      let detail2 = some (entry "execution_mode" (str execution_mode) no_fields) in
      let s1 =
        append_task_event (record s0 { task = record s0.task { status = "approved" } })
          "task_plan_approved" none (some "approved") detail1 in
      let s2 =
        append_task_event (record s1 { task = record s1.task { status = "queued" } }) "task_queued"
          none (some "queued") detail2 in
      let written = write_plan_json_passes s.task json (rw is_json fits) fits_plan in
      let allowed =
        ap (λ x. can_transition task_status_transitions (or_default "draft" x) "approved") awaiting
        ∙ approve_allowed in
      let first =
        set_task_status-ok s0 "approved" none (some "task_plan_approved") detail1 allowed in
      let second = set_task_status-ok s1 "queued" none (some "task_queued") detail2 queue_allowed in
      (
        record { store = reload_steps s2; queued_task = s2.task.id },
        then_ok (raise_as EditError.invalid_json (write_plan_json s.task true json)) _
            (ap (raise_as EditError.invalid_json) written)
            (then_ok
              (raise_as EditError.invalid_transition
                (set_task_status s0 "approved" none (some "task_plan_approved") detail1 false))
              _ (ap (raise_as EditError.invalid_transition) first)
              (then_ok
                (raise_as EditError.invalid_transition
                  (set_task_status s1 "queued" none (some "task_queued") detail2 false))
                _ (ap (raise_as EditError.invalid_transition) second) refl)),
      )

  -- A plan that an edit has stored can be approved in its version, if it passes the preflight.
  pub edit_can_be_approved :
      (s s' : Store) (task_id : String) (plan : OperationPlan)
      → update_task_plan_draft s task_id plan ≡ ok s'
      → preflight task_id plan.nodes ≡ none
      → (r : Submitted) × (approve_task_plan preflight execution_mode s' task_id plan.version
          ≡ ok r)
  unfolding approve_task_plan validate_operation_plan_for_edit load_awaiting parse_operation_plan
  edit_can_be_approved s s' task_id plan h passes =
      let e = update-Edited s task_id plan s' h in
      let json = draft_json (json_or_empty s.task.plan_json) e.draft in
      let twice = validate_twice plan e.draft e.guarded in
      let same_version : e.draft.version ≡ plan.version = ap (λ p. p.version) e.accepted.marked in
      let (r, submitted) =
        submit_plan_passes s' (record e.draft { status = approved }) plan.version json
          e.awaits_still e.saved e.fits_response (unfold plan_fits_schema in e.fits) in
      (
        r,
        then_ok (load_awaiting s' task_id) _
            (load_awaiting_passes s' task_id json e.draft e.is_task e.awaits_still e.saved refl)
            (then_ok (or_missing task_id (json_or_empty s'.task.plan_json).operation_plan) _
              (ap (λ o. or_missing task_id (json_or_empty o).operation_plan) e.saved)
              (then_ok (parse_operation_plan e.draft) _ (parse_passes e.draft e.fits) (
                then_ok (checked_for_edit (validate_operation_plan e.draft)) _
                  (ap checked_for_edit twice)
                  (then_ok (guard (e.draft.version == plan.version) _) _
                    (guard-pass _ _ (test_of_eq _ _ same_version))
                    (then_ok (preflighted (preflight s'.task.id e.draft.nodes)) _
                      (ap preflighted (
                        ap (λ i. preflight i e.draft.nodes) e.is_task
                        ∙ ap (λ p. preflight task_id p.nodes) e.accepted.marked
                        ∙ passes))
                      submitted))))),
      )

-- ===== src/Lifecycle/Approval.antt =====
-- What an approval by packages/domain/services/task_lifecycle.py needs and does.
use gis_agent.Prelude.{
  ℕ, suc, String, Bool, true, false, not, ◌||◌, Option, none, some, List, [], ◌∷◌, ◌++◌, str_eq,
  ◌==◌, ◌≡◌, refl, sym, ap, ◌∙◌, eq_iff, eq_of_test, subst, and_parts,
}
use mathlib.Core.List.{append_assoc}
use gis_agent.Prelude.Int.{pos}
use gis_agent.Prelude.Result.{Result, ok, err, bind-ok, guard-bind, guard-ok}
use gis_agent.Value.{str, int, Fields, no_fields, entry}
use gis_agent.Plan.{OperationNode, OperationPlan, plan_fits_schema, approved}
use gis_agent.PlanGuard.Chain.{Outcome, out_of_fuel, finished, validate_operation_plan}
use gis_agent.PlanGuard.Accepted.{Accepted, validate-Accepted}
use gis_agent.Task.{PlanJson, TaskRun, Store, TaskEvent}
use gis_agent.TaskState.{set_task_status, append_task_event, reload_steps}
use gis_agent.TaskState.Moves.{set_task_status_lem}
use gis_agent.PlanJson.{
  has_json, json_or_empty, write_plan_json, update_plan_json, fits_plan_response, plan_or_fits,
}
use gis_agent.Lifecycle.{
  EditError, raise_as, checked_for_edit, validate_operation_plan_for_edit, load_awaiting,
  or_missing, parse_operation_plan, preflighted, Submitted, submit_plan, approve_task_plan,
}

pub raise_as-ok :
    {E A : Type 0} (as_edit : E → EditError) (r : Result E A) {a : A}
    → raise_as as_edit r ≡ ok a
    → r ≡ ok a
raise_as-ok as_edit (ok b) h = cc
raise_as-ok as_edit (err e) h = cc

pub checked_for_edit-ok :
    (o : Outcome) {plan : OperationPlan} → checked_for_edit o ≡ ok plan → o ≡ finished (ok plan)
checked_for_edit-ok out_of_fuel h = cc
checked_for_edit-ok (finished (err e)) h = cc
checked_for_edit-ok (finished (ok plan)) h = cc

pub load_awaiting-ok :
    (s : Store) (task_id : String)
    → load_awaiting s task_id ≡ ok tt
    → (s.task.id ≡ task_id)
      × (s.task.status ≡ "awaiting_approval")
      × (has_json s.task.plan_json ≡ true)
unfolding load_awaiting
load_awaiting-ok s task_id h =
    let (same, rest) = guard-bind (str_eq s.task.id task_id) _ _ h in
    let (awaiting, some_json) = and_parts _ _ (guard-ok _ _ rest) in
    (
      (eq_iff s.task.id task_id).0 same,
      (eq_iff s.task.status "awaiting_approval").0 awaiting,
      some_json,
    )

pub write_plan_json-ok :
    (task task' : TaskRun) (validate : Bool) (j : PlanJson)
    → write_plan_json task validate j ≡ ok task'
    → task' ≡ record task { plan_json = some j }
unfolding write_plan_json
write_plan_json-ok task task' validate j h =
    let (fits, rest) = guard-bind (fits_plan_response j.other) _ _ h in
    let (fits_plan, same) = guard-bind (not validate || plan_or_fits j.operation_plan) _ _ rest in
    cc

or_missing-ok :
    (task_id : String) (o : Option OperationPlan) {plan : OperationPlan}
    → or_missing task_id o ≡ ok plan
    → o ≡ some plan
or_missing-ok task_id none h = cc
or_missing-ok task_id (some p) h = cc

parse_operation_plan-ok :
    (p plan : OperationPlan)
    → parse_operation_plan p ≡ ok plan
    → (plan_fits_schema p ≡ true) × (p ≡ plan)
unfolding parse_operation_plan
parse_operation_plan-ok p plan h =
    let (fits, same) = guard-bind (plan_fits_schema p) _ _ h in (fits, cc)

preflighted-ok : (o : Option String) → preflighted o ≡ ok tt → o ≡ none
preflighted-ok none h = refl
preflighted-ok (some m) h = cc

abbrev pub transition_event : Store → String → String → Option Fields → TaskEvent
transition_event s type status detail = record {
  event_id = suc s.last_event_id;
  task_id = s.task.id;
  event_type = type;
  step_name = none;
  status = some status;
  detail = detail;
}

module _ (preflight : String → List OperationNode → Option String) (execution_mode : String) where
  -- The plan data of the task once `plan` is submitted.
  abbrev pub submitted_json : PlanJson → OperationPlan → PlanJson
  submitted_json j plan = record j {
    operation_plan = some plan;
    operation_plan_version = some plan.version;
    execution_mode = some execution_mode;
    execution_submitted = some true;
  }

  pub record IsSubmitted (s : Store) (plan : OperationPlan) (r : Submitted) : Type 0 where
    pub queued : r.store.task.status ≡ "queued"
    pub saved : r.store.task.plan_json ≡ some (submitted_json (json_or_empty s.task.plan_json) plan)
    pub same_task : r.store.task.id ≡ s.task.id
    pub handed_over : r.queued_task ≡ s.task.id
    pub logged :
        (e1 e2 : TaskEvent) × (e1.event_type ≡ "task_plan_approved")
        × (e2.event_type ≡ "task_queued")
        × (r.store.events ≡ s.events ++ e1 ∷ e2 ∷ [])

  -- An approval: the plan that was stored passes the guard in the approved version and the checks of
  -- its inputs, and it is what the task is queued with.
  pub record Approved (s : Store) (task_id : String) (version : ℕ) (r : Submitted) : Type 0 where
    pub is_task : s.task.id ≡ task_id
    pub awaiting : s.task.status ≡ "awaiting_approval"
    pub stored : OperationPlan
    pub is_stored : (json_or_empty s.task.plan_json).operation_plan ≡ some stored
    pub fits : plan_fits_schema stored ≡ true
    pub plan : OperationPlan
    pub accepted : Accepted stored plan
    pub is_version : plan.version ≡ version
    pub inputs_pass : preflight s.task.id plan.nodes ≡ none
    pub submitted : IsSubmitted s (record plan { status = approved }) r

  submit_plan-IsSubmitted :
      (s : Store) (plan : OperationPlan) (version : ℕ) (r : Submitted)
      → submit_plan preflight execution_mode s plan version ≡ ok r
      → IsSubmitted s plan r
  unfolding submit_plan update_plan_json reload_steps append_task_event
  submit_plan-IsSubmitted s plan version r h =
      let json = submitted_json (json_or_empty s.task.plan_json) plan in
      let (task, h1, written) =
        bind-ok (raise_as EditError.invalid_json (write_plan_json s.task true json)) _ h in
      let s0 : Store = record s { task = task } in
      let (s1, h2, first) =
        bind-ok
          (raise_as EditError.invalid_transition
            (set_task_status s0 "approved" none (some "task_plan_approved") _ false))
          _ h1 in
      let (s2, h3, second) =
        bind-ok
          (raise_as EditError.invalid_transition
            (set_task_status s1 "queued" none (some "task_queued") _ false))
          _ h2 in
      let e0 = write_plan_json-ok s.task task true json (raise_as-ok _ _ written) in
      let e1 =
        (set_task_status_lem s0 s1 "approved" none (some "task_plan_approved") _ false
          (raise_as-ok _ _ first)).1 in
      let e2 =
        (set_task_status_lem s1 s2 "queued" none (some "task_queued") _ false
          (raise_as-ok _ _ second)).1 in
      let is_r : record { store = reload_steps s2; queued_task = s2.task.id } ≡ r = cc in
      let event1 =
        transition_event s0 "task_plan_approved" "approved"
          (some (entry "approved_version" (int (pos version)) no_fields)) in
      let event2 =
        transition_event s1 "task_queued" "queued"
          (some (entry "execution_mode" (str execution_mode) no_fields)) in
      record {
        queued = ap (λ x. x.store.task.status) (sym is_r) ∙ ap (λ x. x.task.status) (sym e2);
        saved =
            ap (λ x. x.store.task.plan_json) (sym is_r)
            ∙ ap (λ x. x.task.plan_json) (sym e2)
            ∙ ap (λ x. x.task.plan_json) (sym e1)
            ∙ ap (λ x. x.plan_json) e0;
        same_task =
            ap (λ x. x.store.task.id) (sym is_r)
            ∙ ap (λ x. x.task.id) (sym e2)
            ∙ ap (λ x. x.task.id) (sym e1)
            ∙ ap (λ x. x.id) e0;
        handed_over =
            ap (λ x. x.queued_task) (sym is_r)
            ∙ ap (λ x. x.task.id) (sym e2)
            ∙ ap (λ x. x.task.id) (sym e1)
            ∙ ap (λ x. x.id) e0;
        logged = (
          event1,
          event2,
          refl,
          refl,
          ap (λ x. x.store.events) (sym is_r)
              ∙ ap (λ x. x.events) (sym e2)
              ∙ ap (λ x. x.events ++ event2 ∷ []) (sym e1)
              ∙ append_assoc s.events _ _,
        );
      }

  -- An approval that returns has found the task waiting with a plan that fits the schema, passes the
  -- guard and the preflight and has the approved version; it stores that plan as approved, queues the
  -- task, hands it over, and logs the two updates.
  pub approve-Approved :
      (s : Store) (task_id : String) (version : ℕ) (r : Submitted)
      → approve_task_plan preflight execution_mode s task_id version ≡ ok r
      → Approved s task_id version r
  unfolding approve_task_plan validate_operation_plan_for_edit
  approve-Approved s task_id version r h =
      let (_, h1, loaded) = bind-ok (load_awaiting s task_id) _ h in
      let (same_id, awaiting, _) = load_awaiting-ok s task_id loaded in
      let (stored, h2, found) =
        bind-ok (or_missing task_id (json_or_empty s.task.plan_json).operation_plan) _ h1 in
      let (parsed, h3, parses) = bind-ok (parse_operation_plan stored) _ h2 in
      let (fits, same) = parse_operation_plan-ok stored parsed parses in
      let (plan, h4, checked) = bind-ok (checked_for_edit (validate_operation_plan parsed)) _ h3 in
      let (versions, h5) = guard-bind (plan.version == version) _ _ h4 in
      let (_, h6, passes) = bind-ok (preflighted (preflight s.task.id plan.nodes)) _ h5 in
      record {
        is_task = same_id;
        awaiting = awaiting;
        stored = stored;
        is_stored = or_missing-ok task_id _ found;
        fits = fits;
        plan = plan;
        accepted =
            subst (λ p. Accepted p plan) (sym same)
              (validate-Accepted parsed plan (checked_for_edit-ok _ checked));
        is_version = eq_of_test plan.version version versions;
        inputs_pass = preflighted-ok _ passes;
        submitted = submit_plan-IsSubmitted s _ version r h6;
      }

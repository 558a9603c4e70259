-- ===== src/Lifecycle/Versions.antt =====
-- The versions of a task's plan over the edits, approvals and rejections of
-- packages/domain/services/task_lifecycle.py.
use gis_agent.Prelude.{
  ℕ, ◌≤◌, String, Option, none, some, List, ◌≡◌, refl, sym, ap, ◌∙◌, arith, subst,
}
use gis_agent.Prelude.Result.{ok, bind-ok, guard-bind}
use gis_agent.Plan.{OperationNode, OperationPlan, PlanStatus, plan_fits_schema}
use gis_agent.Task.{PlanJson, Store}
use gis_agent.PlanJson.{json_or_empty}
use gis_agent.Lifecycle.{
  or_zero, Submitted, update_task_plan_draft, approve_task_plan, reject_task_plan, rejected_plan,
  parse_operation_plan,
}
use gis_agent.Lifecycle.Approval.{approve-Approved}
use gis_agent.Lifecycle.Edits.{update-Edited}
use gis_agent.Lifecycle.Decided.{reject-Rejected}

abbrev pub json_of : Store → PlanJson
json_of s = json_or_empty s.task.plan_json

-- The three operations on the plan of one task, as often as they return.
pub data PlanRun (task_id : String) : Store → Store → Type 0 where
  untouched : {s : Store} → PlanRun task_id s s
  edited :
      {s s' s'' : Store} (plan : OperationPlan)
      → PlanRun task_id s s'
      → update_task_plan_draft s' task_id plan ≡ ok s''
      → PlanRun task_id s s''
  approved :
      {s s' : Store} (preflight : String → List OperationNode → Option String) (mode : String)
      (version : ℕ) (r : Submitted)
      → PlanRun task_id s s'
      → approve_task_plan preflight mode s' task_id version ≡ ok r
      → PlanRun task_id s r.store
  rejected :
      {s s' s'' : Store} (now : ℕ) (reason : Option String)
      → PlanRun task_id s s'
      → reject_task_plan s' task_id now reason ≡ ok s''
      → PlanRun task_id s s''

-- The version beside the plan is the version of the plan.
abbrev pub HasPlanVersion : PlanJson → Type 0
HasPlanVersion j =
    (plan : OperationPlan)
    → j.operation_plan ≡ some plan
    → j.operation_plan_version ≡ some plan.version

abbrev pub latest : PlanJson → ℕ
latest j = or_zero j.operation_plan_version

abbrev pub Keeps : PlanJson → PlanJson → Type 0
Keeps j j' = HasPlanVersion j' × (latest j ≤ latest j')

rejected_plan-version :
    (o : Option OperationPlan) (after : OperationPlan)
    → rejected_plan o ≡ ok (some after)
    → (before : OperationPlan) × (o ≡ some before) × (before.version ≡ after.version)
unfolding parse_operation_plan
rejected_plan-version none after h = cc
rejected_plan-version (some before) after h =
    let (parsed, h1, parses) = bind-ok (parse_operation_plan before) _ h in
    let (fits, same) = guard-bind (plan_fits_schema before) _ _ parses in
    let is_before : before ≡ parsed = cc in
    let is_after : record parsed { status = PlanStatus.rejected } ≡ after = cc in
    (before, refl, ap (λ p. p.version) is_before ∙ ap (λ p. p.version) is_after)

module _ (task_id : String) where
  edit-Keeps :
      (s s' : Store) (plan : OperationPlan)
      → update_task_plan_draft s task_id plan ≡ ok s'
      → Keeps (json_of s) (json_of s')
  edit-Keeps s s' plan h =
      let e = update-Edited s task_id plan s' h in
      let same_version : e.draft.version ≡ plan.version = ap (λ p. p.version) e.accepted.marked in
      subst (Keeps (json_of s)) (ap json_or_empty (sym e.saved)) (
        (λ other is_other. let same : e.draft ≡ other = cc in ap (λ p. some p.version) same),
        omega (arith, e.greater, same_version),
      )

  approval-Keeps :
      (preflight : String → List OperationNode → Option String) (mode : String) (s : Store)
      (version : ℕ) (r : Submitted)
      → approve_task_plan preflight mode s task_id version ≡ ok r
      → HasPlanVersion (json_of s)
      → Keeps (json_of s) (json_of r.store)
  approval-Keeps preflight mode s version r h has =
      let a = approve-Approved preflight mode s task_id version r h in
      let is_latest : latest (json_of s) ≡ a.stored.version =
        ap or_zero (has a.stored a.is_stored) in
      let same_version : a.plan.version ≡ a.stored.version =
        ap (λ p. p.version) a.accepted.marked in
      let final : OperationPlan = record a.plan { status = PlanStatus.approved } in
      subst (Keeps (json_of s)) (ap json_or_empty (sym a.submitted.saved)) (
        (λ other is_other. let same : final ≡ other = cc in ap (λ p. some p.version) same),
        omega (arith, is_latest, same_version),
      )

  rejection-Keeps :
      (s s' : Store) (now : ℕ) (reason : Option String)
      → reject_task_plan s task_id now reason ≡ ok s'
      → HasPlanVersion (json_of s)
      → Keeps (json_of s) (json_of s')
  rejection-Keeps s s' now reason h has =
      let d = reject-Rejected s task_id now reason s' h in
      subst (Keeps (json_of s)) (ap json_or_empty (sym d.saved)) (
        (λ after is_after.
            let (before, is_before, same_version) =
              rejected_plan-version (json_of s).operation_plan after (d.is_plan ∙ ap ok is_after) in
            has before is_before ∙ ap some same_version),
        omega arith,
      )

-- Over all edits, approvals and rejections that return, the version beside the plan stays the version
-- of the plan, if it is so at the start, and it never falls.
pub versions_kept :
    (task_id : String) {s s' : Store}
    → PlanRun task_id s s'
    → HasPlanVersion (json_of s)
    → HasPlanVersion (json_of s') × (latest (json_of s) ≤ latest (json_of s'))
versions_kept task_id untouched first = (first, omega arith)
versions_kept task_id (edited plan run h) first =
    let (has, grown) = versions_kept task_id run first in
    let (has', step) = edit-Keeps task_id _ _ plan h in (has', omega (arith, grown, step))
versions_kept task_id (approved preflight mode version r run h) first =
    let (has, grown) = versions_kept task_id run first in
    let (has', step) = approval-Keeps task_id preflight mode _ version r h has in
    (has', omega (arith, grown, step))
versions_kept task_id (rejected now reason run h) first =
    let (has, grown) = versions_kept task_id run first in
    let (has', step) = rejection-Keeps task_id _ _ now reason h has in
    (has', omega (arith, grown, step))

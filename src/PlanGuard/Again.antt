-- ===== src/PlanGuard/Again.antt =====
-- `validate_operation_plan` of packages/domain/services/plan_guard.py on a plan that it has returned.
use gis_agent.Prelude.{
  true, false, Option, none, some, List, String, Bool, ◌≡◌, refl, ap, ◌∙◌, Bool-cases, inl, inr,
  is_empty,
}
use gis_agent.Prelude.Result.{ok, err}
use gis_agent.Plan.{OperationPlan, validated}
use gis_agent.PlanGuard.Graph.{Graph, detect_cycle, topological_sort}
use gis_agent.PlanGuard.Chain.{
  build_dependency_graph, Checked, finished, after_sort, after_cycle_check, after_graph,
  validate_operation_plan,
}
use gis_agent.PlanGuard.Accepted.{validate-Accepted}

abbrev pub mark : OperationPlan → OperationPlan
mark plan = record plan { status = validated }

mark_sort :
    (plan : OperationPlan) (o : Option (List String)) → after_sort (mark plan) o ≡ after_sort plan o
mark_sort plan none = refl
mark_sort plan (some steps) = refl

mark_cycle_check :
    (plan : OperationPlan) (g : Graph) (o : Option Bool)
    → after_cycle_check (mark plan) g o ≡ after_cycle_check plan g o
mark_cycle_check plan g none = refl
mark_cycle_check plan g (some true) = refl
mark_cycle_check plan g (some false) = mark_sort plan (topological_sort g)

mark_graph :
    (plan : OperationPlan) (r : Checked Graph) → after_graph (mark plan) r ≡ after_graph plan r
mark_graph plan (err e) = refl
mark_graph plan (ok g) = mark_cycle_check plan g (detect_cycle g)

-- The guard does not look at the status.
pub validate-mark :
    (plan : OperationPlan) → validate_operation_plan (mark plan) ≡ validate_operation_plan plan
unfolding validate_operation_plan build_dependency_graph
validate-mark plan = elim (Bool-cases (is_empty plan.nodes)) [
  | inl none_there ↦ rw none_there refl
  | inr filled ↦ rw filled (mark_graph plan (build_dependency_graph plan))
]

-- A plan that the guard has returned passes it again, unchanged.
pub validate_twice :
    (plan plan' : OperationPlan)
    → validate_operation_plan plan ≡ finished (ok plan')
    → validate_operation_plan plan' ≡ finished (ok plan')
validate_twice plan plan' h =
    ap validate_operation_plan (validate-Accepted plan plan' h).marked ∙ validate-mark plan ∙ h

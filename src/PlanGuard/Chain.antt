-- ===== src/PlanGuard/Chain.antt =====
-- `_validate_io_chain`, `_build_dependency_graph` and `validate_operation_plan` of
-- packages/domain/services/plan_guard.py.
use gis_agent.Prelude.{
  String, Bool, true, false, not, ◌&&◌, ◌||◌, Option, none, some, List, [], ◌∷◌, mem, str_eq,
  if◌then◌else◌, keep, is_empty,
}
use gis_agent.Prelude.Result.{Result, ok, err, guard, ◌>>=◌, ◌>>◌}
use gis_agent.Prelude.Text.{strip, non_empty}
use gis_agent.Prelude.Dict.{Dict, lookup, has, insert, keys}
use gis_agent.Plan.{OperationNode, OperationPlan, step_ids, validated}
use gis_agent.Registry.{OperationSpec, operation_specs}
use gis_agent.PlanGuard.Errors.{
  GuardError, empty_nodes, unknown_operation, unknown_depends_on, dependency_cycle, key_error,
  unknown_input_keys, input_missing, input_ref_unresolved, input_type_mismatch, output_missing,
  output_ref_duplicated,
}
use gis_agent.PlanGuard.Graph.{Graph, detect_cycle, topological_sort}
use gis_agent.PlanGuard.Paths.{looks_like_external_ref}
use gis_agent.PlanGuard.Inputs.{base_type, is_type_compatible, value_matches}
use gis_agent.PlanGuard.Fallback.{
  has_external_input_fallback, allows_implicit_demo_input, validate_required_params,
}
use gis_agent.Value.{str}

abbrev pub Checked : Type 0 → Type 0
Checked A = Result GuardError A

-- The loop of `_build_dependency_graph`; `ids` are the step ids of the whole plan.
unfoldable pub graph_from : List String → List OperationNode → Graph → Checked Graph
unfolding has mem insert
graph_from ids [] g = ok g
graph_from ids (node ∷ nodes) g = do
  guard (has node.op_name operation_specs) (unknown_operation node.step_id node.op_name)
  let unknown = keep (λ dep. not (mem dep ids)) node.depends_on
  guard (is_empty unknown) (unknown_depends_on node.step_id unknown)
  graph_from ids nodes (insert node.step_id node.depends_on g)

-- `_build_dependency_graph`
unfoldable pub build_dependency_graph : OperationPlan → Checked Graph
unfolding graph_from
build_dependency_graph plan = graph_from (step_ids plan.nodes) plan.nodes []

-- `str(node.inputs.get(key)).strip()`, or "" where there is none.
unfoldable pub reference : Option String → String
unfolding strip
reference none = ""
reference (some s) = strip s

-- The part of the loop over `spec.input_types` for an input with no reference.
unfoldable pub check_absent : OperationNode → String → String → Checked Unit
check_absent node key expected =
    guard
      (has_external_input_fallback node key expected
        || allows_implicit_demo_input node key expected)
      (input_missing node.step_id node.op_name key expected)

-- The part for a reference, by the type that a step before has given it.
unfoldable pub check_reference :
    OperationNode → String → String → String → Option String → Checked Unit
check_reference node key expected ref none =
    guard
      (str_eq expected "uploaded_file"
        || looks_like_external_ref ref && value_matches expected (str ref))
      (input_ref_unresolved node.step_id node.op_name key ref)
check_reference node key expected ref (some actual) =
    guard (is_type_compatible actual expected)
      (input_type_mismatch node.step_id node.op_name key ref actual expected)

unfoldable pub check_input : OperationNode → Dict String → String → String → Checked Unit
unfolding check_absent check_reference reference
check_input node produced key expected =
    let ref = reference (lookup key node.inputs) in
    if non_empty ref
    then check_reference node key expected ref (lookup ref produced)
    else check_absent node key expected

unfoldable pub check_inputs : OperationNode → Dict String → Dict String → Checked Unit
unfolding check_input
check_inputs node produced [] = ok tt
check_inputs node produced ((key, expected) ∷ types) = do
  check_input node produced key expected
  check_inputs node produced types

-- The loop over `spec.output_types`: the references that the steps so far produce, with their types.
unfoldable pub record_outputs : OperationNode → Dict String → Dict String → Checked (Dict String)
unfolding reference
record_outputs node [] produced = ok produced
record_outputs node ((key, type) ∷ types) produced = do
  let ref = reference (lookup key node.outputs)
  guard (non_empty ref) (output_missing node.step_id node.op_name key)
  guard (not (has ref produced)) (output_ref_duplicated node.step_id key ref)
  record_outputs node types (insert ref (base_type type) produced)

unfoldable pub check_node : OperationNode → OperationSpec → Dict String → Checked (Dict String)
unfolding check_inputs record_outputs
check_node node spec produced = do
  let unknown = keep (λ key. not (has key spec.input_types)) (keys node.inputs)
  guard (is_empty unknown) (unknown_input_keys node.step_id unknown)
  validate_required_params node spec
  check_inputs node produced spec.input_types
  record_outputs node spec.output_types produced

-- `node_by_id[step_id]`: the last node of that id.
unfoldable pub node_by_id : String → List OperationNode → Option OperationNode
node_by_id k [] = none
node_by_id k (node ∷ nodes) = elim (node_by_id k nodes) [
  | some n ↦ some n
  | none ↦ if str_eq node.step_id k then some node else none
]

abbrev pub or_key_error : {A : Type 0} → String → Option A → Result GuardError A
or_key_error k none = err (key_error k)
or_key_error k (some a) = ok a

-- The loop of `_validate_io_chain` over the sorted steps.
unfoldable pub check_steps : List OperationNode → List String → Dict String → Checked (Dict String)
unfolding node_by_id check_node
check_steps nodes [] produced = ok produced
check_steps nodes (k ∷ ks) produced = do
  node ← or_key_error k (node_by_id k nodes)
  spec ← or_key_error node.op_name (lookup node.op_name operation_specs)
  produced' ← check_node node spec produced
  check_steps nodes ks produced'

-- What the two graph algorithms leave when they end. They are given enough fuel, so `none` does not
-- occur; it is kept apart from all that the program does.
pub data Outcome : Type 0 where
  out_of_fuel : Outcome
  finished : Checked OperationPlan → Outcome

abbrev pub after_sort : OperationPlan → Option (List String) → Outcome
after_sort plan none = out_of_fuel
after_sort plan (some steps) =
    finished (do check_steps plan.nodes steps []; ok (record plan { status = validated }))

abbrev pub after_cycle_check : OperationPlan → Graph → Option Bool → Outcome
after_cycle_check plan g none = out_of_fuel
after_cycle_check plan g (some true) = finished (err dependency_cycle)
after_cycle_check plan g (some false) = after_sort plan (topological_sort g)

abbrev pub after_graph : OperationPlan → Checked Graph → Outcome
after_graph plan (err e) = finished (err e)
after_graph plan (ok g) = after_cycle_check plan g (detect_cycle g)

-- `validate_operation_plan`
unfoldable pub validate_operation_plan : OperationPlan → Outcome
unfolding build_dependency_graph check_steps
validate_operation_plan plan =
    if is_empty plan.nodes
    then finished (err empty_nodes)
    else after_graph plan (build_dependency_graph plan)

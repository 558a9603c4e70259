-- ===== src/PlanGuard/Quiet.antt =====
-- The checks of packages/domain/services/plan_guard.py of one node and the `KeyError`.
use gis_agent.Prelude.{
  String, Bool, true, false, not, Option, none, some, List, [], ◌∷◌, mem, is_empty, keep, any, ◌≡◌,
  ◌≢◌, refl, ap, if◌then◌else◌,
}
use gis_agent.Prelude.Result.{ok, err, guard, ◌>>=◌, ◌>>◌}
use gis_agent.Prelude.Text.{non_empty}
use gis_agent.Prelude.Dict.{Dict, lookup, has, keys, insert}
use gis_agent.Plan.{OperationNode}
use gis_agent.Registry.{OperationSpec, operation_specs}
use gis_agent.PlanGuard.Errors.{
  GuardError, key_error, unknown_operation, unknown_depends_on, unknown_input_keys, param_missing,
  param_any_missing, input_missing, input_ref_unresolved, input_type_mismatch, output_missing,
  output_ref_duplicated,
}
use gis_agent.PlanGuard.Graph.{Graph}
use gis_agent.PlanGuard.Fallback.{
  validate_required_params, check_any_groups, missing_params, or_null,
}
use gis_agent.PlanGuard.Inputs.{base_type, param_is_present}
use gis_agent.PlanGuard.Chain.{
  Checked, graph_from, check_absent, check_reference, check_input, check_inputs, record_outputs,
  check_node, reference,
}

-- A check that raises no `KeyError`.
-- A check that raises no `KeyError`.
abbrev pub HasNoKeyError : {A : Type 0} → Checked A → Type 0
HasNoKeyError r = (k : String) → r ≢ err (key_error k)

module _ {A B : Type 0} where
  pub bind_quiet :
      (r : Checked A) (f : A → Checked B)
      → HasNoKeyError r
      → ((a : A) → r ≡ ok a → HasNoKeyError (f a))
      → HasNoKeyError (r >>= f)
  bind_quiet (ok a) f h rest = rest a refl
  bind_quiet (err e) f h rest = λ k raised. let same : e ≡ key_error k = cc in h k (ap err same)

abbrev pub is_key_error : GuardError → Bool
is_key_error (key_error k) = true
is_key_error _ = false

guard_quiet :
    (passes : Bool) (e : GuardError) → is_key_error e ≡ false → HasNoKeyError (guard passes e)
guard_quiet true e other = λ k raised. cc
guard_quiet false e other =
    λ k raised. let same : e ≡ key_error k = cc in let wrong = ap is_key_error same in cc

guard_then :
    {A : Type 0} (passes : Bool) (e : GuardError) (rest : Checked A)
    → is_key_error e ≡ false
    → HasNoKeyError rest
    → HasNoKeyError (guard passes e >> rest)
guard_then passes e rest other quiet =
    bind_quiet (guard passes e) (λ a. rest) (guard_quiet passes e other) (λ a returned. quiet)

pub graph_from_quiet :
    (ids : List String) (nodes : List OperationNode) (g : Graph)
    → HasNoKeyError (graph_from ids nodes g)
unfolding graph_from
graph_from_quiet ids [] g = λ k raised. cc
graph_from_quiet ids (node ∷ nodes) g =
    let unknown = keep (λ dep. not (mem dep ids)) node.depends_on in
    guard_then (has node.op_name operation_specs) (unknown_operation node.step_id node.op_name) _
      refl
      (guard_then (is_empty unknown) (unknown_depends_on node.step_id unknown) _ refl
        (graph_from_quiet ids nodes (insert node.step_id node.depends_on g)))

check_any_groups_quiet :
    (node : OperationNode) (groups : List (List String))
    → HasNoKeyError (check_any_groups node groups)
unfolding check_any_groups
check_any_groups_quiet node [] = λ k raised. cc
check_any_groups_quiet node (group ∷ groups) =
    guard_then (any (λ k. param_is_present (or_null (lookup k node.params))) group)
      (param_any_missing node.step_id node.op_name group) _ refl
      (check_any_groups_quiet node groups)

params_quiet :
    (node : OperationNode) (spec : OperationSpec)
    → HasNoKeyError (validate_required_params node spec)
unfolding validate_required_params
params_quiet node spec =
    let missing = missing_params node.params spec.required_params in
    guard_then (is_empty missing) (param_missing node.step_id node.op_name missing) _ refl
      (check_any_groups_quiet node spec.required_param_any)

check_reference_quiet :
    (node : OperationNode) (key expected ref : String) (o : Option String)
    → HasNoKeyError (check_reference node key expected ref o)
unfolding check_reference
check_reference_quiet node key expected ref none =
    guard_quiet _ (input_ref_unresolved node.step_id node.op_name key ref) refl
check_reference_quiet node key expected ref (some actual) =
    guard_quiet _ (input_type_mismatch node.step_id node.op_name key ref actual expected) refl

check_input_quiet :
    (node : OperationNode) (produced : Dict String) (key expected : String)
    → HasNoKeyError (check_input node produced key expected)
unfolding check_input check_absent
check_input_quiet node produced key expected =
    by_test (non_empty (reference (lookup key node.inputs)))
  where
    by_test :
        (b : Bool)
        → HasNoKeyError (
            if b
            then check_reference node key expected
                (reference (lookup key node.inputs))
                (lookup (reference (lookup key node.inputs)) produced)
            else check_absent node key expected)
    by_test true = check_reference_quiet node key expected _ _
    by_test false = guard_quiet _ (input_missing node.step_id node.op_name key expected) refl

check_inputs_quiet :
    (node : OperationNode) (produced types : Dict String)
    → HasNoKeyError (check_inputs node produced types)
unfolding check_inputs
check_inputs_quiet node produced [] = λ k raised. cc
check_inputs_quiet node produced ((key, expected) ∷ types) =
    bind_quiet (check_input node produced key expected) _
      (check_input_quiet node produced key expected) (λ a e. check_inputs_quiet node produced types)

record_outputs_quiet :
    (node : OperationNode) (types produced : Dict String)
    → HasNoKeyError (record_outputs node types produced)
unfolding record_outputs
record_outputs_quiet node [] produced = λ k raised. cc
record_outputs_quiet node ((key, type) ∷ types) produced =
    let ref = reference (lookup key node.outputs) in
    guard_then (non_empty ref) (output_missing node.step_id node.op_name key) _ refl (
      guard_then (not (has ref produced)) (output_ref_duplicated node.step_id key ref) _ refl
        (record_outputs_quiet node types (insert ref (base_type type) produced)))

pub check_node_quiet :
    (node : OperationNode) (spec : OperationSpec) (produced : Dict String)
    → HasNoKeyError (check_node node spec produced)
unfolding check_node
check_node_quiet node spec produced =
    let unknown = keep (λ key. not (has key spec.input_types)) (keys node.inputs) in
    guard_then (is_empty unknown) (unknown_input_keys node.step_id unknown) _ refl (
      bind_quiet (validate_required_params node spec) _ (params_quiet node spec) (λ a returned.
        bind_quiet (check_inputs node produced spec.input_types) _
          (check_inputs_quiet node produced spec.input_types)
          (λ b returned'. record_outputs_quiet node spec.output_types produced)))

-- ===== src/PlanGuard/Raised.antt =====
-- The dictionary accesses of `_validate_io_chain` in packages/domain/services/plan_guard.py.
use gis_agent.PlanGuard.Quiet.{HasNoKeyError, bind_quiet, graph_from_quiet, check_node_quiet}
use gis_agent.Prelude.{
  String, Bool, true, false, Option, none, some, List, [], ◌∷◌, mem, str_eq, is_empty, All, ◌≡◌,
  ◌≢◌, refl, ap, sym, ◌∙◌, eq_iff, Bool-cases, inl, inr, arith, subst,
}
use gis_agent.Prelude.Result.{ok, err, ◌>>◌}
use gis_agent.Prelude.Dict.{Dict, lookup, has, keys, has-lookup}
use gis_agent.Plan.{OperationNode, OperationPlan, step_ids, validated}
use gis_agent.Registry.{OperationSpec, operation_specs}
use gis_agent.PlanGuard.Errors.{empty_nodes, key_error}
use gis_agent.PlanGuard.Graph.{Graph, detect_cycle, topological_sort}
use gis_agent.PlanGuard.Graph.Sets.{All-of_mem, mem_of_All}
use gis_agent.PlanGuard.Graph.Sort.{topological_sort_sound}
use gis_agent.PlanGuard.Build.{unique_keys, mem-keys, registered}
use gis_agent.PlanGuard.Chain.{
  Checked, finished, build_dependency_graph, check_node, node_by_id, or_key_error, check_steps,
  after_sort, after_cycle_check, after_graph, validate_operation_plan,
}

-- A step that is found, with an operation that the registry has.
record IsKnown (nodes : List OperationNode) (k : String) : Type 0 where
  pub node : OperationNode
  pub found : node_by_id k nodes ≡ some node
  pub spec : OperationSpec
  pub is_spec : lookup node.op_name operation_specs ≡ some spec

check_steps_quiet :
    (nodes : List OperationNode) (ks : List String) (produced : Dict String)
    → All (IsKnown nodes) ks
    → HasNoKeyError (check_steps nodes ks produced)
unfolding check_steps
check_steps_quiet nodes [] produced known = λ k raised. cc
check_steps_quiet nodes (k ∷ ks) produced known =
    let node_found : or_key_error k (node_by_id k nodes) ≡ ok known.0.node =
      rw known.0.found refl in
    let spec_found : or_key_error known.0.node.op_name (lookup known.0.node.op_name operation_specs)
        ≡ ok known.0.spec =
      rw known.0.is_spec refl in
    rw node_found (
      rw spec_found (
        bind_quiet (check_node known.0.node known.0.spec produced) _ (check_node_quiet _ _ _)
          (λ produced' e. check_steps_quiet nodes ks produced' known.1)))

absent_node :
    (k : String) (nodes : List OperationNode)
    → mem k (step_ids nodes) ≡ false
    → node_by_id k nodes ≡ none
unfolding node_by_id mem
absent_node k [] h = refl
absent_node k (n ∷ nodes) h =
    let other : str_eq n.step_id k ≡ false =
      ground (arith, h, eq_iff k n.step_id, eq_iff n.step_id k) in
    let rest : mem k (step_ids nodes) ≡ false = ground (arith, h) in
    rw (absent_node k nodes rest, other) refl

IsKnown-step :
    (nodes : List OperationNode) (k : String)
    → All (λ n. has n.op_name operation_specs ≡ true) nodes
    → mem k (step_ids nodes) ≡ true
    → IsKnown nodes k
unfolding node_by_id mem
IsKnown-step [] k reg m = cc
IsKnown-step (n ∷ nodes) k reg m = elim (Bool-cases (mem k (step_ids nodes))) [
  | inl later ↦
      let r = IsKnown-step nodes k reg.1 later in
      record { node = r.node; found = rw r.found refl; spec = r.spec; is_spec = r.is_spec }
  | inr not_later ↦
      let here : str_eq n.step_id k ≡ true =
        ground (arith, m, not_later, eq_iff k n.step_id, eq_iff n.step_id k) in
      let (spec, is_spec) = has-lookup n.op_name operation_specs reg.0 in
      record {
        node = n;
        found = rw (absent_node k nodes not_later, here) refl;
        spec = spec;
        is_spec = is_spec;
      }
]

module _ (plan : OperationPlan) where
  steps_quiet :
      (g : Graph) (steps : List String)
      → build_dependency_graph plan ≡ ok g
      → topological_sort g ≡ some steps
      → HasNoKeyError (check_steps plan.nodes steps [])
  steps_quiet g steps built sorted =
      let (found, e, t) = topological_sort_sound g (unique_keys plan g built) in
      let same : found ≡ steps = cc in
      check_steps_quiet plan.nodes steps [] (
        All-of_mem steps λ k m. IsKnown-step plan.nodes k (registered plan g built) (
          sym (mem-keys plan g built k)
          ∙ mem_of_All (λ y. mem y (keys g)) k steps
              (subst (λ l. All (λ y. mem y (keys g) ≡ true) l) same t.known) m))

  after_sort_quiet :
      (g : Graph) (o : Option (List String)) (k : String)
      → build_dependency_graph plan ≡ ok g
      → topological_sort g ≡ o
      → after_sort plan o ≢ finished (err (key_error k))
  after_sort_quiet g none k built sorted raised = cc
  after_sort_quiet g (some steps) k built sorted raised =
      let same : (check_steps plan.nodes steps [] >> ok (record plan { status = validated }))
          ≡ err (key_error k) =
        cc in
      bind_quiet (check_steps plan.nodes steps []) _ (steps_quiet g steps built sorted)
        (λ a e i r. cc) k same

  after_cycle_quiet :
      (g : Graph) (o : Option Bool) (k : String)
      → build_dependency_graph plan ≡ ok g
      → after_cycle_check plan g o ≢ finished (err (key_error k))
  after_cycle_quiet g none k built raised = cc
  after_cycle_quiet g (some true) k built raised = cc
  after_cycle_quiet g (some false) k built raised =
      after_sort_quiet g (topological_sort g) k built refl raised

  after_graph_quiet :
      (r : Checked Graph) (k : String)
      → build_dependency_graph plan ≡ r
      → after_graph plan r ≢ finished (err (key_error k))
  unfolding build_dependency_graph
  after_graph_quiet (err e) k built raised =
      let same : e ≡ key_error k = cc in
      graph_from_quiet (step_ids plan.nodes) plan.nodes [] k (built ∙ ap err same)
  after_graph_quiet (ok g) k built raised = after_cycle_quiet g (detect_cycle g) k built raised

  -- The guard raises no `KeyError`.
  pub validate_quiet : (k : String) → validate_operation_plan plan ≢ finished (err (key_error k))
  unfolding validate_operation_plan
  validate_quiet k raised = elim (Bool-cases (is_empty plan.nodes)) [
    | inl none_there ↦
        let wrong : finished (err empty_nodes) ≡ finished (err (key_error k)) =
          rw none_there at raised in
        cc
    | inr filled ↦ after_graph_quiet (build_dependency_graph plan) k refl (rw filled at raised)
  ]

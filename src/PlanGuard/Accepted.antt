-- ===== src/PlanGuard/Accepted.antt =====
-- What `validate_operation_plan` of packages/domain/services/plan_guard.py decides of a whole plan.
use mathlib.Core.List.{append_assoc, append-nil}
use gis_agent.Prelude.{
  String, true, false, Option, none, some, List, [], ◌∷◌, ◌++◌, mem, distinct, ◌≡◌, refl, ap, sym,
  ◌∙◌, subst, Bool-cases, inl, inr, All, is_empty,
}
use gis_agent.Prelude.Result.{ok, err, ◌>>◌, bind-ok}
use gis_agent.Prelude.Dict.{Dict, keys, lookup}
use gis_agent.Plan.{OperationNode, OperationPlan, step_ids, validated}
use gis_agent.Registry.{OperationSpec, operation_specs}
use gis_agent.PlanGuard.Errors.{empty_nodes, dependency_cycle}
use gis_agent.PlanGuard.Graph.{Graph, detect_cycle, topological_sort}
use gis_agent.PlanGuard.Graph.Sets.{All-of_mem, mem_of_All}
use gis_agent.PlanGuard.Graph.Paths.{Reaches}
use gis_agent.PlanGuard.Graph.Cycle.{order_of_acyclic, acyclic_of_order, detect_cycle_correct}
use gis_agent.PlanGuard.Graph.Sort.{
  IsTopological, topological_sort_sound, topological_sort_complete, IsClosed,
}
use gis_agent.PlanGuard.Chain.{
  node_by_id, or_key_error, check_node, check_steps, build_dependency_graph, Checked, Outcome,
  finished, after_graph, validate_operation_plan,
}
use gis_agent.PlanGuard.Build.{unique_keys, mem-keys, build-IsClosed}
use gis_agent.PlanGuard.Rules.{published_by, published_by_step, published, AllServe}
use gis_agent.PlanGuard.Serving.{check_node_sound}

or_key_error-ok :
    {A : Type 0} (k : String) (o : Option A) {a : A} → or_key_error k o ≡ ok a → o ≡ some a
or_key_error-ok k none h = cc
or_key_error-ok k (some b) h = cc

published_found :
    (o : Option OperationNode) (node : OperationNode) (spec : OperationSpec)
    → o ≡ some node
    → lookup node.op_name operation_specs ≡ some spec
    → published_by_step o ≡ published_by node spec.output_types
published_found o node spec e r = rw e (rw (r, published_by_step) refl)

module _ (nodes : List OperationNode) where
  check_steps_sound :
      (ks : List String) (produced final : Dict String)
      → check_steps nodes ks produced ≡ ok final
      → distinct (keys produced) ≡ true
      → AllServe nodes produced ks
        × (final ≡ produced ++ published nodes ks)
        × (distinct (keys final) ≡ true)
  unfolding check_steps published
  check_steps_sound [] produced final h u =
      let same : produced ≡ final = cc in (tt, sym same ∙ sym (append-nil produced), rw same at u)
  check_steps_sound (k ∷ ks) produced final h u =
      let (node, h1, found) = bind-ok (or_key_error k (node_by_id k nodes)) _ h in
      let (spec, h2, known) =
        bind-ok (or_key_error node.op_name (lookup node.op_name operation_specs)) _ h1 in
      let (next, rest, passed) = bind-ok (check_node node spec produced) _ h2 in
      let (fits, grown, once) = check_node_sound node spec produced next passed u in
      let (served, e, all_once) = check_steps_sound ks next final rest once in
      let is_found = or_key_error-ok k (node_by_id k nodes) found in
      let is_known = or_key_error-ok node.op_name (lookup node.op_name operation_specs) known in
      let step_adds = published_found (node_by_id k nodes) node spec is_found is_known in
      let next_eq = grown ∙ ap (λ (d : Dict String). produced ++ d) (sym step_adds) in
      (
        (
          record { node = node; spec = spec; found = is_found; registered = is_known; fits = fits },
          subst (λ d. AllServe nodes d ks) next_eq served,
        ),
        e
            ∙ ap (λ (d : Dict String). d ++ published nodes ks) next_eq
            ∙ append_assoc produced (published_by_step (node_by_id k nodes)) (published nodes ks),
        all_once,
      )

-- A plan that the guard lets pass, and what it is returned as.
pub record Accepted (plan plan' : OperationPlan) : Type 0 where
  pub has_nodes : is_empty plan.nodes ≡ false
  pub graph : Graph
  pub built : build_dependency_graph plan ≡ ok graph
  pub acyclic : (x : String) → ¬ (Reaches graph x x)
  pub steps : List String
  pub sorted : IsTopological graph steps
  pub complete : All (λ k. mem k steps ≡ true) (step_ids plan.nodes)
  pub served : AllServe plan.nodes [] steps
  pub refs_unique : distinct (keys (published plan.nodes steps)) ≡ true
  pub marked : plan' ≡ record plan { status = validated }

module _ (g : Graph) (unique : distinct (keys g) ≡ true) (steps : List String)
    (sorted : topological_sort g ≡ some steps) where
  the-IsTopological : IsTopological g steps
  the-IsTopological =
      let (found, e, t) = topological_sort_sound g unique in
      let same : found ≡ steps = cc in subst (IsTopological g) same t

  the_complete : IsClosed g → detect_cycle g ≡ some false → All (λ k. mem k steps ≡ true) (keys g)
  the_complete closed acyclic =
      let (found, e, t) = topological_sort_complete g unique closed acyclic in
      let same : found ≡ steps = cc in subst (λ l. All (λ k. mem k l ≡ true) (keys g)) same t

module _ (plan : OperationPlan) where
  -- Where the result comes from, if the graph is `g`.
  data Passes (g : Graph) (o : Outcome) : Type 0 where
    cycle : detect_cycle g ≡ some true → o ≡ finished (err dependency_cycle) → Passes g o
    checked :
        detect_cycle g ≡ some false
        → (steps : List String) → topological_sort g ≡ some steps
        → o ≡ finished (do check_steps plan.nodes steps []; ok (record plan { status = validated }))
        → Passes g o

  passes : (g : Graph) → build_dependency_graph plan ≡ ok g → Passes g (after_graph plan (ok g))
  passes g built =
      let (steps, sorted, _) = topological_sort_sound g (unique_keys plan g built) in
      elim (detect_cycle_correct g) [
        | inl (yes_cycle, _) ↦ cycle yes_cycle (rw yes_cycle refl)
        | inr (no_cycle, _) ↦ checked no_cycle steps sorted (rw (no_cycle, sorted) refl)
      ]

  finished-ok : {r r' : Checked OperationPlan} → finished r ≡ finished r' → r ≡ r'
  finished-ok h = cc

  -- The guard ends on every graph that it has built.
  ends :
      (r : Checked Graph)
      → build_dependency_graph plan ≡ r
      → (o : Checked OperationPlan) × (after_graph plan r ≡ finished o)
  ends (err e) built = (err e, refl)
  ends (ok g) built = elim (passes g built) [
    | cycle _ e ↦ (err dependency_cycle, e)
    | checked _ steps _ e ↦ (_, e)
  ]

  Accepted-from :
      (plan' : OperationPlan) (r : Checked Graph)
      → is_empty plan.nodes ≡ false
      → build_dependency_graph plan ≡ r
      → after_graph plan r ≡ finished (ok plan')
      → Accepted plan plan'
  Accepted-from plan' (err e) filled built h = cc
  Accepted-from plan' (ok g) filled built h = elim (passes g built) [
    | cycle _ e ↦ cc
    | checked no_cycle steps sorted e ↦ from_steps no_cycle steps sorted (finished-ok (sym e ∙ h))
  ]
    where
      from_steps :
          detect_cycle g ≡ some false
          → (steps : List String) → topological_sort g ≡ some steps
          → (check_steps plan.nodes steps [] >> ok (record plan { status = validated })) ≡ ok plan'
          → Accepted plan plan'
      from_steps no_cycle steps sorted h' =
          let unique = unique_keys plan g built in
          let nothing_yet : distinct [] ≡ true = unfold distinct in refl in
          let (final, same, passed) = bind-ok (check_steps plan.nodes steps []) _ h' in
          let (served, e, once) = check_steps_sound plan.nodes steps [] final passed nothing_yet in
          record {
            has_nodes = filled;
            graph = g;
            built = built;
            acyclic = acyclic_of_order g (order_of_acyclic g no_cycle);
            steps = steps;
            sorted = the-IsTopological g unique steps sorted;
            complete = All-of_mem (step_ids plan.nodes) λ k m.
                mem_of_All (λ y. mem y steps) k (keys g)
                  (the_complete g unique steps sorted (build-IsClosed plan g built) no_cycle)
                  (mem-keys plan g built k ∙ m);
            served = served;
            refs_unique = rw e at once;
            marked = cc same;
          }

-- `validate_operation_plan` ends on every plan, with a plan or an error.
pub validate-finishes :
    (plan : OperationPlan)
    → (r : Checked OperationPlan) × (validate_operation_plan plan ≡ finished r)
unfolding validate_operation_plan
validate-finishes plan = elim (Bool-cases (is_empty plan.nodes)) [
  | inl none_there ↦ (err empty_nodes, rw none_there refl)
  | inr filled ↦ let (r, e) = ends plan (build_dependency_graph plan) refl in (r, rw filled e)
]

-- A plan that the guard returns is the given plan marked as validated. Its dependencies are all
-- steps of the plan and have no cycle, and there is an order of its steps, each once and behind its
-- dependencies, in which each step keeps to the specification of its operation with what the steps
-- before it publish; no two outputs of the plan have one reference.
pub validate-Accepted :
    (plan plan' : OperationPlan)
    → validate_operation_plan plan ≡ finished (ok plan')
    → Accepted plan plan'
unfolding validate_operation_plan
validate-Accepted plan plan' h = elim (Bool-cases (is_empty plan.nodes)) [
  | inl none_there ↦
      let wrong : Outcome.finished (err empty_nodes) ≡ finished (ok plan') = rw none_there at h in
      cc
  | inr filled ↦ Accepted-from plan plan' (build_dependency_graph plan) filled refl (rw filled at h)
]

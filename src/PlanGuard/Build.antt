-- ===== src/PlanGuard/Build.antt =====
-- What `_build_dependency_graph` of packages/domain/services/plan_guard.py builds.
use gis_agent.Prelude.{
  String, true, not, List, [], ◌∷◌, mem, distinct, str_eq, eq_iff, if◌then◌else◌, arith, ◌≡◌, refl,
  ap, sym, subst, ◌∙◌, Bool-cases, inl, inr, All, keep, is_empty, ◌||◌,
}
use gis_agent.Prelude.Result.{ok, guard-bind}
use gis_agent.Prelude.Dict.{insert, keys, has, lookup}
use gis_agent.Plan.{OperationNode, OperationPlan, step_ids}
use gis_agent.Registry.{operation_specs}
use gis_agent.PlanGuard.Graph.{Graph, dependencies}
use gis_agent.PlanGuard.Graph.Sets.{mem_of_All}
use gis_agent.PlanGuard.Graph.Children.{dependencies-insert}
use gis_agent.PlanGuard.Graph.Sort.{IsClosed}
use gis_agent.PlanGuard.Chain.{graph_from, build_dependency_graph}

mem-keys-insert :
    (j k : String) (xs : List String) (g : Graph)
    → mem j (keys (insert k xs g)) ≡ (if str_eq k j then true else mem j (keys g))
unfolding insert mem
mem-keys-insert j k xs [] = ground (arith, eq_iff j k, eq_iff k j)
mem-keys-insert j k xs ((i, ys) ∷ g) =
    ground (arith, mem-keys-insert j k xs g, eq_iff j k, eq_iff k j, eq_iff i k, eq_iff j i)

-- A dictionary keeps its keys distinct.
distinct-keys-insert :
    (k : String) (xs : List String) (g : Graph)
    → distinct (keys g) ≡ true
    → distinct (keys (insert k xs g)) ≡ true
unfolding insert distinct mem
distinct-keys-insert k xs [] h = refl
distinct-keys-insert k xs ((i, ys) ∷ g) h =
    ground (arith, distinct-keys-insert k xs g, mem-keys-insert i k xs g, eq_iff i k, eq_iff k i)

-- The dependencies that are no steps are none exactly if all are steps.
keep_unknown :
    (ids deps : List String)
    → is_empty (keep (λ dep. not (mem dep ids)) deps) ≡ true
    → All (λ dep. mem dep ids ≡ true) deps
keep_unknown ids [] h = tt
keep_unknown ids (d ∷ deps) h = elim (Bool-cases (mem d ids)) [
  | inl there ↦ (there, keep_unknown ids deps (ground arith))
  | inr away ↦ ground arith
]

module _ (ids : List String) where
  -- The loop's invariant: distinct keys, among them those of the nodes so far, and dependencies on
  -- steps alone.
  pub record Built (g : Graph) : Type 0 where
    pub unique : distinct (keys g) ≡ true
    pub on_steps : (a b : String) → mem b (dependencies g a) ≡ true → mem b ids ≡ true

  insert-Built :
      (k : String) (deps : List String) (g : Graph)
      → All (λ dep. mem dep ids ≡ true) deps
      → Built g
      → Built (insert k deps g)
  insert-Built k deps g h b = record {
    unique = distinct-keys-insert k deps g b.unique;
    on_steps = λ a c. rw dependencies-insert (by_key a c);
  }
    where
      by_key :
          (a c : String)
          → mem c (if str_eq k a then deps else dependencies g a) ≡ true
          → mem c ids ≡ true
      by_key a c m = elim (Bool-cases (str_eq k a)) [
        | inl same ↦ mem_of_All (λ d. mem d ids) c deps h (rw same at m)
        | inr other ↦ b.on_steps a c (rw other at m)
      ]

  -- Inversion of one round of the loop.
  pub graph_from-cons :
      (node : OperationNode) (nodes : List OperationNode) (g g' : Graph)
      → graph_from ids (node ∷ nodes) g ≡ ok g'
      → (has node.op_name operation_specs ≡ true)
        × All (λ dep. mem dep ids ≡ true) node.depends_on
        × (graph_from ids nodes (insert node.step_id node.depends_on g) ≡ ok g')
  unfolding graph_from
  graph_from-cons node nodes g g' h =
      let (registered, h') = guard-bind (has node.op_name operation_specs) _ _ h in
      let (resolved, rest) =
        guard-bind (is_empty (keep (λ dep. not (mem dep ids)) node.depends_on)) _ _ h' in
      (registered, keep_unknown ids node.depends_on resolved, rest)

  graph_from-Built :
      (nodes : List OperationNode) (g g' : Graph)
      → Built g
      → graph_from ids nodes g ≡ ok g'
      → Built g'
  unfolding graph_from
  graph_from-Built [] g g' b h = let same : g ≡ g' = cc in subst Built same b
  graph_from-Built (node ∷ nodes) g g' b h =
      let (registered, resolved, rest) = graph_from-cons node nodes g g' h in
      graph_from-Built nodes (insert node.step_id node.depends_on g) g'
        (insert-Built node.step_id node.depends_on g resolved b) rest

  keys-graph_from :
      (nodes : List OperationNode) (g g' : Graph) (k : String)
      → graph_from ids nodes g ≡ ok g'
      → mem k (keys g') ≡ (mem k (step_ids nodes) || mem k (keys g))
  unfolding graph_from mem
  keys-graph_from [] g g' k h =
      let same : g ≡ g' = cc in ap (λ (x : Graph). mem k (keys x)) (sym same)
  keys-graph_from (node ∷ nodes) g g' k h =
      let (registered, resolved, rest) = graph_from-cons node nodes g g' h in
      ground (
        arith,
        keys-graph_from nodes (insert node.step_id node.depends_on g) g' k rest,
        mem-keys-insert k node.step_id node.depends_on g,
        eq_iff k node.step_id,
        eq_iff node.step_id k,
      )

  -- Every operation that is accepted is in the registry.
  graph_from-registered :
      (nodes : List OperationNode) (g g' : Graph)
      → graph_from ids nodes g ≡ ok g'
      → All (λ n. has n.op_name operation_specs ≡ true) nodes
  unfolding graph_from
  graph_from-registered [] g g' h = tt
  graph_from-registered (node ∷ nodes) g g' h =
      let (registered, resolved, rest) = graph_from-cons node nodes g g' h in
      (registered, graph_from-registered nodes (insert node.step_id node.depends_on g) g' rest)

no_edge : (a b : String) → ¬ (mem b (dependencies [] a) ≡ true)
unfolding dependencies mem lookup
no_edge a b h = cc

module _ (plan : OperationPlan) (g : Graph) (built : build_dependency_graph plan ≡ ok g) where
  from_nodes : Built (step_ids plan.nodes) g
  unfolding build_dependency_graph
  from_nodes =
      graph_from-Built (step_ids plan.nodes) plan.nodes [] g
        (record { unique = unfold distinct in refl; on_steps = λ a b m. absurd (no_edge a b m) })
        built

  pub unique_keys : distinct (keys g) ≡ true
  unique_keys = from_nodes.unique

  pub mem-keys : (k : String) → mem k (keys g) ≡ mem k (step_ids plan.nodes)
  unfolding build_dependency_graph mem
  mem-keys k = ground (arith, keys-graph_from (step_ids plan.nodes) plan.nodes [] g k built)

  -- The graph has an edge to steps of the plan alone.
  pub build-IsClosed : IsClosed g
  build-IsClosed a b e = mem-keys b ∙ from_nodes.on_steps a b e

  pub registered : All (λ n. has n.op_name operation_specs ≡ true) plan.nodes
  unfolding build_dependency_graph
  registered = graph_from-registered (step_ids plan.nodes) plan.nodes [] g built

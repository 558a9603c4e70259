-- ===== src/Pipeline/Order.antt =====
-- The loop of packages/domain/services/processing_pipeline.py over the plans that
-- packages/domain/services/plan_guard.py lets pass.
use mathlib.Core.List.{Memᴰ, Permᴰ, reverse}
use mathlib.Core.List.Permᴰ
use mathlib.Core.List.Memᴰ
use gis_agent.Prelude.{
  String, true, false, some, List, [], ◌∷◌, ◌++◌, mem, distinct, All, is_empty, str_eq, eq_iff,
  arith, if◌then◌else◌, ◌≡◌, refl, sym, ap, ◌∙◌, ◌⊎◌, inl, inr, subst,
}
use gis_agent.Prelude.Result.{Result, ok}
use gis_agent.Prelude.Dict.{keys, insert}
use gis_agent.Prelude.Sublists.{All-all}
use gis_agent.Plan.{OperationNode, OperationPlan, step_ids}
use gis_agent.PlanGuard.Graph.{Graph, dependencies}
use gis_agent.PlanGuard.Graph.Sets.{mem_of_All, All-of_mem, mem-reverse}
use gis_agent.PlanGuard.Graph.Paths.{IsOrdered}
use gis_agent.PlanGuard.Graph.Children.{dependencies-insert}
use gis_agent.PlanGuard.Chain.{
  graph_from, build_dependency_graph, validate_operation_plan, finished,
}
use gis_agent.PlanGuard.Build.{graph_from-cons, mem-keys}
use gis_agent.PlanGuard.Accepted.{Accepted, validate-Accepted}
use gis_agent.Pipeline.Schedule.{
  Ending, is_ready, run_nodes, completed, raised, unresolved, empty_plan,
}
use gis_agent.Pipeline.Executed.{RunsTo, all_wait}
use gis_agent.Pipeline.Nodes.{mem_of_Mem, Mem_of_mem, Mem-Perm, distinct-Perm}
use gis_agent.Pipeline.Rounds.{run_nodes-RunsTo}

-- The graph holds the dependencies of a node under its id, if no later node has the same id.
module _ (ids : List String) where
  kept_edges :
      (k : String) (nodes : List OperationNode) (g g' : Graph)
      → graph_from ids nodes g ≡ ok g'
      → mem k (step_ids nodes) ≡ false
      → dependencies g' k ≡ dependencies g k
  unfolding graph_from mem
  kept_edges k [] g g' h away = let same : g ≡ g' = cc in rw same refl
  kept_edges k (n ∷ nodes) g g' h away =
      let (_, _, rest) = graph_from-cons ids n nodes g g' h in
      kept_edges k nodes (insert n.step_id n.depends_on g) g' rest (ground arith)
      ∙ (rw dependencies-insert (pick (ground (arith, eq_iff k n.step_id, eq_iff n.step_id k))))
    where
      pick :
          str_eq n.step_id k ≡ false
          → (if str_eq n.step_id k then n.depends_on else dependencies g k) ≡ dependencies g k
      pick other = rw other refl

  pub node_edges :
      (node : OperationNode) (nodes : List OperationNode) (g g' : Graph)
      → graph_from ids nodes g ≡ ok g'
      → distinct (step_ids nodes) ≡ true
      → Memᴰ node nodes
      → dependencies g' node.step_id ≡ node.depends_on
  unfolding graph_from distinct
  node_edges node [] g g' h u there = elim there [ ]
  node_edges node (n ∷ nodes) g g' h u (Memᴰ.head e) =
      let (_, _, rest) = graph_from-cons ids n nodes g g' h in
      let same = ap (λ (m : OperationNode). m.step_id) e in
      ap (dependencies g') same
      ∙ kept_edges n.step_id nodes (insert n.step_id n.depends_on g) g' rest (ground arith)
      ∙ dependencies-insert n.step_id n.step_id n.depends_on g
      ∙ pick (ground (arith, eq_iff n.step_id n.step_id))
      ∙ ap (λ (m : OperationNode). m.depends_on) (sym e)
    where
      pick :
          str_eq n.step_id n.step_id ≡ true
          → (if str_eq n.step_id n.step_id then n.depends_on else dependencies g n.step_id)
            ≡ n.depends_on
      pick same = rw same refl
  node_edges node (n ∷ nodes) g g' h u (Memᴰ.tail m) =
      let (_, _, rest) = graph_from-cons ids n nodes g g' h in
      node_edges node nodes (insert n.step_id n.depends_on g) g' rest (ground arith) m

module _ (g : Graph) (nodes : List OperationNode)
    (edges : (n : OperationNode) → Memᴰ n nodes → dependencies g n.step_id ≡ n.depends_on)
    (done : List String)
    (settled_or_waits : (n : OperationNode)
      → Memᴰ n nodes
      → (mem n.step_id done ≡ true) ⊎ (is_ready done n ≡ false)) where
  -- What is not done waits, so that in an order of the steps all of them are done.
  every_step_done :
      (order : List String)
      → IsOrdered g order
      → All (λ k. mem k (step_ids nodes) ≡ true) order
      → All (λ k. mem k done ≡ true) order
  every_step_done [] o known = tt
  every_step_done (k ∷ ks) o known =
      let rest = every_step_done ks o.1 known.1 in
      let (n, there, e) = Mem_of_mem k nodes known.0 in
      let here : All (λ d. mem d ks ≡ true) n.depends_on =
        subst (λ l. All (λ d. mem d ks ≡ true) l) (ap (dependencies g) e ∙ edges n there) o.0 in
      let ready : is_ready done n ≡ true =
        All-all (λ d. mem d done) n.depends_on
          (All-of_mem n.depends_on λ d dep.
            mem_of_All (λ x. mem x done) d ks rest
              (mem_of_All (λ x. mem x ks) d n.depends_on here dep)) in
      (
        elim (settled_or_waits n there) [ inl settled ↦ rw e settled | inr waits ↦ ground arith ],
        rest,
      )

first_of : (ns : List OperationNode) → is_empty ns ≡ false → (n : OperationNode) × Memᴰ n ns
first_of [] h = cc
first_of (n ∷ ns) h = (n, Memᴰ.head refl)

-- With distinct ids, a node of the second part is not in the first.
apart :
    (xs ys : List OperationNode) (n : OperationNode)
    → distinct (step_ids (xs ++ ys)) ≡ true
    → Memᴰ n ys
    → mem n.step_id (step_ids xs) ≡ false
unfolding distinct mem
apart [] ys n u there = refl
apart (x ∷ xs) ys n u there =
    let later = mem_of_Mem n (xs ++ ys) (Memᴰ.append_right xs there) in
    ground (arith, later, apart xs ys n (ground arith) there, eq_iff n.step_id x.step_id)

module _ {S E : Type 0} (run : OperationNode → S → Result E S) (start : S) where
  module _ (plan plan' : OperationPlan) (accepted : Accepted plan plan')
      (unique : distinct (step_ids plan.nodes) ≡ true) where
    none_waits :
        (done left : List OperationNode)
        → is_empty left ≡ false
        → Permᴰ (done ++ left) plan.nodes
        → ¬ ((n : OperationNode) → Memᴰ n left → is_ready (step_ids done) n ≡ false)
    none_waits done left some_left split waits =
        let (n, there) = first_of left some_left in
        let back = Permᴰ.symm split in
        let edges = node_edges (step_ids plan.nodes) in
        let settled =
          every_step_done accepted.graph plan.nodes
            (λ m here.
              unfold build_dependency_graph in
              edges m plan.nodes [] accepted.graph accepted.built unique here)
            (step_ids done)
            (λ m here. elim (Memᴰ.append_cases done (Mem-Perm back here)) [
              | inl in_done ↦ inl (mem_of_Mem m done in_done)
              | inr in_left ↦ inr (waits m in_left)
            ])
            (reverse accepted.steps) accepted.sorted.ordered
            (All-of_mem (reverse accepted.steps) λ k m.
              sym (mem-keys plan accepted.graph accepted.built k)
              ∙ mem_of_All (λ x. mem x (keys accepted.graph)) k accepted.steps accepted.sorted.known
                  (sym (mem-reverse k accepted.steps) ∙ m)) in
        let in_plan = mem_of_Mem n plan.nodes (Mem-Perm split (Memᴰ.append_right done there)) in
        let in_order =
          mem_of_All (λ x. mem x accepted.steps) n.step_id (step_ids plan.nodes) accepted.complete
            in_plan in
        let is_done =
          mem_of_All (λ x. mem x (step_ids done)) n.step_id (reverse accepted.steps) settled
            (mem-reverse n.step_id accepted.steps ∙ in_order) in
        let not_done = apart done left n (distinct-Perm back unique) there in
        ground (arith, is_done, not_done)

  -- How the loop ends when no step is left waiting.
  pub data RunsThrough (nodes : List OperationNode) : Type 0 where
    succeeds :
        (final : S)
        → run_nodes run nodes start ≡ some (completed final)
        → RunsTo run start nodes (completed final)
        → RunsThrough nodes
    fails :
        (e : E)
        → run_nodes run nodes start ≡ some (raised e)
        → RunsTo run start nodes (raised e)
        → RunsThrough nodes

  module _ (plan plan' : OperationPlan) (accepted : Accepted plan plan')
      (unique : distinct (step_ids plan.nodes) ≡ true) where
    through :
        (e : Ending S E)
        → run_nodes run plan.nodes start ≡ some e
        → RunsTo run start plan.nodes e
        → RunsThrough plan.nodes
    through empty_plan ends runs = elim runs [ ]
    through (raised x) ends runs = fails x ends runs
    through (completed final) ends runs = succeeds final ends runs
    through (unresolved ids final) ends (all_wait done left some_left split reached waits) =
        absurd (none_waits plan plan' accepted unique done left some_left split waits)

    pub runs-through : RunsThrough plan.nodes
    runs-through =
        let (e, ends, runs) = run_nodes-RunsTo run start plan.nodes unique accepted.has_nodes in
        through e ends runs

  -- On a plan that the guard returns and whose step ids are distinct, as the schema has it, the loop
  -- never stops at unresolved dependencies, whatever a step does: it executes every node once and
  -- behind its dependencies, or ends with the exception of the first step that fails.
  pub accepted-RunsThrough :
      (plan plan' : OperationPlan)
      → validate_operation_plan plan ≡ finished (ok plan')
      → distinct (step_ids plan.nodes) ≡ true
      → RunsThrough plan.nodes
  accepted-RunsThrough plan plan' passes unique =
      runs-through plan plan' (validate-Accepted plan plan' passes) unique

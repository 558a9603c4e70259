-- ===== src/Builder/Built.antt =====
-- The plans that `build_operation_plan_from_registry` of
-- packages/domain/services/operation_plan_builder.py builds.
use mathlib.Core.List.{Memᴰ, reverse}
use mathlib.Core.List.Permᴰ
use gis_agent.Prelude.{
  ℕ, suc, length, String, Bool, true, false, not, Option, none, some, List, [], ◌∷◌, ◌++◌, keep,
  mem, distinct, is_empty, leb, all, All, if◌then◌else◌, ◌≡◌, refl, sym, ap, ◌∙◌, inl, inr,
  or_right, Bool-cases, Option-cases, subst, and_parts,
}
use gis_agent.Prelude.Sublists.{All-map, dedup-All, kept, all-All}
use gis_agent.Prelude.Result.{ok, then_ok}
use gis_agent.Prelude.Text.{non_empty}
use gis_agent.Prelude.Dict.{lookup, insert, has, keys, has-All}
use gis_agent.Registry.{OperationSpec, operation_specs}
use gis_agent.Plan.{
  OperationNode, OperationPlan, PlanStatus, step_ids, allowed_operation_names, node_fits_schema,
  plan_fits_schema,
}
use gis_agent.PlanGuard.Graph.{Graph, dependencies}
use gis_agent.PlanGuard.Graph.Sets.{
  mem-append, mem-dedup, mem-cons_self, mem-cons_of_mem, All-of_mem,
}
use gis_agent.PlanGuard.Graph.Paths.{Reaches, IsOrdered}
use gis_agent.PlanGuard.Graph.Cycle.{Order, acyclic_of_order}
use gis_agent.PlanGuard.Chain.{graph_from, build_dependency_graph}
use gis_agent.PlanGuard.Build.{mem-keys}
use gis_agent.Pipeline.Nodes.{mem-Perm, Mem-Perm}
use gis_agent.Pipeline.Order.{node_edges}
use gis_agent.Builder.Request.{
  ParsedTaskSpec, is_operation, list_names, normalize_requested_operations, pick_operation_sequence,
}
use gis_agent.Builder.Nodes.{
  step_id_of, Building, export_dependencies, export_node, ends_with_export, close_nodes,
  build_operation_nodes, plan_of, construct_plan, build_operation_plan_from_registry,
  add_operations, infer_primary_ref, primary_types, require_operation_spec,
}
use gis_agent.Builder.Chained.{Among, IsBehind, lookup-Among, last-Among}
use gis_agent.Builder.Loop.{Chained, Looping, snoc-Chained, add_operations-Looping, known_spec}

-- Every requested operation is one of the registry.
sequence-registered :
    (parsed : ParsedTaskSpec)
    → All (λ op. has op operation_specs ≡ true) (pick_operation_sequence parsed)
unfolding pick_operation_sequence normalize_requested_operations is_operation
sequence-registered parsed =
    let names = list_names (lookup "operations" parsed.operation_params) in
    All-map (pick_operation_sequence parsed)
      (λ op h. (and_parts (non_empty op) (has op operation_specs) h).1)
      (dedup-All (λ op. is_operation op ≡ true) (keep is_operation names) []
        (kept is_operation names))

nothing-Chained : Chained 1 []
nothing-Chained = record {
  counted = refl;
  below = tt;
  unique = unfold distinct in refl;
  behind = tt;
  registered = tt;
  named = tt;
}

one-Among :
    (ids : List String) (s : String) (filled : Bool)
    → Among ids s
    → All (Among ids) (if filled then s ∷ [] else [])
one-Among ids s true there = (there, tt)
one-Among ids s false there = tt

module _ (parsed : ParsedTaskSpec) where
  export-Among :
      (b : Building) (primary : Option (String × String))
      → All (λ e. Among (step_ids b.nodes) e.1) b.ref_producer
      → All (Among (step_ids b.nodes)) (export_dependencies parsed primary b)
  unfolding export_dependencies
  export-Among b none h = last-Among b.nodes
  export-Among b (some (ref, type)) h = elim (Option-cases (lookup ref b.ref_producer)) [
    | inl unknown ↦ rw (export_dependencies, unknown) tt
    | inr (producer, found) ↦
        rw (export_dependencies, found)
          (one-Among (step_ids b.nodes) producer (non_empty producer)
            (lookup-Among (step_ids b.nodes) b.ref_producer ref producer h found))
  ]

  -- The export is a node with the next number, and depends on a step that is there.
  module _ (spec : OperationSpec) (b : Building) where
    export-id :
        (export_node parsed spec b).step_id ≡ step_id_of (suc (length b.nodes)) "artifact_export"
    unfolding export_node
    export-id = refl

    export-op : (export_node parsed spec b).op_name ≡ "artifact.export"
    unfolding export_node
    export-op = refl

    export-registered : has (export_node parsed spec b).op_name operation_specs ≡ true
    unfolding export_node has operation_specs
    export-registered = refl

    export-deps :
        All (λ e. Among (step_ids b.nodes) e.1) b.ref_producer
        → All (Among (step_ids b.nodes)) (export_node parsed spec b).depends_on
    unfolding export_node
    export-deps h =
        let primary = infer_primary_ref primary_types b.refs_by_type in
        dedup-All (Among (step_ids b.nodes)) (export_dependencies parsed primary b) []
          (export-Among b primary h)

  ends-append :
      (nodes : List OperationNode) (node : OperationNode)
      → node.op_name ≡ "artifact.export"
      → ends_with_export parsed (nodes ++ node ∷ []) ≡ true
  ends-append [] node e = rw e refl
  ends-append (n ∷ []) node e = rw e refl
  ends-append (n ∷ m ∷ ns) node e = ends-append (m ∷ ns) node e

  -- The nodes of a plan: in a chain, with an export at the end if there are any.
  record Closed (nodes : List OperationNode) : Type 0 where
    number : ℕ
    chained : Chained number nodes
    ends : is_empty nodes ≡ false → ends_with_export parsed nodes ≡ true

  close-Closed :
      (n : ℕ) (b : Building)
      → Looping n b
      → (nodes : List OperationNode) × (close_nodes parsed b ≡ ok nodes) × Closed nodes
  unfolding close_nodes
  close-Closed n b l = elim (Bool-cases (is_empty b.nodes)) [
    | inl none_there ↦ (
      [],
      rw (close_nodes, none_there) refl,
      record { number = 1; chained = nothing-Chained; ends = λ filled. cc },
    )
    | inr some_there ↦ elim (Bool-cases (ends_with_export parsed b.nodes)) [
      | inl ends ↦ (
        b.nodes,
        rw (close_nodes, some_there, ends) refl,
        record { number = n; chained = l.nodes_chained; ends = λ _. ends },
      )
      | inr others ↦
          let (spec, found) =
            known_spec parsed "artifact.export" (unfold has operation_specs in refl) in
          (
            b.nodes ++ export_node parsed spec b ∷ [],
            rw (close_nodes, some_there, others)
                (then_ok (require_operation_spec "artifact.export")
                  (λ x. ok (b.nodes ++ export_node parsed x b ∷ [])) found refl),
            record {
              number = suc n;
              chained =
                  snoc-Chained n "artifact_export" b.nodes (export_node parsed spec b)
                    l.nodes_chained
                    (export-id spec b
                      ∙ ap (λ (k : ℕ). step_id_of k "artifact_export") l.nodes_chained.counted)
                    (export-deps spec b l.producers) (export-registered spec b);
              ends = λ _. ends-append b.nodes (export_node parsed spec b) (export-op spec b);
            },
          )
    ]
  ]

-- The chain of a plan is an order of its graph.
module _ (g : Graph) where
  IsOrdered-nodes :
      (nodes : List OperationNode)
      → ((n : OperationNode) → Memᴰ n nodes → dependencies g n.step_id ≡ n.depends_on)
      → IsBehind nodes
      → IsOrdered g (step_ids nodes)
  IsOrdered-nodes [] edges h = tt
  IsOrdered-nodes (n ∷ ns) edges h = (
    subst (All (λ d. mem d (step_ids ns) ≡ true)) (sym (edges n (Memᴰ.head refl))) h.0,
    IsOrdered-nodes ns (λ m there. edges m (Memᴰ.tail there)) h.1,
  )

none_unknown :
    (ids deps : List String)
    → All (Among ids) deps
    → is_empty (keep (λ dep. not (mem dep ids)) deps) ≡ true
none_unknown ids [] h = refl
none_unknown ids (d ∷ deps) h = rw (h.0) (none_unknown ids deps h.1)

-- The graph of nodes whose operations are registered and whose dependencies are steps is built.
graph_from-ok :
    (ids : List String) (nodes : List OperationNode) (g : Graph)
    → All (λ n. has n.op_name operation_specs ≡ true) nodes
    → All (λ (n : OperationNode). All (Among ids) n.depends_on) nodes
    → (g' : Graph) × (graph_from ids nodes g ≡ ok g')
unfolding graph_from
graph_from-ok ids [] g registered known = (g, refl)
graph_from-ok ids (n ∷ ns) g registered known =
    let (g', rest) = graph_from-ok ids ns (insert n.step_id n.depends_on g) registered.1 known.1 in
    rw (registered.0, none_unknown ids n.depends_on known.0) (g', rest)

behind-known :
    (nodes : List OperationNode) (n : OperationNode)
    → IsBehind nodes
    → Memᴰ n nodes
    → All (Among (step_ids nodes)) n.depends_on
behind-known [] n h there = elim there [ ]
behind-known (m ∷ ms) n h (Memᴰ.head e) =
    rw e (All-map m.depends_on (λ d there. mem-cons_of_mem d m.step_id (step_ids ms) there) h.0)
behind-known (m ∷ ms) n h (Memᴰ.tail there) =
    All-map n.depends_on (λ d known. mem-cons_of_mem d m.step_id (step_ids ms) known)
      (behind-known ms n h.1 there)

All-of_Mem :
    (P : OperationNode → Type 0) (nodes : List OperationNode)
    → ((n : OperationNode) → Memᴰ n nodes → P n)
    → All P nodes
All-of_Mem P [] f = tt
All-of_Mem P (n ∷ ns) f = (f n (Memᴰ.head refl), All-of_Mem P ns (λ m there. f m (Memᴰ.tail there)))

-- Every operation of the registry is a name that the schema allows.
registered_allowed :
    (op : String) → has op operation_specs ≡ true → mem op allowed_operation_names ≡ true
unfolding has operation_specs mem
registered_allowed op h =
    has-All (λ k. mem k allowed_operation_names ≡ true) operation_specs op
      (all-All (λ k. mem k allowed_operation_names) (keys operation_specs) refl) h

nodes-fit :
    (nodes : List OperationNode)
    → All (λ n. has n.op_name operation_specs ≡ true) nodes
    → All (λ n. non_empty n.step_id ≡ true) nodes
    → all node_fits_schema nodes ≡ true
unfolding node_fits_schema
nodes-fit [] registered named = refl
nodes-fit (n ∷ ns) registered named =
    rw (named.0, registered_allowed n.op_name registered.0) (nodes-fit ns registered.1 named.1)

module _ (parsed : ParsedTaskSpec) where
  -- A plan that the builder has built.
  pub record IsBuilt (plan : OperationPlan) : Type 0 where
    pub fits : plan_fits_schema plan ≡ true
    pub unique : distinct (step_ids plan.nodes) ≡ true
    pub graph : Graph
    pub built : build_dependency_graph plan ≡ ok graph
    pub acyclic : (x : String) → ¬ (Reaches graph x x)
    pub ends : is_empty plan.nodes ≡ false → ends_with_export parsed plan.nodes ≡ true
    pub asks : is_empty plan.nodes ≡ true → mem "operations" plan.missing_fields ≡ true

  module _ (version : ℕ) (status : PlanStatus) (missing : List String)
      (numbered : leb 1 version ≡ true) where
    asks-operations :
        (nodes : List OperationNode)
        → is_empty nodes ≡ true
        → mem "operations" (plan_of parsed version status missing nodes).missing_fields ≡ true
    unfolding plan_of mem
    asks-operations nodes none_there = rw none_there (
        mem-dedup "operations" (missing ++ "operations" ∷ []) []
          (rw mem-append (or_right (mem "operations" missing) _ (mem-cons_self "operations" []))))

    plan_of-IsBuilt :
        (nodes : List OperationNode)
        → Closed parsed nodes
        → IsBuilt (plan_of parsed version status missing nodes)
    unfolding plan_of build_dependency_graph plan_fits_schema
    plan_of-IsBuilt nodes c =
        let plan = plan_of parsed version status missing nodes in
        let back = Permᴰ.reverse nodes in
        let (g, built) = graph_from-ok (step_ids nodes) nodes [] c.chained.registered (
          All-of_Mem _ nodes λ n there.
            All-map n.depends_on (λ d h. sym (mem-Perm d back) ∙ h)
              (behind-known (reverse nodes) n c.chained.behind
                (Mem-Perm (Permᴰ.symm back) there))) in
        let order : Order g = record {
          steps = step_ids (reverse nodes);
          ordered =
              IsOrdered-nodes g (reverse nodes)
                (λ n there.
                  node_edges (step_ids nodes) n nodes [] g built c.chained.unique
                    (Mem-Perm back there))
                c.chained.behind;
          complete = All-of_mem (keys g) λ k m. mem-Perm k back ∙ sym (mem-keys plan g built k) ∙ m;
        } in
        record {
          fits =
              rw (numbered, nodes-fit nodes c.chained.registered c.chained.named) c.chained.unique;
          unique = c.chained.unique;
          graph = g;
          built = built;
          acyclic = acyclic_of_order g order;
          ends = c.ends;
          asks = asks-operations nodes;
        }

    -- In every version from 1 on, the builder returns a plan for every task: no schema refuses it. Its
    -- step ids are distinct, the guard builds its graph with no unknown operation or dependency, and
    -- the graph has no cycle. If it has any nodes, the last is an export, and if not, the operations
    -- are among the missing fields.
    pub build-IsBuilt :
        (plan : OperationPlan) × (build_operation_plan_from_registry parsed version status missing
          ≡ ok plan)
        × IsBuilt plan
    unfolding build_operation_plan_from_registry build_operation_nodes construct_plan
    build-IsBuilt =
        let start : Building = record { nodes = []; refs_by_type = []; ref_producer = [] } in
        let (b, looped, (n, looping)) =
          add_operations-Looping parsed (pick_operation_sequence parsed) 1 start
            (sequence-registered parsed)
            (record { nodes_chained = nothing-Chained; producers = tt }) in
        let (nodes, closes, closed) = close-Closed parsed n b looping in
        let built = plan_of-IsBuilt nodes closed in
        (
          plan_of parsed version status missing nodes,
          then_ok (build_operation_nodes parsed (pick_operation_sequence parsed))
              (λ l. construct_plan (plan_of parsed version status missing l))
              (then_ok (add_operations parsed 1 (pick_operation_sequence parsed) start)
                (close_nodes parsed) looped closes)
              (rw (construct_plan, built.fits) refl),
          built,
        )

-- ===== src/Builder/Loop.antt =====
-- The loop of `_build_operation_nodes` of packages/domain/services/operation_plan_builder.py, step
-- by step.
use mathlib.Core.List.{reverse, reverse-append}
use mathlib.Core.List.Permᴰ
use gis_agent.Prelude.{
  ℕ, suc, ◌<◌, String, true, false, List, [], ◌∷◌, ◌++◌, length, mem, distinct, ltb, lt→ltb, ltb→lt,
  arith, All, ◌≡◌, refl, ap, ◌∙◌, inl, inr, Bool-cases, length-append, or_left, or_right,
}
use gis_agent.Prelude.Sublists.{All-map, All-append}
use gis_agent.Prelude.Result.{ok, then_ok}
use gis_agent.Prelude.Text.{non_empty}
use gis_agent.Prelude.Dict.{Dict, has, has-lookup}
use gis_agent.Registry.{OperationSpec, operation_specs}
use gis_agent.Plan.{OperationNode, step_ids}
use gis_agent.PlanGuard.Graph.Sets.{mem-cons_self, mem-append, mem_of_All, distinct-snoc}
use gis_agent.Pipeline.Nodes.{mem-Perm}
use gis_agent.Builder.Request.{ParsedTaskSpec}
use gis_agent.Builder.Nodes.{
  without_dots, step_id_of, Building, wire_outputs, add_operation, require_operation_spec,
  add_operations,
}
use gis_agent.Builder.Chained.{
  Among, index_of, index_of-step_id_of, step_ids-append, IsBehind, wired-Among, produced-Among,
  settled-Among,
}

-- The reversed list has the same ids.
mem-reversed :
    (k : String) (ns : List OperationNode) → mem k (step_ids (reverse ns)) ≡ mem k (step_ids ns)
mem-reversed k ns = mem-Perm k (Permᴰ.reverse ns)

-- What holds of the nodes so far, where the next one has the number `k`.
pub record Chained (k : ℕ) (nodes : List OperationNode) : Type 0 where
  pub counted : suc (length nodes) ≡ k
  pub below : All (λ id. ltb (index_of id) k ≡ true) (step_ids nodes)
  pub unique : distinct (step_ids nodes) ≡ true
  pub behind : IsBehind (reverse nodes)
  pub registered : All (λ n. has n.op_name operation_specs ≡ true) nodes
  pub named : All (λ n. non_empty n.step_id ≡ true) nodes

new_id :
    (k : ℕ) (name : String) (nodes : List OperationNode)
    → Chained k nodes
    → mem (step_id_of k name) (step_ids nodes) ≡ false
new_id k name nodes c = elim (Bool-cases (mem (step_id_of k name) (step_ids nodes))) [
  | inr new ↦ new
  | inl old ↦
      let less =
        mem_of_All (λ id. ltb (index_of id) k) (step_id_of k name) (step_ids nodes) c.below old in
      let wrong : index_of (step_id_of k name) < k = ltb→lt (index_of (step_id_of k name)) k less in
      absurd (omega (arith, wrong, index_of-step_id_of k name))
]

named_step : (k : ℕ) (name : String) → non_empty (step_id_of k name) ≡ true
unfolding step_id_of
named_step k name = refl

-- A node with the next number behind the others.
pub snoc-Chained :
    (k : ℕ) (name : String) (nodes : List OperationNode) (node : OperationNode)
    → Chained k nodes
    → node.step_id ≡ step_id_of k name
    → All (λ d. mem d (step_ids nodes) ≡ true) node.depends_on
    → has node.op_name operation_specs ≡ true
    → Chained (suc k) (nodes ++ node ∷ [])
snoc-Chained k name nodes node c is_next deps registered = record {
  counted = omega (arith, length-append nodes (node ∷ []), c.counted);
  below = rw (step_ids-append nodes (node ∷ [])) (
      All-append (λ id. ltb (index_of id) (suc k) ≡ true) (step_ids nodes) (node.step_id ∷ [])
        (All-map (step_ids nodes)
          (λ id less. lt→ltb (index_of id) (suc k) (omega (arith, ltb→lt (index_of id) k less)))
          c.below)
        (
          lt→ltb (index_of node.step_id) (suc k)
              (omega (arith, ap index_of is_next, index_of-step_id_of k name)),
          tt,
        ));
  unique =
      rw (step_ids-append nodes (node ∷ []))
        (distinct-snoc node.step_id (step_ids nodes) c.unique (rw is_next (new_id k name nodes c)));
  behind =
      rw (reverse-append nodes (node ∷ []))
        (All-map node.depends_on (λ d there. mem-reversed d nodes ∙ there) deps, c.behind);
  registered =
      All-append (λ n. has n.op_name operation_specs ≡ true) nodes (node ∷ []) c.registered
        (registered, tt);
  named =
      All-append (λ n. non_empty n.step_id ≡ true) nodes (node ∷ []) c.named
        (rw is_next (named_step k name), tt);
}

-- The loop's invariant.
pub record Looping (k : ℕ) (b : Building) : Type 0 where
  pub nodes_chained : Chained k b.nodes
  pub producers : All (λ e. Among (step_ids b.nodes) e.1) b.ref_producer

module _ (parsed : ParsedTaskSpec) where
  nodes-wire_outputs :
      (step : String) (types outputs : Dict String) (b : Building)
      → (wire_outputs step types outputs b).1.nodes ≡ b.nodes
  unfolding wire_outputs
  nodes-wire_outputs step [] outputs b = refl
  nodes-wire_outputs step ((key, type) ∷ types) outputs b = nodes-wire_outputs step types _ _

  Among-more :
      (nodes : List OperationNode) (node : OperationNode) (s : String)
      → Among (step_ids nodes) s
      → Among (step_ids (nodes ++ node ∷ [])) s
  Among-more nodes node s h = rw (step_ids-append nodes (node ∷ []), mem-append) (or_left _ _ h)

  Among-new :
      (nodes : List OperationNode) (node : OperationNode)
      → Among (step_ids (nodes ++ node ∷ [])) node.step_id
  Among-new nodes node =
      rw (step_ids-append nodes (node ∷ []), mem-append)
        (or_right _ _ (mem-cons_self node.step_id []))

  add_operation-Looping :
      (k : ℕ) (op : String) (spec : OperationSpec) (b : Building)
      → has op operation_specs ≡ true
      → Looping k b
      → Looping (suc k) (add_operation parsed k op spec b)
  unfolding add_operation
  add_operation-Looping k op spec b registered l =
      let step = step_id_of k (without_dots op) in
      let added = add_operation parsed k op spec b in
      record {
        nodes_chained =
            snoc-Chained k (without_dots op) b.nodes _ l.nodes_chained refl
              (settled-Among _ b.nodes
                (wired-Among (step_ids b.nodes) step b spec.input_types ([], []) l.producers tt))
              registered;
        producers =
            produced-Among (step_ids added.nodes) step spec.output_types [] b (Among-new b.nodes _)
              (All-map b.ref_producer (λ e h. Among-more b.nodes _ e.1 h) l.producers);
      }

  pub known_spec :
      (op : String)
      → has op operation_specs ≡ true
      → (spec : OperationSpec) × (require_operation_spec op ≡ ok spec)
  unfolding require_operation_spec
  known_spec op registered =
      let (spec, found) = has-lookup op operation_specs registered in (spec, rw found refl)

  pub add_operations-Looping :
      (ops : List String) (k : ℕ) (b : Building)
      → All (λ op. has op operation_specs ≡ true) ops
      → Looping k b
      → (b' : Building) × (add_operations parsed k ops b ≡ ok b') × ((n : ℕ) × Looping n b')
  unfolding add_operations
  add_operations-Looping [] k b registered l = (b, refl, (k, l))
  add_operations-Looping (op ∷ ops) k b registered l =
      let (spec, found) = known_spec op registered.0 in
      let (b', returns, later) =
        add_operations-Looping ops (suc k) (add_operation parsed k op spec b) registered.1
          (add_operation-Looping k op spec b registered.0 l) in
      (b', then_ok (require_operation_spec op) _ found returns, later)

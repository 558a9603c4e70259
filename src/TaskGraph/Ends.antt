-- ===== src/TaskGraph/Ends.antt =====
-- The runs of the graph of packages/domain/services/graph/builder.py.
use gis_agent.Prelude.Result.{Result, ok, err, Result-cases}
use gis_agent.Prelude.{
  ℕ, suc, String, true, none, some, List, [], ◌∷◌, ◌++◌, mem, ◌≡◌, refl, inl, inr, Bool-cases,
  false, sym, ap, ◌∙◌, subst, str_eq, eq_iff, arith, length, All,
}
use gis_agent.Prelude.Dict.{lookup}
use gis_agent.PlanGuard.Graph.Sets.{mem-All}
use gis_agent.TaskGraph.{
  GraphState, has_status, route_after_step, success_next, conditional_edges, final_nodes, GraphRun,
  ended, behind, has_edge, run_from, run_graph, raised, after_node,
}

-- The nodes that stop a task before it succeeds.
abbrev stops : List String
stops = "waiting_clarification" ∷ "approval_required" ∷ "failed" ∷ []

-- A route stops at the same node whatever would be next, or goes on to what is next.
data Routed {A : Type 0} (s : GraphState A) : Type 0 where
  stopped :
      (stop : String)
      → mem stop stops ≡ true
      → ((next : String) → route_after_step s next ≡ stop)
      → Routed s
  free : ((next : String) → route_after_step s next ≡ next) → Routed s

routed : {A : Type 0} (s : GraphState A) → Routed s
unfolding route_after_step mem
routed s = elim (Bool-cases s.need_clarification) [
  | inl unclear ↦ stopped "waiting_clarification" refl (λ next. rw unclear refl)
  | inr clear ↦ elim (Bool-cases (has_status "approval_required" s.plan_status)) [
    | inl waits ↦ stopped "approval_required" refl (λ next. rw (clear, waits) refl)
    | inr approved ↦ elim (Bool-cases (has_status "failed" s.plan_status)) [
      | inl failed ↦ stopped "failed" refl (λ next. rw (clear, approved, failed) refl)
      | inr well ↦ free (λ next. rw (clear, approved, well) refl)
    ]
  ]
]

-- The edges of a node: the three that stop, and the next node.
record HasEdges (node next : String) : Type 0 where
  next_is : lookup node success_next ≡ some next
  goes : has_edge (lookup node conditional_edges) next ≡ true
  to_stops :
      (stop : String) → mem stop stops ≡ true → has_edge (lookup node conditional_edges) stop ≡ true

-- The nodes from one on, up to the success.
abbrev Chain : String → List String → Type 0
Chain node [] = HasEdges node "success"
Chain node (next ∷ nodes) = HasEdges node next × Chain next nodes

-- What makes a stop the end of a run.
record IsFinal (stop : String) : Type 0 where
  no_route : lookup stop success_next ≡ none
  has_end : mem stop final_nodes ≡ true
  no_success : str_eq stop "success" ≡ false

stop-IsFinal : (stop : String) → mem stop stops ≡ true → IsFinal stop
unfolding lookup success_next mem
stop-IsFinal stop there =
    mem-All IsFinal stops stop
      (
        record { no_route = refl; has_end = refl; no_success = refl },
        (
          record { no_route = refl; has_end = refl; no_success = refl },
          (record { no_route = refl; has_end = refl; no_success = refl }, tt),
        ),
      )
      there

-- The steps of a task, in their order.
abbrev pub steps : List String
steps =
    "parse" ∷ "plan" ∷ "normalize_aoi" ∷ "search_candidates" ∷ "recommend_dataset"
    ∷ "run_processing_pipeline" ∷ "generate_outputs" ∷ []

edges_of :
    (node next : String)
    → lookup node success_next ≡ some next
    → has_edge (lookup node conditional_edges) next ≡ true
    → All (λ stop. has_edge (lookup node conditional_edges) stop ≡ true) stops
    → HasEdges node next
edges_of node next is_next goes all_stops = record {
  next_is = is_next;
  goes = goes;
  to_stops =
      λ stop. mem-All (λ x. has_edge (lookup node conditional_edges) x ≡ true) stops stop all_stops;
}

steps-Chain : Chain "parse" (
    "plan" ∷ "normalize_aoi" ∷ "search_candidates" ∷ "recommend_dataset" ∷ "run_processing_pipeline"
    ∷ "generate_outputs" ∷ [])
unfolding lookup success_next conditional_edges has_edge mem
steps-Chain = (
  edges_of "parse" "plan" refl refl (refl, (refl, (refl, tt))),
  (
    edges_of "plan" "normalize_aoi" refl refl (refl, (refl, (refl, tt))),
    (
      edges_of "normalize_aoi" "search_candidates" refl refl (refl, (refl, (refl, tt))),
      (
        edges_of "search_candidates" "recommend_dataset" refl refl (refl, (refl, (refl, tt))),
        (
          edges_of "recommend_dataset" "run_processing_pipeline" refl refl
              (refl, (refl, (refl, tt))),
          (
            edges_of "run_processing_pipeline" "generate_outputs" refl refl
                (refl, (refl, (refl, tt))),
            edges_of "generate_outputs" "success" refl refl (refl, (refl, (refl, tt))),
          ),
        ),
      ),
    ),
  ),
)

-- The end of a run at its final node, by what that node returns.
abbrev pub at_end : {A E : Type 0} → List String → String → Result E (GraphState A) → GraphRun A E
at_end passed final (err e) = raised (passed ++ final ∷ []) e
at_end passed final (ok s) = ended (passed ++ final ∷ []) s

behind-at_end :
    {A E : Type 0} (node : String) (passed : List String) (final : String)
    (r : Result E (GraphState A))
    → behind node (at_end passed final r) ≡ at_end (node ∷ passed) final r
behind-at_end node passed final (err e) = refl
behind-at_end node passed final (ok s) = refl

module _ {A E : Type 0} (run : String → GraphState A → Result E (GraphState A)) where
  -- Nodes that return, each run on what the one before it leaves.
  pub data Passes : GraphState A → List String → GraphState A → Type 0 where
    none_yet : {s : GraphState A} → Passes s [] s
    one_more :
        {s next final : GraphState A} (node : String) {nodes : List String}
        → run node s ≡ ok next
        → Passes next nodes final
        → Passes s (node ∷ nodes) final

  -- A run that passes the first of the nodes, all of them if it succeeds, and then ends at the node
  -- that the state of the last of them is routed to, or at the first that raises.
  pub data EndsWell (s : GraphState A) (nodes : List String) (r : GraphRun A E) : Type 0 where
    at_final :
        (passed skipped : List String) (before : GraphState A) (final : String)
        → passed ++ skipped ≡ nodes
        → Passes s passed before
        → mem final final_nodes ≡ true
        → route_after_step before "success" ≡ final
        → (final ≡ "success" → skipped ≡ [])
        → r ≡ at_end passed final (run final before)
        → EndsWell s nodes r
    at_step :
        (passed skipped : List String) (before : GraphState A) (node : String) (e : E)
        → passed ++ node ∷ skipped ≡ nodes
        → Passes s passed before
        → run node before ≡ err e
        → r ≡ raised (passed ++ node ∷ []) e
        → EndsWell s nodes r

  -- A run that comes to a node that has no route.
  ends_at :
      (fuel : ℕ) (node : String) (s : GraphState A) (r : Result E (GraphState A))
      → lookup node success_next ≡ none
      → mem node final_nodes ≡ true
      → after_node run (run_from run fuel) node r ≡ at_end [] node r
  ends_at fuel node s (err e) last is_final = refl
  ends_at fuel node s (ok after) last is_final = rw (last, is_final) refl

  -- A run that goes on along an edge.
  goes_on :
      (fuel : ℕ) (node next target : String) (s after : GraphState A)
      → run node s ≡ ok after
      → lookup node success_next ≡ some next
      → route_after_step after next ≡ target
      → has_edge (lookup node conditional_edges) target ≡ true
      → run_from run (suc fuel) node s ≡ behind node (run_from run fuel target after)
  unfolding run_from
  goes_on fuel node next target s after returned is_next routes edge =
      rw (returned, is_next, routes, edge) refl

  -- A run whose node raises.
  raises_here :
      (fuel : ℕ) (node : String) (nodes : List String) (s : GraphState A) (e : E)
      → run node s ≡ err e
      → EndsWell s (node ∷ nodes) (run_from run (suc fuel) node s)
  unfolding run_from
  raises_here fuel node nodes s e failed =
      at_step [] nodes s node e refl none_yet failed (rw failed refl)

  -- A run that comes from a node to a final one.
  finishes :
      (fuel : ℕ) (node next final : String) (nodes : List String) (s after : GraphState A)
      → run node s ≡ ok after
      → lookup node success_next ≡ some next
      → route_after_step after next ≡ final
      → route_after_step after "success" ≡ final
      → has_edge (lookup node conditional_edges) final ≡ true
      → lookup final success_next ≡ none
      → mem final final_nodes ≡ true
      → (final ≡ "success" → nodes ≡ [])
      → EndsWell s (node ∷ nodes) (run_from run (suc (suc fuel)) node s)
  unfolding run_from
  finishes fuel node next final nodes s after returned is_next routes decided edge last is_final
        all_passed =
      at_final (node ∷ []) nodes after final refl (one_more node returned none_yet) is_final decided
        all_passed
        (goes_on (suc fuel) node next final s after returned is_next routes edge
          ∙ ap (behind node) (ends_at fuel final after (run final after) last is_final)
          ∙ behind-at_end node [] final (run final after))

  EndsWell-behind :
      (node : String) (nodes : List String) (s after : GraphState A) (r : GraphRun A E)
      → run node s ≡ ok after
      → EndsWell after nodes r
      → EndsWell s (node ∷ nodes) (behind node r)
  EndsWell-behind node nodes s after r returned
        (at_final passed skipped before final split passes is_final decided all_passed ends) =
      at_final (node ∷ passed) skipped before final (ap (λ xs. node ∷ xs) split)
        (one_more node returned passes) is_final decided all_passed
        (ap (behind node) ends ∙ behind-at_end node passed final (run final before))
  EndsWell-behind node nodes s after r returned
        (at_step passed skipped before at e split passes failed ends) =
      at_step (node ∷ passed) skipped before at e (ap (λ xs. node ∷ xs) split)
        (one_more node returned passes) failed (ap (behind node) ends)

  Chain-EndsWell :
      (nodes : List String) (node : String) (s : GraphState A)
      → Chain node nodes
      → EndsWell s (node ∷ nodes) (run_from run (suc (suc (length nodes))) node s)
  unfolding lookup success_next mem
  Chain-EndsWell [] node s edges = elim (Result-cases (run node s)) [
    | inl (e, failed) ↦ raises_here 1 node [] s e failed
    | inr (after, returned) ↦ elim (routed after) [
      | stopped stop there routes ↦
          let f = stop-IsFinal stop there in
          finishes 0 node "success" stop [] s after returned edges.next_is (routes "success")
            (routes "success") (edges.to_stops stop there) f.no_route f.has_end (λ e. refl)
      | free routes ↦
          finishes 0 node "success" "success" [] s after returned edges.next_is (routes "success")
            (routes "success") edges.goes refl refl (λ e. refl)
    ]
  ]
  Chain-EndsWell (next ∷ nodes) node s (edges, c) = elim (Result-cases (run node s)) [
    | inl (e, failed) ↦ raises_here (suc (suc (length nodes))) node (next ∷ nodes) s e failed
    | inr (after, returned) ↦ elim (routed after) [
      | stopped stop there routes ↦
          let f = stop-IsFinal stop there in
          finishes (suc (length nodes)) node next stop (next ∷ nodes) s after returned edges.next_is
            (routes next) (routes "success") (edges.to_stops stop there) f.no_route f.has_end
            (λ e. absurd (ground (arith, f.no_success, eq_iff stop "success", e)))
      | free routes ↦
          subst (EndsWell s (node ∷ next ∷ nodes))
            (sym (
              goes_on (suc (suc (length nodes))) node next next s after returned edges.next_is
                (routes next) edges.goes))
            (EndsWell-behind node (next ∷ nodes) s after _ returned
              (Chain-EndsWell nodes next after c))
    ]
  ]

  -- Whatever the nodes of a task return or raise, a run of the graph ends: it passes the seven steps
  -- in their order, from the first one on and each on what the one before leaves, up to the first
  -- that raises, whose exception ends the run, or to the final node that the state behind the last of
  -- them is routed to. It comes to the success only when all seven have returned.
  pub run_graph-EndsWell : (s : GraphState A) → EndsWell s steps (run_graph run s)
  unfolding run_graph
  run_graph-EndsWell s = Chain-EndsWell _ "parse" s steps-Chain

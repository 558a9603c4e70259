-- ===== src/TaskGraph.antt =====
-- packages/domain/services/graph/state.py, routes.py and builder.py: the graph of the nodes of a
-- task. What a node does is an argument; a compiled graph runs the node it is at, takes over what
-- the node returns, and goes on to the node that the route names, until its end or an exception.
pub mod Ends
use gis_agent.Prelude.Result.{Result, ok, err}
use gis_agent.Prelude.{
  ℕ, zero, suc, String, Bool, true, false, Option, none, some, List, [], ◌∷◌, mem, str_eq,
  if◌then◌else◌,
}
use gis_agent.Prelude.Dict.{Dict, lookup}

-- `GISAgentState`, by the keys that the routes read, and with all the others as `rest`; a key that
-- is missing is `false` or `none`.
pub record GraphState (A : Type 0) : Type 0 where
  pub need_clarification : Bool
  pub plan_status : Option String
  pub rest : A

abbrev pub has_status : String → Option String → Bool
has_status status none = false
has_status status (some other) = str_eq other status

-- `_route_after_step`
unfoldable pub route_after_step : {A : Type 0} → GraphState A → String → String
route_after_step s success_next =
    if s.need_clarification
    then "waiting_clarification"
    else if has_status "approval_required" s.plan_status
    then "approval_required"
    else if has_status "failed" s.plan_status
    then "failed"
    else success_next

-- The route functions: the node behind each node, where nothing stops the task.
unfoldable pub success_next : Dict String
success_next =
    ("parse", "plan")
    ∷ ("plan", "normalize_aoi")
    ∷ ("normalize_aoi", "search_candidates")
    ∷ ("search_candidates", "recommend_dataset")
    ∷ ("recommend_dataset", "run_processing_pipeline")
    ∷ ("run_processing_pipeline", "generate_outputs")
    ∷ ("generate_outputs", "success")
    ∷ []

-- The targets of the conditional edges of `build_task_graph`.
unfoldable pub conditional_edges : Dict (List String)
conditional_edges =
    ("parse", "approval_required" ∷ "failed" ∷ "waiting_clarification" ∷ "plan" ∷ [])
    ∷ ("plan", "approval_required" ∷ "waiting_clarification" ∷ "failed" ∷ "normalize_aoi" ∷ [])
    ∷ (
      "normalize_aoi",
      "approval_required" ∷ "waiting_clarification" ∷ "failed" ∷ "search_candidates" ∷ [],
    )
    ∷ (
      "search_candidates",
      "approval_required" ∷ "waiting_clarification" ∷ "failed" ∷ "recommend_dataset" ∷ [],
    )
    ∷ (
      "recommend_dataset",
      "approval_required" ∷ "waiting_clarification" ∷ "failed" ∷ "run_processing_pipeline" ∷ [],
    )
    ∷ (
      "run_processing_pipeline",
      "approval_required" ∷ "waiting_clarification" ∷ "failed" ∷ "generate_outputs" ∷ [],
    )
    ∷ (
      "generate_outputs",
      "approval_required" ∷ "waiting_clarification" ∷ "failed" ∷ "success" ∷ [],
    )
    ∷ []

-- The nodes with an edge to the end.
abbrev pub final_nodes : List String
final_nodes = "success" ∷ "waiting_clarification" ∷ "approval_required" ∷ "failed" ∷ []

-- How a run of the graph ends: with the nodes it has run and the state it leaves, with the exception
-- of the last of the nodes that it has run, or at a target that no edge names. `out_of_fuel` is the
-- model's.
pub data GraphRun (A E : Type 0) : Type 0 where
  out_of_fuel : GraphRun A E
  no_edge : String → GraphRun A E
  raised : List String → E → GraphRun A E
  ended : List String → GraphState A → GraphRun A E

abbrev pub behind : {A E : Type 0} → String → GraphRun A E → GraphRun A E
behind node out_of_fuel = out_of_fuel
behind node (no_edge target) = no_edge target
behind node (raised nodes e) = raised (node ∷ nodes) e
behind node (ended nodes s) = ended (node ∷ nodes) s

unfoldable pub has_edge : Option (List String) → String → Bool
has_edge none target = false
has_edge (some targets) target = mem target targets

module _ {A E : Type 0} (run : String → GraphState A → Result E (GraphState A)) where
  -- The target of a route, where the node has an edge to it.
  abbrev pub go_to :
      Bool → (String → GraphState A → GraphRun A E) → String → String → GraphState A → GraphRun A E
  go_to true go_on node target s = behind node (go_on target s)
  go_to false go_on node target s = no_edge target

  abbrev pub end_at : Bool → String → GraphState A → GraphRun A E
  end_at true node s = ended (node ∷ []) s
  end_at false node s = no_edge node

  -- What follows a node: the end, or the target of its route.
  abbrev pub follow_to :
      (String → GraphState A → GraphRun A E) → String → Option String → GraphState A → GraphRun A E
  follow_to go_on node none s = end_at (mem node final_nodes) node s
  follow_to go_on node (some next) s =
      go_to (has_edge (lookup node conditional_edges) (route_after_step s next)) go_on node
        (route_after_step s next) s

  -- What follows what a node returns; `invoke` raises the exception of a node.
  abbrev pub after_node :
      (String → GraphState A → GraphRun A E) → String → Result E (GraphState A) → GraphRun A E
  after_node go_on node (err e) = raised (node ∷ []) e
  after_node go_on node (ok s) = follow_to go_on node (lookup node success_next) s

  -- The nodes from one node on; the fuel bounds how many.
  unfoldable pub run_from : ℕ → String → GraphState A → GraphRun A E
  run_from zero node s = out_of_fuel
  run_from (suc fuel) node s = after_node (run_from fuel) node (run node s)

  -- A run of the compiled graph from its entry point.
  unfoldable pub run_graph : GraphState A → GraphRun A E
  unfolding run_from
  run_graph s = run_from 8 "parse" s

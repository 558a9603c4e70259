-- ===== src/Tests/Graphs.antt =====
-- A run of the graph of a task whose plan waits for an approval.
use gis_agent.Prelude.Result.{Result, ok, err}
use gis_agent.Prelude.{
  String, false, none, some, ℕ, ◌+◌, [], ◌∷◌, str_eq, mem, if◌then◌else◌, ◌≡◌, refl,
}
use gis_agent.Prelude.Dict.{lookup}
use gis_agent.TaskGraph.{
  GraphState, ended, run_graph, success_next, has_edge, conditional_edges, route_after_step, raised,
}
use gis_agent.TaskGraph.Ends.{EndsWell, steps, run_graph-EndsWell}

-- The number of the nodes that have run.
abbrev fresh : GraphState ℕ
fresh = record { need_clarification = false; plan_status = none; rest = 0 }

abbrev count_node : String → GraphState ℕ → Result String (GraphState ℕ)
count_node node s =
    if str_eq node "plan"
    then ok (record s { plan_status = some "approval_required"; rest = s.rest + 1 })
    else ok (record s { rest = s.rest + 1 })

abbrev invalid_spec : String → GraphState ℕ → Result String (GraphState ℕ)
invalid_spec node s = err "ValidationError"

waits_behind_plan :
    run_graph count_node fresh
    ≡ ended
        ("parse" ∷ "plan" ∷ "approval_required" ∷ [])
        (record { need_clarification = false; plan_status = some "approval_required"; rest = 3 })
unfolding run_graph lookup success_next has_edge conditional_edges mem route_after_step
waits_behind_plan = refl

raises_at_parse : run_graph invalid_spec fresh ≡ raised ("parse" ∷ []) "ValidationError"
unfolding run_graph
raises_at_parse = refl

run_graph-EndsWell_example : EndsWell count_node fresh steps (run_graph count_node fresh)
run_graph-EndsWell_example = run_graph-EndsWell count_node fresh

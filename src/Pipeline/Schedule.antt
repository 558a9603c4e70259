-- ===== src/Pipeline/Schedule.antt =====
-- The loop of packages/domain/services/processing_pipeline.py that `run_processing_pipeline` and
-- `preflight_processing_pipeline_inputs` share. What is done with a node is an argument.
use gis_agent.Prelude.{
  ℕ, zero, suc, String, Bool, true, false, Option, none, some, List, [], ◌∷◌, length, mem, all,
  str_eq, if◌then◌else◌, is_empty,
}
use gis_agent.Prelude.Result.{Result, ok, err, ◌>>=◌}
use gis_agent.Plan.{OperationNode, step_ids}

-- `pending_nodes`, `completed_steps` and `progressed`, with all that the steps work on.
pub record Loop (S : Type 0) : Type 0 where
  pub pending : List OperationNode
  pub completed : List String
  pub progressed : Bool
  pub state : S

-- How a run ends: with an exception of a step, with the error that names the steps whose
-- dependencies are unresolved, or with no step left.
pub data Ending (S E : Type 0) : Type 0 where
  empty_plan : Ending S E
  raised : E → Ending S E
  unresolved : List String → S → Ending S E
  completed : S → Ending S E

-- `not any(dep not in completed_steps for dep in depends_on)`
abbrev pub is_ready : List String → OperationNode → Bool
is_ready done node = all (λ dep. mem dep done) node.depends_on

-- `pending_nodes.remove(node)`. The schema keeps the step ids of a plan distinct, so that a node is
-- told by its step id.
unfoldable pub remove : String → List OperationNode → List OperationNode
remove k [] = []
remove k (node ∷ nodes) =
    let rest = remove k nodes in if str_eq node.step_id k then nodes else node ∷ rest

module _ {S E : Type 0} (run : OperationNode → S → Result E S) where
  -- The state behind a step that has returned.
  unfoldable pub settle : OperationNode → Loop S → S → Loop S
  unfolding remove
  settle node loop state = record {
    pending = remove node.step_id loop.pending;
    completed = node.step_id ∷ loop.completed;
    progressed = true;
    state = state;
  }

  -- The body of the `for` loop.
  unfoldable pub visit : OperationNode → Loop S → Result E (Loop S)
  unfolding settle
  visit node loop = elim (is_ready loop.completed node) [
    | false ↦ ok loop
    | true ↦ do state ← run node loop.state; ok (settle node loop state)
  ]

  -- `for node in list(pending_nodes)`
  unfoldable pub sweep : List OperationNode → Loop S → Result E (Loop S)
  unfolding visit
  sweep [] loop = ok loop
  sweep (node ∷ nodes) loop = visit node loop >>= sweep nodes

  -- What follows a sweep: the next round, or the error where nothing has progressed.
  unfoldable pub after_sweep :
      (Loop S → Option (Ending S E)) → Result E (Loop S) → Option (Ending S E)
  after_sweep again (err e) = some (raised e)
  after_sweep again (ok loop) = elim loop.progressed [
    | true ↦ again loop
    | false ↦ some (unresolved (step_ids loop.pending) loop.state)
  ]

  -- `while pending_nodes`; `none` is the fuel's.
  unfoldable pub rounds : ℕ → Loop S → Option (Ending S E)
  unfolding sweep after_sweep
  rounds zero loop = none
  rounds (suc fuel) loop = elim (is_empty loop.pending) [
    | true ↦ some (completed loop.state)
    | false ↦ after_sweep (rounds fuel) (sweep loop.pending (record loop { progressed = false }))
  ]

  -- The whole loop from a state.
  unfoldable pub run_nodes : List OperationNode → S → Option (Ending S E)
  unfolding rounds
  run_nodes nodes state = elim (is_empty nodes) [
    | true ↦ some empty_plan
    | false ↦
        rounds (suc (length nodes))
          (record { pending = nodes; completed = []; progressed = false; state = state })
  ]

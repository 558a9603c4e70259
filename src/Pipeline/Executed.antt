-- ===== src/Pipeline/Executed.antt =====
-- What a run of the loop of packages/domain/services/processing_pipeline.py does, told without its
-- bookkeeping: nodes are executed one after the other, each when its dependencies are done.
use mathlib.Core.List.{Memᴰ, Permᴰ}
use gis_agent.Prelude.{true, false, List, [], ◌∷◌, ◌++◌, mem, All, is_empty, ◌≡◌}
use gis_agent.Prelude.Result.{Result, ok, err}
use gis_agent.Plan.{OperationNode, step_ids}
use gis_agent.Pipeline.Schedule.{Ending, raised, unresolved, completed, is_ready}

module _ {S E : Type 0} (run : OperationNode → S → Result E S) (start : S) where
  -- The nodes that are executed, the latest first, and the state they leave.
  pub data Executed : List OperationNode → S → Type 0 where
    nothing_yet : Executed [] start
    executed :
        {done : List OperationNode} {before after : S} (node : OperationNode)
        → Executed done before
        → All (λ dep. mem dep (step_ids done) ≡ true) node.depends_on
        → run node before ≡ ok after
        → Executed (node ∷ done) after

  -- How a run over `nodes` may end: with all of them executed, with the exception of the first that
  -- fails, or with some left that all wait for what is not done.
  pub data RunsTo (nodes : List OperationNode) : Ending S E → Type 0 where
    all_executed :
        (done : List OperationNode) {final : S}
        → Permᴰ done nodes
        → Executed done final
        → RunsTo nodes (completed final)
    failed_at :
        (done left : List OperationNode) (node : OperationNode) {before : S} {e : E}
        → Permᴰ (done ++ node ∷ left) nodes
        → Executed done before
        → All (λ dep. mem dep (step_ids done) ≡ true) node.depends_on
        → run node before ≡ err e
        → RunsTo nodes (raised e)
    all_wait :
        (done left : List OperationNode) {final : S}
        → is_empty left ≡ false
        → Permᴰ (done ++ left) nodes
        → Executed done final
        → ((n : OperationNode) → Memᴰ n left → is_ready (step_ids done) n ≡ false)
        → RunsTo nodes (unresolved (step_ids left) final)

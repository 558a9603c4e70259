-- ===== src/Pipeline/Log.antt =====
-- The events of `run_processing_pipeline` of packages/domain/services/processing_pipeline.py.
use mathlib.Core.List.{Permᴰ, append_assoc}
use gis_agent.Prelude.{
  String, true, false, some, List, [], ◌∷◌, ◌++◌, distinct, is_empty, ◌≡◌, refl, sym, ap, ◌∙◌,
  subst,
}
use gis_agent.Prelude.Result.{Result, ok, err, same_value}
use gis_agent.Plan.{OperationNode, step_ids}
use gis_agent.Pipeline.Schedule.{Ending, completed, raised, unresolved}
use gis_agent.Pipeline.Executed.{
  Executed, nothing_yet, executed, RunsTo, all_executed, failed_at, all_wait,
}
use gis_agent.Pipeline.Rounds.{run_nodes-RunsTo}
use gis_agent.Pipeline.Files.{Files}
use gis_agent.Pipeline.Context.{Context, StepError, start_context}
use gis_agent.Pipeline.Export.{Writer}
use gis_agent.Pipeline.Run.{
  Operator, PipelineEvent, started_event, failed_event, completed_event, Running, Failure, dispatch,
  observe, run_node, run_pipeline,
}

-- The events of nodes that are executed one after the other, the latest first.
abbrev pub history : List OperationNode → List PipelineEvent
history [] = []
history (node ∷ done) = history done ++ started_event node ∷ completed_event node ∷ []

module _ (operate : Operator) (write : Writer) (working_dir : String) (files : Files) where
  abbrev pub at_start : Running
  at_start = record { log = []; context = start_context files }

  -- What the `try` blocks of the nodes do with the context, without the events.
  abbrev pub Worked : List OperationNode → Context → Type 0
  Worked done c = Executed (dispatch operate write working_dir) (start_context files) done c

  at_context :
      (c : Context) (after : Running) {log : List PipelineEvent}
      → record { log = log; context = c } ≡ after
      → ◌≡◌ {A = Result StepError Context} (ok c) (ok after.context)
  at_context c after same = cc

  observe-ok :
      (node : OperationNode) (log : List PipelineEvent) (r : Result StepError Context)
      (after : Running)
      → observe operate write working_dir node log r ≡ ok after
      → (r ≡ ok after.context) × (after.log ≡ log ++ completed_event node ∷ [])
  unfolding observe
  observe-ok node log (err e) after h = cc
  observe-ok node log (ok c) after h =
      (at_context c after (same_value h), ap (λ (r : Running). r.log) (sym (same_value h)))

  observe-err :
      (node : OperationNode) (log : List PipelineEvent) (r : Result StepError Context) (f : Failure)
      → observe operate write working_dir node log r ≡ err f
      → (r ≡ err f.exception) × (f.log ≡ log ++ failed_event node f.exception ∷ [])
  unfolding observe
  observe-err node log (err e) f h =
      let same : record { log = log ++ failed_event node e ∷ []; exception = e } ≡ f = cc in
      subst
        (λ (g : Failure).
          (◌≡◌ {A = Result StepError Context} (err e) (err g.exception))
          × (g.log ≡ log ++ failed_event node g.exception ∷ []))
        same (refl, refl)
  observe-err node log (ok c) f h = cc

  Executed-Worked :
      {done : List OperationNode} {final : Running}
      → Executed (run_node operate write working_dir) at_start done final
      → Worked done final.context × (final.log ≡ history done)
  unfolding run_node
  Executed-Worked nothing_yet = (nothing_yet, refl)
  Executed-Worked {final = final} (executed {done} {before} node before_it deps returned) =
      let (worked, logged) = Executed-Worked before_it in
      let (did, log) =
        observe-ok node (before.log ++ started_event node ∷ [])
          (dispatch operate write working_dir node before.context) final returned in
      (
        executed node worked deps did,
        log
            ∙ append_assoc before.log (started_event node ∷ []) (completed_event node ∷ [])
            ∙ ap (λ (l : List PipelineEvent). l ++ started_event node ∷ completed_event node ∷ [])
                logged,
      )

  -- The log of a run by how it ends: what has worked, and in a failure the step that fails as well.
  pub data Logged (nodes : List OperationNode) : Ending Running Failure → Type 0 where
    all_logged :
        (done : List OperationNode) {final : Running}
        → Permᴰ done nodes
        → Worked done final.context
        → final.log ≡ history done
        → Logged nodes (completed final)
    failure_logged :
        (done left : List OperationNode) (node : OperationNode) {before : Context} {f : Failure}
        → Permᴰ (done ++ node ∷ left) nodes
        → Worked done before
        → dispatch operate write working_dir node before ≡ err f.exception
        → f.log ≡ history done ++ started_event node ∷ failed_event node f.exception ∷ []
        → Logged nodes (raised f)
    stuck_logged :
        (done left : List OperationNode) {final : Running}
        → Permᴰ (done ++ left) nodes
        → Worked done final.context
        → final.log ≡ history done
        → Logged nodes (unresolved (step_ids left) final)

  to_Logged :
      (nodes : List OperationNode) (e : Ending Running Failure)
      → RunsTo (run_node operate write working_dir) at_start nodes e
      → Logged nodes e
  unfolding run_node
  to_Logged nodes e (all_executed done split reached) =
      let (worked, logged) = Executed-Worked reached in all_logged done split worked logged
  to_Logged nodes _ (failed_at done left node {before} {e = f} split reached deps failed) =
      let (worked, logged) = Executed-Worked reached in
      let (did, log) =
        observe-err node (before.log ++ started_event node ∷ [])
          (dispatch operate write working_dir node before.context) f failed in
      failure_logged done left node split worked did (
        log
        ∙ append_assoc before.log (started_event node ∷ []) (failed_event node f.exception ∷ [])
        ∙ ap
            (λ (l : List PipelineEvent).
              l ++ started_event node ∷ failed_event node f.exception ∷ [])
            logged)
  to_Logged nodes e (all_wait done left some_left split reached waits) =
      let (worked, logged) = Executed-Worked reached in stuck_logged done left split worked logged

  -- On nodes with distinct step ids a run of the pipeline ends. The nodes that have run have each
  -- done the work of its operation on what the ones before have left, and the events are, for each of
  -- them and in that order, that it is started and that it is completed. Where a step fails, its work
  -- raises the exception of the run, and the last two events are that it is started and that it
  -- failed, with this exception.
  pub run_pipeline-Logged :
      (nodes : List OperationNode)
      → distinct (step_ids nodes) ≡ true
      → is_empty nodes ≡ false
      → (e : Ending Running Failure) × (run_pipeline operate write working_dir nodes files ≡ some e)
        × Logged nodes e
  unfolding run_pipeline
  run_pipeline-Logged nodes unique some_there =
      let (e, ends, runs) =
        run_nodes-RunsTo (run_node operate write working_dir) at_start nodes unique some_there in
      (e, ends, to_Logged nodes e runs)

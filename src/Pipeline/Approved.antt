-- ===== src/Pipeline/Approved.antt =====
-- The pipeline of packages/domain/services/processing_pipeline.py over the plans that
-- `approve_task_plan` of packages/domain/services/task_lifecycle.py submits.
use gis_agent.Prelude.{
  ℕ, String, true, ◌&&◌, leb, all, Option, none, some, List, distinct, ◌≡◌, refl, sym, ap, subst,
  and_parts,
}
use gis_agent.Prelude.Result.{Result, ok}
use gis_agent.Plan.{OperationNode, OperationPlan, step_ids, node_fits_schema, plan_fits_schema}
use gis_agent.Task.{Store}
use gis_agent.Lifecycle.{Submitted, approve_task_plan}
use gis_agent.Lifecycle.Approval.{Approved, approve-Approved}
use gis_agent.Pipeline.Schedule.{Ending, completed, raised, unresolved, empty_plan}
use gis_agent.Pipeline.Files.{Files}
use gis_agent.Pipeline.Sources.{SourceError}
use gis_agent.Pipeline.Preflight.{Inputs, preflight_inputs, exception_text, preflight_of}
use gis_agent.Pipeline.Order.{RunsThrough, runs-through}
use gis_agent.Pipeline.Ready.{Known, preflight-Known}

fits-distinct :
    (plan : OperationPlan) → plan_fits_schema plan ≡ true → distinct (step_ids plan.nodes) ≡ true
unfolding plan_fits_schema
fits-distinct plan fits =
    (and_parts (leb 1 plan.version && all node_fits_schema plan.nodes)
      (distinct (step_ids plan.nodes)) fits).1

no_exception :
    (message : Ending Inputs SourceError → String) (o : Option (Ending Inputs SourceError))
    → exception_text message o ≡ none
    → (final : Inputs) × (o ≡ some (completed final))
no_exception message none h = cc
no_exception message (some (completed final)) h = (final, refl)
no_exception message (some empty_plan) h = cc
no_exception message (some (raised e)) h = cc
no_exception message (some (unresolved ids inputs)) h = cc

-- The plan that an approval submits is ready to run: the preflight has found a file for every input
-- node and written none, and a run of the plan, whatever its steps do, is never stuck.
pub record IsRunnable (files : Files) (nodes : List OperationNode) : Type 1 where
  pub inputs : Inputs
  pub known : Known files nodes inputs
  pub runs :
      {S E : Type 0} (run : OperationNode → S → Result E S) (start : S)
      → RunsThrough run start nodes

module _ (message : Ending Inputs SourceError → String) (working_dir : String → String)
    (files : Files) (execution_mode : String) where
  -- If an approval returns, with the preflight of the pipeline on the files there are, then for the
  -- plan that it submits every input node has a file that is there, no file has been written, and a
  -- run of the plan executes every node once and behind its dependencies or ends with the exception
  -- of the first step that fails.
  pub Approved-IsRunnable :
      (s : Store) (task_id : String) (version : ℕ) (r : Submitted)
      → approve_task_plan (preflight_of message working_dir files) execution_mode s task_id version
        ≡ ok r
      → (a : Approved (preflight_of message working_dir files) execution_mode s task_id version r)
        × IsRunnable files a.plan.nodes
  Approved-IsRunnable s task_id version r returned =
      let a =
        approve-Approved (preflight_of message working_dir files) execution_mode s task_id version r
          returned in
      let nodes = ap (λ (p : OperationPlan). p.nodes) a.accepted.marked in
      let unique = fits-distinct a.stored a.fits in
      let (final, passes) =
        no_exception message (preflight_inputs (working_dir s.task.id) a.plan.nodes files)
          a.inputs_pass in
      (
        a,
        record {
          inputs = final;
          known =
              preflight-Known (working_dir s.task.id) files a.plan.nodes final
                (subst (λ ns. distinct (step_ids ns) ≡ true) (sym nodes) unique) passes;
          runs = λ run start.
              subst (RunsThrough run start) (sym nodes)
                (runs-through run start a.stored a.plan a.accepted unique);
        },
      )

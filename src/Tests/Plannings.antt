-- ===== src/Tests/Plannings.antt =====
-- A plan from the second answer of the language model, after an answer without the required steps.
use gis_agent.Prelude.{
  String, true, false, Option, none, some, ℕ, zero, suc, List, [], ◌∷◌, ◌≡◌, refl, dedup_from,
}
use gis_agent.Prelude.Result.{Result, ok}
use gis_agent.Prelude.Dict.{lookup, has, insert}
use gis_agent.Builder.Request.{ParsedTaskSpec}
use gis_agent.ToolRegistry.{definitions_by_name}
use gis_agent.Planner.Steps.{LlmPlanStep}
use gis_agent.Planner.{PlannerSettings, LlmTaskPlan, build_task_plan}
use gis_agent.Planner.Sound.{plan_step_names}
use gis_agent.Planner.Planned.{IsPlanned, build_task_plan-IsPlanned}

abbrev settings : PlannerSettings
settings = record {
  local_files_only_mode = true;
  llm_planner_enabled = true;
  llm_planner_legacy_fallback = false;
  llm_planner_schema_retries = 1;
}

abbrev workflow : ParsedTaskSpec
workflow = record {
  analysis_type = "WORKFLOW";
  operation_params = [];
  preferred_output = [];
  requested_dataset = none;
  need_confirmation = false;
  missing_fields = [];
}

abbrev llm_step_named : String → List String → LlmPlanStep
llm_step_named step_name depends_on = record {
  step_name = step_name;
  title = "";
  purpose = "from the model";
  reasoning = none;
  depends_on = depends_on;
}

abbrev answer_of : List LlmPlanStep → LlmTaskPlan
answer_of steps = record {
  version = "";
  mode = "llm_plan_execute_gis_workspace";
  missing_fields = " time_range " ∷ "" ∷ "time_range" ∷ [];
  steps = steps;
  operation_plan_nodes = [];
}

abbrev chat : ℕ → Result String (Option LlmTaskPlan)
chat zero = ok (some (answer_of (llm_step_named "plan_task" [] ∷ [])))
chat (suc attempt) = ok (
    some (
      answer_of (
        llm_step_named "generate_outputs" ("generate_outputs" ∷ "search_candidates" ∷ [])
        ∷ llm_step_named "plan_task" []
        ∷ llm_step_named "run_processing_pipeline" ("plan_task" ∷ [])
        ∷ [])))

takes_second_answer :
    let plan = build_task_plan settings workflow chat in
    (plan_step_names plan.steps ≡ "plan_task" ∷ "run_processing_pipeline" ∷ "generate_outputs" ∷ [])
    × (plan.status ≡ "needs_clarification")
    × (plan.missing_fields ≡ "time_range" ∷ [])
    × (plan.version ≡ "agent-v2")
unfolding build_task_plan lookup has insert definitions_by_name dedup_from
takes_second_answer = (refl, refl, refl, refl)

build_task_plan-IsPlanned_example :
    IsPlanned settings workflow (build_task_plan settings workflow chat)
build_task_plan-IsPlanned_example = build_task_plan-IsPlanned settings workflow chat

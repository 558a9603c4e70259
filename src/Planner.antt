-- ===== src/Planner.antt =====
-- packages/domain/services/planner.py: the plan of the steps of a task, and the answers of the
-- language model that it is made from. The answers are an argument; the texts of the objective, of
-- the summary and of the errors are left out.
pub mod Steps
pub mod Sound
pub mod Planned
use gis_agent.Prelude.{
  ℕ, zero, suc, ◌+◌, String, Bool, true, false, not, ◌&&◌, ◌||◌, Option, none, some, List, [], ◌∷◌,
  ◌++◌, keep, mem, dedup, str_eq, is_empty, if◌then◌else◌,
}
use gis_agent.Prelude.Result.{Result, ok, err, guard, ◌>>=◌, ◌>>◌}
use gis_agent.Prelude.Dict.{Dict, lookup}
use gis_agent.Prelude.Text.{strip, non_empty}
use gis_agent.Value.{Value, shows_text}
use gis_agent.Plan.{OperationNode, OperationPlan, draft, plan_fits_schema}
use gis_agent.PlanGuard.Errors.{GuardError}
use gis_agent.PlanGuard.Chain.{Outcome, out_of_fuel, finished, validate_operation_plan}
use gis_agent.Builder.Request.{ParsedTaskSpec}
use gis_agent.ToolRegistry.{tool_step_sequence}
use gis_agent.Planner.Steps.{
  TaskPlanStep, LlmPlanStep, PlannerError, schema_error, invalid_nodes, guard_out_of_fuel, text_or,
  required_step_sequence, build_steps_legacy, normalize_llm_steps,
}

-- The settings that the planner reads.
pub record PlannerSettings : Type 0 where
  pub local_files_only_mode : Bool
  pub llm_planner_enabled : Bool
  pub llm_planner_legacy_fallback : Bool
  pub llm_planner_schema_retries : ℕ

pub record TaskPlan : Type 0 where
  pub version : String
  pub mode : String
  pub status : String
  pub missing_fields : List String
  pub steps : List TaskPlanStep
  pub operation_plan_nodes : List OperationNode
  pub error_code : Option String

pub record LlmTaskPlan : Type 0 where
  pub version : String
  pub mode : String
  pub missing_fields : List String
  pub steps : List LlmPlanStep
  pub operation_plan_nodes : List OperationNode

abbrev pub status_if : Bool → String
status_if true = "needs_clarification"
status_if false = "ready"

-- `str(operation_params.get(key) or "").strip()` is not empty.
abbrev pub gives_text : Option Value → Bool
unfolding shows_text
gives_text none = false
gives_text (some value) = shows_text value

abbrev clip_upload_placeholders : List String
clip_upload_placeholders =
    "uploaded_aoi_id" ∷ "source_raster_upload_id" ∷ "clip_vector_upload_id" ∷ "input_raster_file_id"
    ∷ "input_vector_file_id" ∷ []

-- A missing field that a clip really needs.
unfoldable pub is_missing : Dict Value → String → Bool
unfolding mem lookup
is_missing params field =
    not (mem field clip_upload_placeholders)
    && (not (
          mem field ("source_path" ∷ "operation_params.source_path" ∷ [])
          && gives_text (lookup "source_path" params))
        && (not (
              mem field ("clip_path" ∷ "operation_params.clip_path" ∷ [])
              && gives_text (lookup "clip_path" params))
            && not (
                mem field ("output_path" ∷ "operation_params.output_path" ∷ [])
                && gives_text (lookup "output_path" params))))

abbrev pub stripped : List String → List String
unfolding strip
stripped [] = []
stripped (field ∷ fields) =
    let rest = stripped fields in if non_empty (strip field) then strip field ∷ rest else rest

-- `_sanitize_missing_fields`
unfoldable pub sanitize_missing_fields : ParsedTaskSpec → List String → List String
unfolding is_missing
sanitize_missing_fields parsed missing_fields =
    let deduped = dedup (stripped missing_fields) in
    if str_eq parsed.analysis_type "CLIP"
    then keep (is_missing parsed.operation_params) deduped
    else deduped

-- The nodes of the plan that the guard returns.
abbrev pub guarded_nodes : Outcome → Result PlannerError (List OperationNode)
guarded_nodes out_of_fuel = err guard_out_of_fuel
guarded_nodes (finished (err e)) = err (invalid_nodes e)
guarded_nodes (finished (ok plan)) = ok plan.nodes

-- The nodes of an answer, which go through the schema and the guard if there are any.
unfoldable pub check_nodes :
    List String → List OperationNode → Result PlannerError (List OperationNode)
unfolding plan_fits_schema validate_operation_plan
check_nodes missing_fields [] = ok []
check_nodes missing_fields (node ∷ nodes) =
    let candidate : OperationPlan = record {
      version = 1;
      status = draft;
      missing_fields = missing_fields;
      nodes = node ∷ nodes;
    } in
    do
      guard (plan_fits_schema candidate) schema_error
      guarded_nodes (validate_operation_plan candidate)

-- The plan of an answer, or what comes after it is refused.
abbrev pub plan_or :
    {E : Type 0} → Result PlannerError TaskPlan → Result E TaskPlan → Result E TaskPlan
plan_or (ok plan) after_refusal = ok plan
plan_or (err e) after_refusal = after_refusal

module _ (settings : PlannerSettings) (parsed : ParsedTaskSpec) where
  -- `_build_task_plan_legacy`
  unfoldable pub build_task_plan_legacy : TaskPlan
  unfolding build_steps_legacy
  build_task_plan_legacy = record {
    version = "agent-v1";
    mode = "agent_driven_gis_workspace";
    status = status_if parsed.need_confirmation;
    missing_fields = parsed.missing_fields;
    steps = build_steps_legacy settings.local_files_only_mode parsed;
    operation_plan_nodes = [];
    error_code = none;
  }

  -- `_build_planner_failure_plan`, with the error code that `_map_planner_failure_reason` gives.
  unfoldable pub build_planner_failure_plan : String → TaskPlan
  unfolding build_steps_legacy
  build_planner_failure_plan error_code = record {
    version = "agent-v2";
    mode = "llm_plan_execute_gis_workspace";
    status = "needs_clarification";
    missing_fields = dedup (parsed.missing_fields ++ "planning_context" ∷ []);
    steps = build_steps_legacy settings.local_files_only_mode parsed;
    operation_plan_nodes = [];
    error_code = some error_code;
  }

  -- `_normalize_llm_task_plan`
  unfoldable pub normalize_llm_task_plan : LlmTaskPlan → Result PlannerError TaskPlan
  unfolding sanitize_missing_fields normalize_llm_steps check_nodes
  normalize_llm_task_plan payload =
      let missing_fields =
        sanitize_missing_fields parsed (parsed.missing_fields ++ payload.missing_fields) in
      do
        steps ← normalize_llm_steps settings.local_files_only_mode parsed payload.steps
        nodes ← check_nodes missing_fields payload.operation_plan_nodes
        ok (record {
          version = text_or payload.version "agent-v2";
          mode = text_or payload.mode "llm_plan_execute_gis_workspace";
          status = status_if (parsed.need_confirmation || not (is_empty missing_fields));
          missing_fields = missing_fields;
          steps = steps;
          operation_plan_nodes = nodes;
          error_code = none;
        })

  -- The plan of an answer, which is `none` if it is no `LLMTaskPlan`.
  unfoldable pub try_answer : Option LlmTaskPlan → Result PlannerError TaskPlan
  unfolding normalize_llm_task_plan
  try_answer none = err schema_error
  try_answer (some payload) = normalize_llm_task_plan payload

  -- What the calls of the language model bring, by their number: an answer or an exception.
  module _ {E : Type 0} (chat_json : ℕ → Result E (Option LlmTaskPlan)) where
    -- The loop of `_build_task_plan_with_llm`, by the retries that are left.
    unfoldable pub ask : ℕ → ℕ → Result E TaskPlan
    unfolding build_planner_failure_plan try_answer
    ask zero attempt = do
      answer ← chat_json attempt
      plan_or (try_answer answer)
          (ok (build_planner_failure_plan "task_llm_planner_schema_validation_failed"))
    ask (suc retries) attempt =
        let again = ask retries (attempt + 1) in
        do answer ← chat_json attempt; plan_or (try_answer answer) again

    -- The handlers of `build_task_plan`.
    unfoldable pub plan_on_error : Result E TaskPlan → TaskPlan
    unfolding build_task_plan_legacy build_planner_failure_plan
    plan_on_error (ok plan) = plan
    plan_on_error (err e) =
        if settings.llm_planner_legacy_fallback
        then build_task_plan_legacy
        else build_planner_failure_plan "task_llm_planner_failed"

    -- `build_task_plan`
    unfoldable pub build_task_plan : TaskPlan
    unfolding build_task_plan_legacy ask plan_on_error
    build_task_plan =
        if settings.llm_planner_enabled
        then plan_on_error (ask settings.llm_planner_schema_retries 0)
        else build_task_plan_legacy

-- ===== src/Planner/Steps.antt =====
-- The steps of a plan, from the tool registry and from the answer of the language model.
use gis_agent.Prelude.{
  String, Bool, not, ◌&&◌, Option, none, some, List, [], ◌∷◌, ◌++◌, keep, mem, str_eq, is_empty,
  if◌then◌else◌,
}
use gis_agent.Prelude.Result.{Result, ok, err, guard, ◌>>=◌, ◌>>◌}
use gis_agent.Prelude.Dict.{Dict, lookup, has, insert}
use gis_agent.Prelude.Text.{non_empty, append_text}
use gis_agent.PlanGuard.Errors.{GuardError}
use gis_agent.Builder.Request.{ParsedTaskSpec}
use gis_agent.ToolRegistry.{ToolDefinition, definitions_by_name, tool_step_sequence}

pub record TaskPlanStep : Type 0 where
  pub step_name : String
  pub tool_name : String
  pub title : String
  pub purpose : String
  pub status : String
  pub reasoning : Option String
  pub depends_on : List String

pub record LlmPlanStep : Type 0 where
  pub step_name : String
  pub title : String
  pub purpose : String
  pub reasoning : Option String
  pub depends_on : List String

-- Why an answer is refused. `guard_out_of_fuel` is the model's.
pub data PlannerError : Type 0 where
  schema_error duplicated_step guard_out_of_fuel : PlannerError
  missing_steps : List String → PlannerError
  invalid_nodes : GuardError → PlannerError

-- `s or t`
abbrev pub text_or : String → String → String
text_or s t = if non_empty s then s else t

abbrev pub some_text_or : Option String → String → String
some_text_or none t = t
some_text_or (some s) t = text_or s t

-- `_required_step_sequence`, whose last branch copies `STEP_SEQUENCE` of task_state.py, the same
-- list as `TOOL_STEP_SEQUENCE`.
unfoldable pub required_step_sequence : Bool → ParsedTaskSpec → List String
unfolding tool_step_sequence
required_step_sequence local_files_only_mode parsed =
    if local_files_only_mode
    then "plan_task" ∷ "run_processing_pipeline" ∷ "generate_outputs" ∷ []
    else if str_eq parsed.analysis_type "CLIP"
    then "plan_task" ∷ "normalize_aoi" ∷ "run_processing_pipeline" ∷ "generate_outputs" ∷ []
    else tool_step_sequence

abbrev pub deps_or : List String → List String → List String
deps_or [] others = others
deps_or (dep ∷ deps) others = dep ∷ deps

abbrev pub step_before : Option String → List String
step_before none = []
step_before (some step_name) = step_name ∷ []

-- The purpose of a step, which names the data set for `recommend_dataset`.
abbrev purpose_of : Option String → ToolDefinition → String
purpose_of requested_dataset definition =
    if str_eq definition.step_name "recommend_dataset"
    then append_text "综合用户偏好和候选质量，对 "
        (append_text (some_text_or requested_dataset "auto") " 请求进行主备方案排序。")
    else definition.purpose

-- The loop of `_build_steps_legacy`, with the names of the steps so far and the last of them.
unfoldable pub legacy_steps :
    Option String → List String → Option String → List String → List TaskPlanStep
unfolding lookup definitions_by_name mem
legacy_steps dataset so_far previous [] = []
legacy_steps dataset so_far previous (step_name ∷ step_names) =
    elim (lookup step_name definitions_by_name) [
      | none ↦ legacy_steps dataset so_far previous step_names
      | some definition ↦
          record {
            step_name = definition.step_name;
            tool_name = definition.tool_name;
            title = definition.title;
            purpose = purpose_of dataset definition;
            status = "pending";
            reasoning = some definition.reasoning;
            depends_on =
                deps_or (keep (λ dep. mem dep so_far) definition.depends_on) (step_before previous);
          }
          ∷ legacy_steps dataset (so_far ++ definition.step_name ∷ []) (some definition.step_name)
              step_names
    ]

-- `_build_steps_legacy`
unfoldable pub build_steps_legacy : Bool → ParsedTaskSpec → List TaskPlanStep
unfolding required_step_sequence legacy_steps
build_steps_legacy mode parsed =
    legacy_steps parsed.requested_dataset [] none (required_step_sequence mode parsed)

-- `llm_steps_by_name`
abbrev pub steps_by_name :
    List LlmPlanStep → Dict LlmPlanStep → Result PlannerError (Dict LlmPlanStep)
unfolding has insert
steps_by_name [] by_name = ok by_name
steps_by_name (step ∷ steps) by_name =
    let rest = steps_by_name steps (insert step.step_name step by_name) in
    do guard (not (has step.step_name by_name)) duplicated_step; rest

-- The dependencies of a step: the ones that the model asks for among the required steps, or those
-- of the definition, or the step before it.
unfoldable pub depends_for :
    List String → String → Option String → List String → List String → List String
unfolding mem
depends_for required step_name previous asked defined =
    deps_or (keep (λ dep. mem dep required && not (str_eq dep step_name)) asked)
      (deps_or (keep (λ dep. mem dep required) defined) (step_before previous))

unfoldable pub llm_step :
    List String → String → Option String → LlmPlanStep → ToolDefinition → TaskPlanStep
unfolding depends_for
llm_step required step_name previous asked definition = record {
  step_name = step_name;
  tool_name = definition.tool_name;
  title = text_or asked.title definition.title;
  purpose = text_or asked.purpose definition.purpose;
  status = "pending";
  reasoning = some (some_text_or asked.reasoning definition.reasoning);
  depends_on = depends_for required step_name previous asked.depends_on definition.depends_on;
}

-- The loop of `_normalize_llm_steps`; the names are those that the dictionaries have.
unfoldable pub llm_steps :
    List String
    → Dict LlmPlanStep
    → Option String
    → List String
    → Result PlannerError (List TaskPlanStep)
unfolding lookup definitions_by_name llm_step
llm_steps required by_name previous [] = ok []
llm_steps required by_name previous (step_name ∷ step_names) =
    let rest = llm_steps required by_name (some step_name) step_names in
    elim (lookup step_name by_name) [
      | none ↦ err (missing_steps (step_name ∷ []))
      | some asked ↦ elim (lookup step_name definitions_by_name) [
        | none ↦ err (missing_steps (step_name ∷ []))
        | some definition ↦ do
          steps ← rest
          ok (llm_step required step_name previous asked definition ∷ steps)
      ]
    ]

-- `_normalize_llm_steps`
unfoldable pub normalize_llm_steps :
    Bool → ParsedTaskSpec → List LlmPlanStep → Result PlannerError (List TaskPlanStep)
unfolding required_step_sequence llm_steps has definitions_by_name
normalize_llm_steps mode parsed steps =
    let required =
      keep (λ step_name. has step_name definitions_by_name) (required_step_sequence mode parsed) in
    steps_by_name steps [] >>= λ by_name.
    guard (is_empty (keep (λ step_name. not (has step_name by_name)) required))
      (missing_steps (keep (λ step_name. not (has step_name by_name)) required))
    >> llm_steps required by_name none required

-- ===== src/Planner/Planned.antt =====
-- The plans that `build_task_plan` of packages/domain/services/planner.py returns.
use gis_agent.PlanGuard.Graph.Sets.{mem-dedup, mem-append, mem-cons_self}
use gis_agent.Prelude.{
  ℕ, zero, suc, ◌+◌, String, true, not, ◌||◌, Option, none, some, List, [], ◌∷◌, ◌++◌, is_empty,
  ◌≡◌, refl, sym, ◌⊎◌, inl, inr, Bool-cases, subst, mem, or_right, Bool, false,
}
use gis_agent.Prelude.Result.{Result, ok, err, bind-ok, guard-bind, same_value}
use gis_agent.Plan.{OperationNode, OperationPlan, draft, plan_fits_schema}
use gis_agent.PlanGuard.Chain.{Outcome, out_of_fuel, finished, validate_operation_plan}
use gis_agent.Builder.Request.{ParsedTaskSpec}
use gis_agent.Planner.Steps.{
  PlannerError, schema_error, required_step_sequence, normalize_llm_steps,
}
use gis_agent.Planner.Sound.{AreSound, legacy-AreSound, normalize-AreSound}
use gis_agent.Planner.{
  PlannerSettings, TaskPlan, LlmTaskPlan, status_if, sanitize_missing_fields,
  build_task_plan_legacy, build_planner_failure_plan, guarded_nodes, check_nodes,
  normalize_llm_task_plan, plan_or, ask, try_answer, plan_on_error, build_task_plan,
}

-- Nodes that are none, or those of a plan that fits the schema and that the guard returns.
pub data Guarded (nodes : List OperationNode) : Type 0 where
  no_nodes : nodes ≡ [] → Guarded nodes
  guarded :
      (candidate plan : OperationPlan)
      → plan_fits_schema candidate ≡ true
      → validate_operation_plan candidate ≡ finished (ok plan)
      → nodes ≡ plan.nodes
      → Guarded nodes

-- The status of a plan tells whether anything is missing: a confirmation or a field.
pub data Tells (confirms : Bool) (missing : List String) (status : String) : Type 0 where
  waits :
      (confirms || not (is_empty missing)) ≡ true
      → status ≡ "needs_clarification"
      → Tells confirms missing status
  ready : confirms ≡ false → missing ≡ [] → status ≡ "ready" → Tells confirms missing status

tells :
    (confirms : Bool) (missing : List String)
    → Tells confirms missing (status_if (confirms || not (is_empty missing)))
tells true missing = waits refl refl
tells false [] = ready refl refl refl
tells false (field ∷ missing) = waits refl refl

-- Where a plan comes from, with what it says is missing. The rules look at the confirmation alone.
pub data Origin (settings : PlannerSettings) (parsed : ParsedTaskSpec) (plan : TaskPlan)
    : Type 0 where
  answered :
      settings.llm_planner_enabled ≡ true
      → Tells parsed.need_confirmation plan.missing_fields plan.status
      → plan.error_code ≡ none
      → Origin settings parsed plan
  by_rules :
      (settings.llm_planner_enabled ≡ false) ⊎ (settings.llm_planner_legacy_fallback ≡ true)
      → Tells parsed.need_confirmation [] plan.status
      → plan.missing_fields ≡ parsed.missing_fields
      → plan.error_code ≡ none
      → Origin settings parsed plan
  failed :
      settings.llm_planner_enabled ≡ true
      → (error_code : String) → plan.error_code ≡ some error_code
      → plan.status ≡ "needs_clarification"
      → mem "planning_context" plan.missing_fields ≡ true
      → Origin settings parsed plan

-- What holds of the plan of a task.
pub record IsPlanned (settings : PlannerSettings) (parsed : ParsedTaskSpec) (plan : TaskPlan)
    : Type 0 where
  pub steps : AreSound (required_step_sequence settings.local_files_only_mode parsed) plan.steps
  pub nodes : Guarded plan.operation_plan_nodes
  pub origin : Origin settings parsed plan

guarded_nodes-Guarded :
    (candidate : OperationPlan) (r : Outcome) (nodes : List OperationNode)
    → plan_fits_schema candidate ≡ true
    → validate_operation_plan candidate ≡ r
    → guarded_nodes r ≡ ok nodes
    → Guarded nodes
guarded_nodes-Guarded candidate out_of_fuel nodes fits e h = cc
guarded_nodes-Guarded candidate (finished (err raised)) nodes fits e h = cc
guarded_nodes-Guarded candidate (finished (ok plan)) nodes fits e h =
    guarded candidate plan fits e (sym (same_value h))

check_nodes-Guarded :
    (missing_fields : List String) (given nodes : List OperationNode)
    → check_nodes missing_fields given ≡ ok nodes
    → Guarded nodes
unfolding check_nodes
check_nodes-Guarded missing_fields [] nodes h = no_nodes (sym (same_value h))
check_nodes-Guarded missing_fields (node ∷ given) nodes h =
    let candidate : OperationPlan = record {
      version = 1;
      status = draft;
      missing_fields = missing_fields;
      nodes = node ∷ given;
    } in
    let (fits, h1) = guard-bind (plan_fits_schema candidate) schema_error _ h in
    guarded_nodes-Guarded candidate (validate_operation_plan candidate) nodes fits refl h1

rules-tell : (confirms : Bool) → Tells confirms [] (status_if confirms)
rules-tell true = waits refl refl
rules-tell false = ready refl refl refl

module _ (settings : PlannerSettings) (parsed : ParsedTaskSpec) where
  legacy-IsPlanned :
      (settings.llm_planner_enabled ≡ false) ⊎ (settings.llm_planner_legacy_fallback ≡ true)
      → IsPlanned settings parsed (build_task_plan_legacy settings parsed)
  unfolding build_task_plan_legacy
  legacy-IsPlanned why = record {
    steps = legacy-AreSound settings.local_files_only_mode parsed;
    nodes = no_nodes refl;
    origin = by_rules why (rules-tell parsed.need_confirmation) refl refl;
  }

module _ (settings : PlannerSettings) (parsed : ParsedTaskSpec)
    (enabled : settings.llm_planner_enabled ≡ true) where
  failure-IsPlanned :
      (error_code : String)
      → IsPlanned settings parsed (build_planner_failure_plan settings parsed error_code)
  unfolding build_planner_failure_plan
  failure-IsPlanned error_code = record {
    steps = legacy-AreSound settings.local_files_only_mode parsed;
    nodes = no_nodes refl;
    origin = failed enabled error_code refl refl (
        mem-dedup "planning_context" (parsed.missing_fields ++ "planning_context" ∷ []) [] (
          rw mem-append (
            or_right (mem "planning_context" parsed.missing_fields) _
              (mem-cons_self "planning_context" []))));
  }

  normalize-IsPlanned :
      (payload : LlmTaskPlan) (plan : TaskPlan)
      → normalize_llm_task_plan settings parsed payload ≡ ok plan
      → IsPlanned settings parsed plan
  unfolding normalize_llm_task_plan
  normalize-IsPlanned payload plan h =
      let missing =
        sanitize_missing_fields parsed (parsed.missing_fields ++ payload.missing_fields) in
      let mode = settings.local_files_only_mode in
      let (steps, h1, made) = bind-ok (normalize_llm_steps mode parsed payload.steps) _ h in
      let (nodes, h2, checked) = bind-ok (check_nodes missing payload.operation_plan_nodes) _ h1 in
      subst (IsPlanned settings parsed) (same_value h2) (record {
        steps = normalize-AreSound mode parsed payload.steps steps made;
        nodes = check_nodes-Guarded missing payload.operation_plan_nodes nodes checked;
        origin = answered enabled (tells parsed.need_confirmation missing) refl;
      })

  try_answer-IsPlanned :
      (answer : Option LlmTaskPlan) (plan : TaskPlan)
      → try_answer settings parsed answer ≡ ok plan
      → IsPlanned settings parsed plan
  unfolding try_answer
  try_answer-IsPlanned none plan h = cc
  try_answer-IsPlanned (some payload) plan h = normalize-IsPlanned payload plan h

  plan_or-IsPlanned :
      {E : Type 0} (r : Result PlannerError TaskPlan) (after_refusal : Result E TaskPlan)
      (plan : TaskPlan)
      → ((p : TaskPlan) → r ≡ ok p → IsPlanned settings parsed p)
      → ((p : TaskPlan) → after_refusal ≡ ok p → IsPlanned settings parsed p)
      → plan_or r after_refusal ≡ ok plan
      → IsPlanned settings parsed plan
  plan_or-IsPlanned (ok made) after_refusal plan h k e =
      subst (IsPlanned settings parsed) (same_value e) (h made refl)
  plan_or-IsPlanned (err raised) after_refusal plan h k e = k plan e

  module _ {E : Type 0} (chat_json : ℕ → Result E (Option LlmTaskPlan)) where
    ask-IsPlanned :
        (retries attempt : ℕ) (plan : TaskPlan)
        → ask settings parsed chat_json retries attempt ≡ ok plan
        → IsPlanned settings parsed plan
    unfolding ask
    ask-IsPlanned zero attempt plan h =
        let (answer, h1, _) = bind-ok (chat_json attempt) _ h in
        plan_or-IsPlanned (try_answer settings parsed answer) _ plan (try_answer-IsPlanned answer)
          (λ p e. subst (IsPlanned settings parsed) (same_value e) (failure-IsPlanned _)) h1
    ask-IsPlanned (suc retries) attempt plan h =
        let (answer, h1, _) = bind-ok (chat_json attempt) _ h in
        plan_or-IsPlanned (try_answer settings parsed answer) _ plan (try_answer-IsPlanned answer)
          (ask-IsPlanned retries (attempt + 1)) h1

    plan_on_error-IsPlanned :
        (r : Result E TaskPlan)
        → ((p : TaskPlan) → r ≡ ok p → IsPlanned settings parsed p)
        → IsPlanned settings parsed (plan_on_error settings parsed chat_json r)
    unfolding plan_on_error
    plan_on_error-IsPlanned (ok plan) h = h plan refl
    plan_on_error-IsPlanned (err e) h = elim (Bool-cases settings.llm_planner_legacy_fallback) [
      | inl falls_back ↦ simp falls_back (legacy-IsPlanned settings parsed (inr falls_back))
      | inr stops ↦ simp stops (failure-IsPlanned _)
    ]

module _ (settings : PlannerSettings) (parsed : ParsedTaskSpec) {E : Type 0}
    (chat_json : ℕ → Result E (Option LlmTaskPlan)) where
  -- Whatever the language model answers, the task gets a plan. Its steps are the ones that the mode
  -- and the type of analysis require, in their order, each with its tool of the registry and with
  -- dependencies on other steps of the plan alone. Its operation nodes are none, or those of a plan
  -- that fits the schema and that the guard returns. A plan from an answer is ready exactly when the
  -- task needs no confirmation and the plan has no missing field; a plan by the rules, where the model
  -- is off or has the rules as its fallback, is ready exactly when the task needs no confirmation, and
  -- has the missing fields of the task; a plan of a failure holds an error code, needs a clarification
  -- and has the planning context among its missing fields.
  pub build_task_plan-IsPlanned :
      IsPlanned settings parsed (build_task_plan settings parsed chat_json)
  unfolding build_task_plan
  build_task_plan-IsPlanned = elim (Bool-cases settings.llm_planner_enabled) [
    | inr off ↦ simp off (legacy-IsPlanned settings parsed (inl off))
    | inl enabled ↦ simp enabled (
        plan_on_error-IsPlanned settings parsed enabled chat_json
          (ask settings parsed chat_json settings.llm_planner_schema_retries 0)
          (ask-IsPlanned settings parsed enabled chat_json settings.llm_planner_schema_retries 0))
  ]

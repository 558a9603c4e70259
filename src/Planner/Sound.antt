-- ===== src/Planner/Sound.antt =====
-- The steps that packages/domain/services/planner.py makes for the step sequences that it requires.
use gis_agent.Prelude.{
  String, Bool, true, false, not, ◌&&◌, Option, none, some, List, [], ◌∷◌, keep, mem, str_eq, ◌≡◌,
  refl, ap, All, arith, Bool-cases, Option-cases, inl, inr, subst,
}
use gis_agent.Prelude.Result.{Result, ok, err, bind-ok, guard-bind, same_value}
use gis_agent.Prelude.Dict.{Dict, lookup, has}
use gis_agent.Builder.Request.{ParsedTaskSpec}
use gis_agent.ToolRegistry.{ToolDefinition, definitions_by_name, tool_step_sequence}
use gis_agent.Planner.Steps.{
  TaskPlanStep, LlmPlanStep, PlannerError, missing_steps, required_step_sequence, deps_or,
  step_before, legacy_steps, build_steps_legacy, steps_by_name, depends_for, llm_steps,
  normalize_llm_steps,
}

abbrev pub plan_step_names : List TaskPlanStep → List String
plan_step_names [] = []
plan_step_names (step ∷ steps) = step.step_name ∷ plan_step_names steps

-- A dependency on another step of the plan.
abbrev pub Within : List String → String → String → Type 0
Within required name dep = (mem dep required ≡ true) × (str_eq dep name ≡ false)

-- A step that has its tool from the registry, and whose dependencies are other steps of the plan.
pub record IsSound (required : List String) (step : TaskPlanStep) : Type 0 where
  pub definition : ToolDefinition
  pub registered : lookup step.step_name definitions_by_name ≡ some definition
  pub same_tool : step.tool_name ≡ definition.tool_name
  pub within : All (Within required step.step_name) step.depends_on

pub record AreSound (required : List String) (steps : List TaskPlanStep) : Type 0 where
  pub named : plan_step_names steps ≡ required
  pub sound : All (IsSound required) steps

-- A name that the registry has, whose usual dependencies are other steps.
record IsKnown (name : String) : Type 0 where
  definition : ToolDefinition
  found : lookup name definitions_by_name ≡ some definition
  others : All (λ dep. str_eq dep name ≡ false) definition.depends_on

-- The names that are left, behind the one before them.
abbrev Fits : List String → Option String → List String → Type 0
Fits required previous [] = Unit
Fits required previous (name ∷ names) =
    IsKnown name
    × All (Within required name) (step_before previous)
    × Fits required (some name) names

record IsChain (required : List String) : Type 0 where
  kept : keep (λ name. has name definitions_by_name) required ≡ required
  fits : Fits required none required
  legacy : (dataset : Option String) → AreSound required (legacy_steps dataset [] none required)

deps_or-All :
    (P : String → Type 0) (deps others : List String)
    → All P deps
    → All P others
    → All P (deps_or deps others)
deps_or-All P [] others h k = k
deps_or-All P (dep ∷ deps) others h k = h

module _ (required : List String) (name : String) where
  keep_asked :
      (asked : List String)
      → All (Within required name) (keep (λ dep. mem dep required && not (str_eq dep name)) asked)
  keep_asked [] = tt
  keep_asked (dep ∷ asked) = elim (Bool-cases (mem dep required && not (str_eq dep name))) [
    | inl passes ↦ rw passes ((ground arith, ground arith), keep_asked asked)
    | inr fails ↦ rw fails (keep_asked asked)
  ]

  keep_defined :
      (defined : List String)
      → All (λ dep. str_eq dep name ≡ false) defined
      → All (Within required name) (keep (λ dep. mem dep required) defined)
  keep_defined [] h = tt
  keep_defined (dep ∷ defined) h = elim (Bool-cases (mem dep required)) [
    | inl passes ↦ rw passes ((passes, h.0), keep_defined defined h.1)
    | inr fails ↦ rw fails (keep_defined defined h.1)
  ]

  depends_for-Within :
      (previous : Option String) (asked defined : List String)
      → All (λ dep. str_eq dep name ≡ false) defined
      → All (Within required name) (step_before previous)
      → All (Within required name) (depends_for required name previous asked defined)
  unfolding depends_for
  depends_for-Within previous asked defined others before =
      deps_or-All (Within required name)
        (keep (λ dep. mem dep required && not (str_eq dep name)) asked) _ (keep_asked asked)
        (deps_or-All (Within required name) (keep (λ dep. mem dep required) defined) _
          (keep_defined defined others) before)

llm_steps-Sound :
    (required : List String) (by_name : Dict LlmPlanStep) (previous : Option String)
    (names : List String) (steps : List TaskPlanStep)
    → Fits required previous names
    → llm_steps required by_name previous names ≡ ok steps
    → (plan_step_names steps ≡ names) × All (IsSound required) steps
unfolding llm_steps
llm_steps-Sound required by_name previous [] steps fits h =
    subst (λ found. (plan_step_names found ≡ []) × All (IsSound required) found) (same_value h)
      (refl, tt)
llm_steps-Sound required by_name previous (name ∷ names) steps (known, before, fits) h =
    elim (Option-cases (lookup name by_name)) [
      | inl missing ↦
          let wrong : ◌≡◌ {A = Result PlannerError (List TaskPlanStep)}
              (err (missing_steps (name ∷ []))) (ok steps) =
            rw (llm_steps, missing) at h in
          cc
      | inr (asked, there) ↦
          let h1 = rw (llm_steps, there, known.found) at h in
          let (rest, h2, h3) = bind-ok (llm_steps required by_name (some name) names) _ h1 in
          let (named, sound) = llm_steps-Sound required by_name (some name) names rest fits h3 in
          subst (λ found. (plan_step_names found ≡ name ∷ names) × All (IsSound required) found)
            (same_value h2)
            (
              ap (λ ns. name ∷ ns) named,
              (
                record {
                  definition = known.definition;
                  registered = known.found;
                  same_tool = refl;
                  within =
                      depends_for-Within required name previous asked.depends_on
                        known.definition.depends_on known.others before;
                },
                sound,
              ),
            )
    ]

three-IsChain : IsChain ("plan_task" ∷ "run_processing_pipeline" ∷ "generate_outputs" ∷ [])
unfolding lookup has definitions_by_name legacy_steps mem
three-IsChain = record {
  kept = refl;
  fits = (
    record { definition = _; found = refl; others = tt },
    tt,
    (
      record { definition = _; found = refl; others = (refl, tt) },
      ((refl, refl), tt),
      (record { definition = _; found = refl; others = (refl, tt) }, ((refl, refl), tt), tt),
    ),
  );
  legacy = λ dataset. record {
    named = refl;
    sound = (
      record { definition = _; registered = refl; same_tool = refl; within = tt },
      (
        record { definition = _; registered = refl; same_tool = refl; within = ((refl, refl), tt) },
        (
          record {
            definition = _;
            registered = refl;
            same_tool = refl;
            within = ((refl, refl), tt);
          },
          tt,
        ),
      ),
    );
  };
}

four-IsChain :
    IsChain ("plan_task" ∷ "normalize_aoi" ∷ "run_processing_pipeline" ∷ "generate_outputs" ∷ [])
unfolding lookup has definitions_by_name legacy_steps mem
four-IsChain = record {
  kept = refl;
  fits = (
    record { definition = _; found = refl; others = tt },
    tt,
    (
      record { definition = _; found = refl; others = (refl, tt) },
      ((refl, refl), tt),
      (
        record { definition = _; found = refl; others = (refl, tt) },
        ((refl, refl), tt),
        (record { definition = _; found = refl; others = (refl, tt) }, ((refl, refl), tt), tt),
      ),
    ),
  );
  legacy = λ dataset. record {
    named = refl;
    sound = (
      record { definition = _; registered = refl; same_tool = refl; within = tt },
      (
        record { definition = _; registered = refl; same_tool = refl; within = ((refl, refl), tt) },
        (
          record {
            definition = _;
            registered = refl;
            same_tool = refl;
            within = ((refl, refl), tt);
          },
          (
            record {
              definition = _;
              registered = refl;
              same_tool = refl;
              within = ((refl, refl), tt);
            },
            tt,
          ),
        ),
      ),
    );
  };
}

six-IsChain : IsChain (
    "plan_task" ∷ "normalize_aoi" ∷ "search_candidates" ∷ "recommend_dataset"
    ∷ "run_processing_pipeline" ∷ "generate_outputs" ∷ [])
unfolding lookup has definitions_by_name legacy_steps mem
six-IsChain = record {
  kept = refl;
  fits = (
    record { definition = _; found = refl; others = tt },
    tt,
    (
      record { definition = _; found = refl; others = (refl, tt) },
      ((refl, refl), tt),
      (
        record { definition = _; found = refl; others = (refl, tt) },
        ((refl, refl), tt),
        (
          record { definition = _; found = refl; others = (refl, tt) },
          ((refl, refl), tt),
          (
            record { definition = _; found = refl; others = (refl, tt) },
            ((refl, refl), tt),
            (record { definition = _; found = refl; others = (refl, tt) }, ((refl, refl), tt), tt),
          ),
        ),
      ),
    ),
  );
  legacy = λ dataset. record {
    named = refl;
    sound = (
      record { definition = _; registered = refl; same_tool = refl; within = tt },
      (
        record { definition = _; registered = refl; same_tool = refl; within = ((refl, refl), tt) },
        (
          record {
            definition = _;
            registered = refl;
            same_tool = refl;
            within = ((refl, refl), tt);
          },
          (
            record {
              definition = _;
              registered = refl;
              same_tool = refl;
              within = ((refl, refl), tt);
            },
            (
              record {
                definition = _;
                registered = refl;
                same_tool = refl;
                within = ((refl, refl), tt);
              },
              (
                record {
                  definition = _;
                  registered = refl;
                  same_tool = refl;
                  within = ((refl, refl), tt);
                },
                tt,
              ),
            ),
          ),
        ),
      ),
    );
  };
}

required-IsChain :
    (mode : Bool) (parsed : ParsedTaskSpec) → IsChain (required_step_sequence mode parsed)
unfolding required_step_sequence tool_step_sequence
required-IsChain true parsed = three-IsChain
required-IsChain false parsed = elim (Bool-cases (str_eq parsed.analysis_type "CLIP")) [
  | inl clips ↦ rw clips four-IsChain
  | inr other ↦ rw other six-IsChain
]

module _ (mode : Bool) (parsed : ParsedTaskSpec) where
  pub legacy-AreSound :
      AreSound (required_step_sequence mode parsed) (build_steps_legacy mode parsed)
  unfolding build_steps_legacy
  legacy-AreSound = (required-IsChain mode parsed).legacy parsed.requested_dataset

  pub normalize-AreSound :
      (answer : List LlmPlanStep) (steps : List TaskPlanStep)
      → normalize_llm_steps mode parsed answer ≡ ok steps
      → AreSound (required_step_sequence mode parsed) steps
  unfolding normalize_llm_steps
  normalize-AreSound answer steps h =
      let c = required-IsChain mode parsed in
      let required = required_step_sequence mode parsed in
      let (by_name, h1, _) = bind-ok (steps_by_name answer []) _ h in
      let (_, h2) = guard-bind _ _ _ h1 in
      let h3 : llm_steps required by_name none required ≡ ok steps =
        subst (λ names. llm_steps names by_name none names ≡ ok steps) c.kept h2 in
      let (named, sound) = llm_steps-Sound required by_name none required steps c.fits h3 in
      record { named = named; sound = sound }

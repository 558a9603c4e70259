-- ===== src/PlanGuard/Rules.antt =====
-- What the guard of packages/domain/services/plan_guard.py promises of the steps that it lets pass,
-- told without its loops.
use gis_agent.Prelude.{String, true, false, Option, none, some, List, [], ◌∷◌, ◌++◌, any, ◌≡◌, All}
use gis_agent.Prelude.Text.{non_empty}
use gis_agent.Prelude.Dict.{Dict, lookup, has, keys}
use gis_agent.Value.{str}
use gis_agent.Plan.{OperationNode}
use gis_agent.Registry.{OperationSpec, operation_specs}
use gis_agent.PlanGuard.Paths.{looks_like_external_ref}
use gis_agent.PlanGuard.Inputs.{base_type, is_type_compatible, param_is_present, value_matches}
use gis_agent.PlanGuard.Fallback.{or_null, has_external_input_fallback, allows_implicit_demo_input}
use gis_agent.PlanGuard.Chain.{reference, node_by_id}

-- The references that a step publishes, with their base types, in the order of its specification.
unfoldable pub published_by : OperationNode → Dict String → Dict String
unfolding reference lookup
published_by node [] = []
published_by node ((key, type) ∷ types) =
    (reference (lookup key node.outputs), base_type type) ∷ published_by node types

abbrev pub published_by_step : Option OperationNode → Dict String
published_by_step none = []
published_by_step (some node) = elim (lookup node.op_name operation_specs) [
  | none ↦ []
  | some spec ↦ published_by node spec.output_types
]

-- All that the steps in a list publish.
unfoldable pub published : List OperationNode → List String → Dict String
unfolding published_by node_by_id
published nodes [] = []
published nodes (k ∷ ks) = published_by_step (node_by_id k nodes) ++ published nodes ks

-- An input is served, where `produced` are the references published before. Either it names none
-- and a parameter or a demo value stands in for it, or its reference is published with a type that
-- fits, or the reference is not published, and is an upload or a file of the right kind.
pub data InputFits (node : OperationNode) (produced : Dict String) (key expected : String)
    : Type 0 where
  parameter :
      non_empty (reference (lookup key node.inputs)) ≡ false
      → has_external_input_fallback node key expected ≡ true
      → InputFits node produced key expected
  demo :
      non_empty (reference (lookup key node.inputs)) ≡ false
      → allows_implicit_demo_input node key expected ≡ true
      → InputFits node produced key expected
  upstream :
      (actual : String)
      → non_empty (reference (lookup key node.inputs)) ≡ true
      → lookup (reference (lookup key node.inputs)) produced ≡ some actual
      → is_type_compatible actual expected ≡ true
      → InputFits node produced key expected
  upload :
      non_empty (reference (lookup key node.inputs)) ≡ true
      → lookup (reference (lookup key node.inputs)) produced ≡ none
      → expected ≡ "uploaded_file"
      → InputFits node produced key expected
  file :
      non_empty (reference (lookup key node.inputs)) ≡ true
      → lookup (reference (lookup key node.inputs)) produced ≡ none
      → looks_like_external_ref (reference (lookup key node.inputs)) ≡ true
      → value_matches expected (str (reference (lookup key node.inputs))) ≡ true
      → InputFits node produced key expected

abbrev pub InputsFit : OperationNode → Dict String → Dict String → Type 0
InputsFit node produced [] = Unit
InputsFit node produced ((key, expected) ∷ types) =
    InputFits node produced key expected × InputsFit node produced types

abbrev pub IsGiven : OperationNode → String → Type 0
IsGiven node key = param_is_present (or_null (lookup key node.params)) ≡ true

abbrev pub OneIsGiven : OperationNode → List String → Type 0
OneIsGiven node group =
    any (λ key. param_is_present (or_null (lookup key node.params))) group ≡ true

abbrev pub Names : Dict String → Type 0
Names [] = Unit
Names ((ref, type) ∷ refs) = (non_empty ref ≡ true) × Names refs

-- A step keeps to its specification, where `produced` are the references published before.
pub record StepFits (node : OperationNode) (spec : OperationSpec) (produced : Dict String)
    : Type 0 where
  pub inputs_known : All (λ key. has key spec.input_types ≡ true) (keys node.inputs)
  pub params_given : All (IsGiven node) spec.required_params
  pub groups_given : All (OneIsGiven node) spec.required_param_any
  pub inputs_served : InputsFit node produced spec.input_types
  pub outputs_named : Names (published_by node spec.output_types)

-- The step `k` is a node of the plan with a specification, and keeps to it.
pub record Serves (nodes : List OperationNode) (produced : Dict String) (k : String) : Type 0 where
  pub node : OperationNode
  pub spec : OperationSpec
  pub found : node_by_id k nodes ≡ some node
  pub registered : lookup node.op_name operation_specs ≡ some spec
  pub fits : StepFits node spec produced

-- Each step of the list keeps to its specification with what the steps before it publish.
abbrev pub AllServe : List OperationNode → Dict String → List String → Type 0
AllServe nodes produced [] = Unit
AllServe nodes produced (k ∷ ks) =
    Serves nodes produced k × AllServe nodes (produced ++ published_by_step (node_by_id k nodes)) ks

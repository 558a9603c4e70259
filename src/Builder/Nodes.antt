-- ===== src/Builder/Nodes.antt =====
-- `_build_operation_nodes` and `build_operation_plan_from_registry` of
-- packages/domain/services/operation_plan_builder.py.
use Prim.Native.Char.{code}
use gis_agent.Prelude.{
  ℕ, suc, String, Bool, false, not, ◌&&◌, Option, none, some, List, [], ◌∷◌, ◌++◌, length, str_eq,
  dedup, dedup_from, is_empty, if◌then◌else◌, ◌==◌,
}
use gis_agent.Prelude.Int.{ℤ, pos}
use gis_agent.Prelude.Result.{Result, ok, err, guard, ◌>>=◌, ◌>>◌}
use gis_agent.Prelude.Text.{append_text, ends_with, drop_last_two, non_empty}
use gis_agent.Prelude.Dict.{Dict, lookup, insert, update}
use gis_agent.Value.{str, list, Items, no_items, item}
use gis_agent.Registry.{OperationSpec, operation_specs}
use gis_agent.Plan.{OperationNode, OperationPlan, PlanStatus, plan_fits_schema}
use gis_agent.PlanGuard.Graph.{or_empty}
use gis_agent.Builder.Decimal.{decimal}
use gis_agent.Builder.Request.{ParsedTaskSpec, pick_operation_sequence, extract_op_override_params}
use gis_agent.Builder.Formats.{normalize_export_formats}

-- `op_name.replace(".", "_")`
unfoldable pub without_dots : String → String
without_dots String.[] = ""
without_dots (String.◌∷◌ c s) =
    let rest = without_dots s in if code c == b'.' then String.◌∷◌ "_" rest else String.◌∷◌ c rest

-- `f"step_{index}_{…}"`
unfoldable pub step_id_of : ℕ → String → String
unfolding decimal
step_id_of index name = append_text "step_" (decimal index (String.◌∷◌ "_" name))

-- The last of a list, as a list of at most one.
abbrev pub last_of : List String → List String
last_of [] = []
last_of (x ∷ []) = x ∷ []
last_of (x ∷ y ∷ ys) = last_of (y ∷ ys)

abbrev last_text : List String → String
last_text [] = ""
last_text (x ∷ []) = x
last_text (x ∷ y ∷ ys) = last_text (y ∷ ys)

abbrev pub Refs : Type 0
Refs = Dict (List String)

abbrev refs_of : Refs → String → List String
unfolding lookup
refs_of refs type = or_empty (lookup type refs)

-- The first of the types that has references, with the last of them.
unfoldable pub infer_primary_ref : List String → Refs → Option (String × String)
unfolding lookup
infer_primary_ref [] refs = none
infer_primary_ref (type ∷ types) refs = elim (last_of (refs_of refs type)) [
  | [] ↦ infer_primary_ref types refs
  | ref ∷ _ ↦ some (ref, type)
]

abbrev pub primary_types : List String
primary_types = "raster" ∷ "vector" ∷ "table" ∷ "artifact" ∷ []

abbrev first_refs : Refs → List String
first_refs [] = []
first_refs ((type, refs) ∷ others) = elim refs [
  | [] ↦ first_refs others
  | ref ∷ more ↦ last_of (ref ∷ more)
]

abbrev any_ref : Option (String × String) → Refs → List String
any_ref (some (ref, type)) refs = ref ∷ []
any_ref none refs = first_refs refs

-- `_pick_refs_for_input_type`
unfoldable pub pick_refs_for_input_type : String → Refs → List String
unfolding infer_primary_ref ends_with drop_last_two lookup
pick_refs_for_input_type input_type refs =
    if str_eq input_type "any"
    then any_ref (infer_primary_ref primary_types refs) refs
    else if ends_with input_type "[]"
    then refs_of refs (drop_last_two input_type)
    else last_of (refs_of refs input_type)

-- `_output_base_type`
unfoldable pub output_base_type : String → String
unfolding ends_with drop_last_two
output_base_type type = if ends_with type "[]" then drop_last_two type else type

-- The variables of the loop over the operations.
pub record Building : Type 0 where
  pub nodes : List OperationNode
  pub refs_by_type : Refs
  pub ref_producer : Dict String

-- The steps that produce the references, but for the step itself.
unfoldable pub producers_of : String → Dict String → List String → List String
unfolding lookup
producers_of step producers [] = []
producers_of step producers (ref ∷ refs) =
    let rest = producers_of step producers refs in
    elim (lookup ref producers) [
      | none ↦ rest
      | some producer ↦
          if non_empty producer && not (str_eq producer step) then producer ∷ rest else rest
    ]

-- The inputs that have a reference, and the steps they depend on.
unfoldable pub wire_inputs :
    String → Building → Dict String → Dict String × List String → Dict String × List String
unfolding pick_refs_for_input_type insert producers_of
wire_inputs step b [] wired = wired
wire_inputs step b ((key, type) ∷ types) (inputs, deps) =
    let matched = pick_refs_for_input_type type b.refs_by_type in
    wire_inputs step b types (
      if is_empty matched then (inputs, deps) else (
        insert key (last_text matched) inputs,
        deps ++ producers_of step b.ref_producer matched,
      ))

-- `f"{step_id}_{key}"`
abbrev pub ref_of : String → String → String
ref_of step key = append_text step (String.◌∷◌ "_" key)

abbrev add_ref : String → String → Refs → Refs
unfolding insert lookup
add_ref type ref refs = insert type (refs_of refs type ++ ref ∷ []) refs

-- The loop over the outputs, and the outputs of the node.
unfoldable pub wire_outputs : String → Dict String → Dict String → Building → Dict String × Building
unfolding output_base_type insert lookup
wire_outputs step [] outputs b = (outputs, b)
wire_outputs step ((key, type) ∷ types) outputs b =
    let ref = ref_of step key in
    wire_outputs step types (insert key ref outputs) (record b {
      refs_by_type = add_ref (output_base_type type) ref b.refs_by_type;
      ref_producer = insert ref step b.ref_producer;
    })

abbrev pub last_step : List OperationNode → List String
last_step [] = []
last_step (node ∷ []) = node.step_id ∷ []
last_step (node ∷ next ∷ nodes) = last_step (next ∷ nodes)

-- The dependencies of a node: without any of its inputs' it depends on the node before it.
unfoldable pub settle_dependencies : List String → List OperationNode → List String
unfolding dedup_from
settle_dependencies deps nodes = dedup (if is_empty deps then last_step nodes else deps)

abbrev retries : ℕ → Dict ℤ
retries n = ("max_retries", pos n) ∷ []

abbrev spec_or_error : String → Option OperationSpec → Result String OperationSpec
spec_or_error op none = err op
spec_or_error op (some spec) = ok spec

-- `require_operation_spec`: the `KeyError` of an unknown name.
unfoldable pub require_operation_spec : String → Result String OperationSpec
unfolding lookup operation_specs
require_operation_spec op = spec_or_error op (lookup op operation_specs)

-- `OperationPlan(...)`: the schema refuses a plan by a `ValidationError`. It looks at each node when
-- the node is made, which comes to the same, since nothing else is done with the nodes until then.
unfoldable pub construct_plan : OperationPlan → Result String OperationPlan
unfolding plan_fits_schema
construct_plan plan = guard (plan_fits_schema plan) "ValidationError" >> ok plan

module _ (parsed : ParsedTaskSpec) where
  -- The body of the loop, with the specification of the operation.
  unfoldable pub add_operation : ℕ → String → OperationSpec → Building → Building
  unfolding step_id_of without_dots wire_inputs wire_outputs settle_dependencies update
      extract_op_override_params
  add_operation index op spec b =
      let step = step_id_of index (without_dots op) in
      let wired = wire_inputs step b spec.input_types ([], []) in
      let produced = wire_outputs step spec.output_types [] b in
      record produced.1 {
        nodes =
            b.nodes
            ++ record {
              step_id = step;
              op_name = op;
              depends_on = settle_dependencies wired.1 b.nodes;
              inputs = wired.0;
              params = update spec.default_params (extract_op_override_params parsed op);
              outputs = produced.0;
              retry_policy = retries (if is_empty spec.retryable_errors then 0 else 1);
            }
              ∷ [];
      }

  -- The loop over the operations; `index` counts from 1.
  unfoldable pub add_operations : ℕ → List String → Building → Result String Building
  unfolding add_operation require_operation_spec
  add_operations index [] b = ok b
  add_operations index (op ∷ ops) b = require_operation_spec op >>= λ spec.
      add_operations (suc index) ops (add_operation index op spec b)

  abbrev text_items : List String → Items
  text_items [] = no_items
  text_items (s ∷ ss) = item (str s) (text_items ss)

  abbrev primary_input : Option (String × String) → Dict String
  primary_input none = []
  primary_input (some (ref, type)) = ("primary", ref) ∷ []

  abbrev primary_type : Option (String × String) → Option String
  primary_type none = none
  primary_type (some (ref, type)) = some type

  -- What the export depends on: the step that produces its primary input, or the last one.
  unfoldable pub export_dependencies : Option (String × String) → Building → List String
  unfolding lookup
  export_dependencies none b = last_step b.nodes
  export_dependencies (some (ref, type)) b = elim (lookup ref b.ref_producer) [
    | none ↦ []
    | some producer ↦ if non_empty producer then producer ∷ [] else []
  ]

  -- The export that is put behind a plan without one at its end.
  unfoldable pub export_node : OperationSpec → Building → OperationNode
  unfolding step_id_of infer_primary_ref export_dependencies dedup_from normalize_export_formats
      insert update extract_op_override_params
  export_node spec b =
      let step = step_id_of (suc (length b.nodes)) "artifact_export" in
      let primary = infer_primary_ref primary_types b.refs_by_type in
      record {
        step_id = step;
        op_name = "artifact.export";
        depends_on = dedup (export_dependencies primary b);
        inputs = primary_input primary;
        params =
            insert "formats"
              (list (
                text_items
                  (normalize_export_formats (primary_type primary) parsed.preferred_output)))
              (update spec.default_params (extract_op_override_params parsed "artifact.export"));
        outputs = ("artifact", ref_of step "artifact") ∷ [];
        retry_policy = retries 0;
      }

  abbrev pub ends_with_export : List OperationNode → Bool
  ends_with_export [] = false
  ends_with_export (node ∷ []) = str_eq node.op_name "artifact.export"
  ends_with_export (node ∷ next ∷ nodes) = ends_with_export (next ∷ nodes)

  -- The end of `_build_operation_nodes`.
  unfoldable pub close_nodes : Building → Result String (List OperationNode)
  unfolding export_node require_operation_spec
  close_nodes b =
      if is_empty b.nodes
      then ok []
      else if ends_with_export b.nodes
      then ok b.nodes
      else require_operation_spec "artifact.export" >>= λ spec.
          ok (b.nodes ++ export_node spec b ∷ [])

  -- `_build_operation_nodes`
  unfoldable pub build_operation_nodes : List String → Result String (List OperationNode)
  unfolding add_operations close_nodes
  build_operation_nodes ops =
      add_operations 1 ops (record { nodes = []; refs_by_type = []; ref_producer = [] })
      >>= close_nodes

  -- The plan for the nodes.
  unfoldable pub plan_of : ℕ → PlanStatus → List String → List OperationNode → OperationPlan
  unfolding dedup_from
  plan_of version status missing nodes = record {
    version = version;
    status = status;
    missing_fields = if is_empty nodes then dedup (missing ++ "operations" ∷ []) else missing;
    nodes = nodes;
  }

  -- `build_operation_plan_from_registry`; `missing` is `missing_fields or []`.
  unfoldable pub build_operation_plan_from_registry :
      ℕ → PlanStatus → List String → Result String OperationPlan
  unfolding pick_operation_sequence build_operation_nodes plan_of construct_plan
  build_operation_plan_from_registry version status missing =
      build_operation_nodes (pick_operation_sequence parsed) >>= λ nodes.
      construct_plan (plan_of version status missing nodes)

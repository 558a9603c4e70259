-- ===== src/Pipeline/Branches.antt =====
-- The dispatcher of packages/domain/services/processing_pipeline.py and the operations that
-- packages/schemas/operation_plan.py allows.
use gis_agent.Prelude.{
  String, Bool, true, false, ◌||◌, Option, none, some, mem, All, str_eq, eq_iff, ◌≡◌, refl, inl,
  inr, Bool-cases,
}
use gis_agent.Prelude.Result.{Result}
use gis_agent.Prelude.Dict.{lookup}
use gis_agent.Prelude.Sublists.{all-All}
use gis_agent.Plan.{OperationNode, allowed_operation_names}
use gis_agent.PlanGuard.Graph.Sets.{mem_of_All}
use gis_agent.Pipeline.Context.{Context, StepError}
use gis_agent.Pipeline.Export.{Writer, export}
use gis_agent.Pipeline.Run.{
  Target, operation_targets, Operator, operation, operation_or_error, raster_input, vector_input,
  dispatch,
}

abbrev is_there : Option Target → Bool
is_there none = false
is_there (some at) = true

-- An operation with a branch of its own.
unfoldable has_branch : String → Bool
unfolding lookup operation_targets
has_branch op =
    str_eq op "input.upload_raster"
    || str_eq op "input.upload_vector"
    || str_eq op "artifact.export"
    || is_there (lookup op operation_targets)

every_name_has : All (λ op. has_branch op ≡ true) allowed_operation_names
unfolding has_branch lookup operation_targets
every_name_has =
    all-All has_branch allowed_operation_names (unfold has_branch lookup operation_targets in refl)

module _ (operate : Operator) (write : Writer) (working_dir : String) (node : OperationNode)
    (c : Context) where
  -- The branch that a node is dispatched to.
  pub data Branch : Result StepError Context → Type 0 where
    reads_raster :
        node.op_name ≡ "input.upload_raster"
        → Branch (raster_input operate write working_dir node c)
    reads_vector :
        node.op_name ≡ "input.upload_vector"
        → Branch (vector_input operate write working_dir node c)
    exports : node.op_name ≡ "artifact.export" → Branch (export write working_dir node c)
    operates :
        (at : Target)
        → lookup node.op_name operation_targets ≡ some at
        → Branch (operation operate write working_dir at node c)

  other-Branch :
      (o : Option Target)
      → lookup node.op_name operation_targets ≡ o
      → is_there o ≡ true
      → Branch (operation_or_error operate write working_dir o node c)
  unfolding operation_or_error
  other-Branch none e there = cc
  other-Branch (some at) e there = operates at e

  -- Every operation that the schema allows is dispatched to a branch of its own: that of an input,
  -- the export, or the operation of its entry in the table. None meets the error of an unsupported
  -- operation.
  pub dispatch-Branch :
      mem node.op_name allowed_operation_names ≡ true
      → Branch (dispatch operate write working_dir node c)
  unfolding dispatch has_branch
  dispatch-Branch allowed =
      let some_branch =
        mem_of_All has_branch node.op_name allowed_operation_names every_name_has allowed in
      elim (Bool-cases (str_eq node.op_name "input.upload_raster")) [
        | inl raster ↦ rw (dispatch, raster) (reads_raster ((eq_iff _ _).0 raster))
        | inr no_raster ↦ elim (Bool-cases (str_eq node.op_name "input.upload_vector")) [
          | inl vector ↦ rw (dispatch, no_raster, vector) (reads_vector ((eq_iff _ _).0 vector))
          | inr no_vector ↦ elim (Bool-cases (str_eq node.op_name "artifact.export")) [
            | inl is_export ↦
                rw (dispatch, no_raster, no_vector, is_export) (exports ((eq_iff _ _).0 is_export))
            | inr no_export ↦
                rw (dispatch, no_raster, no_vector, no_export)
                  (other-Branch (lookup node.op_name operation_targets) refl
                    (rw (has_branch, no_raster, no_vector, no_export) at some_branch))
          ]
        ]
      ]

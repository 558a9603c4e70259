-- ===== src/PlanGuard/Errors.antt =====
-- The errors that packages/domain/services/plan_guard.py raises, one constructor for each `raise`,
-- with what its `detail` holds. `key_error` is the `KeyError` of a dictionary access.
use gis_agent.Prelude.{String, List}

pub data ErrorCode : Type 0 where
  plan_schema_invalid plan_dependency_cycle uncaught_key_error : ErrorCode

pub data GuardError : Type 0 where
  empty_nodes : GuardError
  unknown_operation : (step_id op_name : String) → GuardError
  unknown_depends_on : (step_id : String) → List String → GuardError
  dependency_cycle : GuardError
  key_error : String → GuardError
  unknown_input_keys : (step_id : String) → List String → GuardError
  param_missing : (step_id op_name : String) → List String → GuardError
  param_any_missing : (step_id op_name : String) → List String → GuardError
  input_missing : (step_id op_name input_key expected_type : String) → GuardError
  input_ref_unresolved : (step_id op_name input_key input_ref : String) → GuardError
  input_type_mismatch :
      (step_id op_name input_key input_ref actual_type expected_type : String) → GuardError
  output_missing : (step_id op_name output_key : String) → GuardError
  output_ref_duplicated : (step_id output_key output_ref : String) → GuardError

unfoldable pub error_code : GuardError → ErrorCode
error_code dependency_cycle = plan_dependency_cycle
error_code (key_error k) = uncaught_key_error
error_code _ = plan_schema_invalid

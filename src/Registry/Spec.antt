-- ===== src/Registry/Spec.antt =====
-- `OperationSpec` of packages/domain/services/operation_registry.py, with its defaults.
use gis_agent.Prelude.{String, List, []}
use gis_agent.Prelude.Dict.{Dict}
use gis_agent.Value.{Value}

pub record OperationSpec : Type 0 where
  pub op_name : String
  pub input_types : Dict String
  pub output_types : Dict String
  pub default_params : Dict Value
  pub executor_name : String
  pub retryable_errors : List String
  pub required_params : List String
  pub required_param_any : List (List String)

-- The fields that are left out take the defaults of the class.
abbrev pub make_spec : String → Dict String → Dict String → Dict Value → String → OperationSpec
make_spec op inputs outputs params executor = record {
  op_name = op;
  input_types = inputs;
  output_types = outputs;
  default_params = params;
  executor_name = executor;
  retryable_errors = [];
  required_params = [];
  required_param_any = [];
}

abbrev pub requires : List String → OperationSpec → OperationSpec
requires params spec = record spec { required_params = params }

-- ===== src/Task.antt =====
-- packages/domain/models.py: a task run with its steps and its events, and the session that holds
-- them. A time is the number of a clock that a caller reads.
use gis_agent.Prelude.{ℕ, String, Bool, Option, List}
use gis_agent.Value.{Fields}
use gis_agent.Prelude.Dict.{Dict}
use gis_agent.Value.{Value}
use gis_agent.Plan.{OperationPlan}

-- A row of `task_steps`.
pub record TaskStep : Type 0 where
  pub id : ℕ
  pub task_id : String
  pub step_name : String
  pub status : String
  pub started_at : Option ℕ
  pub ended_at : Option ℕ
  pub detail : Option Fields

-- A row of `task_events`.
pub record TaskEvent : Type 0 where
  pub event_id : ℕ
  pub task_id : String
  pub event_type : String
  pub step_name : Option String
  pub status : Option String
  pub detail : Option Fields

-- The column `plan_json`, by its keys; a key that is not there is `none`, and `other` holds the rest.
pub record PlanJson : Type 0 where
  pub operation_plan : Option OperationPlan
  pub operation_plan_version : Option ℕ
  pub execution_mode : Option String
  pub execution_submitted : Option Bool
  pub rejected_reason : Option String
  pub rejected_at : Option ℕ
  pub other : Dict Value

-- The columns of `task_runs` that the modelled operations read or write. `steps` is the collection
-- that the session has loaded.
pub record TaskRun : Type 0 where
  pub id : String
  pub status : String
  pub current_step : Option String
  pub error_code : Option String
  pub error_message : Option String
  pub plan_json : Option PlanJson
  pub steps : List TaskStep

-- The session around one task: `unloaded` are the rows of the task that were added past the loaded
-- collection, and `last_step_id` and `last_event_id` are the counters of the tables of steps and events.
pub record Store : Type 0 where
  pub task : TaskRun
  pub unloaded : List TaskStep
  pub last_step_id : ℕ
  pub events : List TaskEvent
  pub last_event_id : ℕ

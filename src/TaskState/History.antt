-- ===== src/TaskState/History.antt =====
-- The operations of packages/domain/services/task_state.py on one task, one after the other.
use gis_agent.Prelude.{ℕ, String, Bool, Option, some, List, ◌≡◌, ◌≢◌}
use gis_agent.Prelude.Result.{ok}
use gis_agent.Value.{Fields}
use gis_agent.Task.{Store}
use gis_agent.TaskState.{set_step_status, set_task_status, ensure_task_steps, reload_steps}

-- The collection in which the step of that name is looked for once it is there.
-- One operation on the task or on its steps. The event type of a step is left to the steps.
pub data Op : Store → Store → Type 0 where
  task_status :
      {s s' : Store} (status : String) (step event : Option String) (detail : Option Fields)
      (force : Bool)
      → event ≢ some "step_status_changed"
      → set_task_status s status step event detail force ≡ ok s'
      → Op s s'
  step_status :
      {s s' : Store} (now : ℕ) (name status : String) (detail : Option Fields)
      → set_step_status s now name status detail ≡ ok s'
      → Op s s'
  steps_ensured : {s : Store} (names : List String) → Op s (ensure_task_steps s names)
  steps_reloaded : {s : Store} → Op s (reload_steps s)

pub data History : Store → Store → Type 0 where
  nothing : {s : Store} → History s s
  and_then : {s s' s'' : Store} → History s s' → Op s' s'' → History s s''

-- What every operation keeps holds over every history.
pub kept_over {ℓ} :
    {P : Store → Type ℓ}
    → ((s s' : Store) → Op s s' → P s → P s')
    → {s s' : Store} → History s s'
    → P s
    → P s'
kept_over keeps nothing p = p
kept_over keeps (and_then history op) p = keeps _ _ op (kept_over keeps history p)

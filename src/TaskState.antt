-- ===== src/TaskState.antt =====
-- packages/domain/services/task_state.py and packages/domain/services/task_events.py: the tables of
-- transitions, and the operations that change the status of a task and of its steps.
pub mod Gates
pub mod Steps
pub mod Journal
pub mod Collection
pub mod Rows
pub mod History
pub mod Moves
pub mod Polling
use gis_agent.Prelude.{
  ℕ, suc, String, Bool, true, false, not, ◌&&◌, ◌||◌, Option, none, some, List, [], ◌∷◌, ◌++◌, mem,
  str_eq, keep, ltb, if◌then◌else◌, length, ◌+◌,
}
use gis_agent.Prelude.Text.{non_empty}
use gis_agent.Prelude.Result.{Result, ok, err}
use gis_agent.Prelude.Dict.{Dict, lookup}
use gis_agent.Value.{Fields}
use gis_agent.Task.{TaskStep, TaskEvent, TaskRun, Store}

-- `TASK_STATUS_TRANSITIONS`
unfoldable pub task_status_transitions : Dict (List String)
task_status_transitions =
    ("draft", "queued" ∷ "waiting_clarification" ∷ "awaiting_approval" ∷ [])
    ∷ (
      "waiting_clarification",
      "queued" ∷ "failed" ∷ "cancelled" ∷ "awaiting_approval" ∷ "running" ∷ [],
    )
    ∷ ("awaiting_approval", "approved" ∷ "cancelled" ∷ "failed" ∷ "waiting_clarification" ∷ [])
    ∷ ("approved", "queued" ∷ "cancelled" ∷ "failed" ∷ [])
    ∷ (
      "queued",
      "running" ∷ "failed" ∷ "cancelled" ∷ "waiting_clarification" ∷ "awaiting_approval" ∷ [],
    )
    ∷ ("running", "success" ∷ "failed" ∷ "cancelled" ∷ "waiting_clarification" ∷ [])
    ∷ ("success", [])
    ∷ ("failed", [])
    ∷ ("cancelled", [])
    ∷ []

-- `STEP_STATUS_TRANSITIONS`
unfoldable pub step_status_transitions : Dict (List String)
step_status_transitions =
    ("pending", "running" ∷ "failed" ∷ "skipped" ∷ [])
    ∷ ("running", "success" ∷ "failed" ∷ "skipped" ∷ [])
    ∷ ("success", [])
    ∷ ("failed", [])
    ∷ ("skipped", [])
    ∷ []

-- `mapping.get(current, set())`
abbrev pub targets : Option (List String) → List String
targets none = []
targets (some ts) = ts

-- `can_transition`
unfoldable pub can_transition : Dict (List String) → String → String → Bool
unfolding mem lookup
can_transition mapping current target =
    if str_eq current target then true else mem target (targets (lookup current mapping))

-- The `ValueError` of a transition that the table does not hold, and the session as it is then.
pub record Invalid : Type 0 where
  pub current : String
  pub target : String
  pub left : Store

-- `status or default`
abbrev pub or_default : String → String → String
or_default default status = if non_empty status then status else default

-- `append_task_event`
unfoldable pub append_task_event :
    Store → String → Option String → Option String → Option Fields → Store
append_task_event s type step status detail = record s {
  events =
      s.events
      ++ record {
        event_id = suc s.last_event_id;
        task_id = s.task.id;
        event_type = type;
        step_name = step;
        status = status;
        detail = detail;
      }
        ∷ [];
  last_event_id = suc s.last_event_id;
}

-- `list_task_events`: `none` is the `ValueError` of a task that is not there. The log stands in the
-- order of its ids, which is the order that the query asks for.
unfoldable pub list_task_events : Store → String → ℕ → Option (List TaskEvent)
list_task_events s task_id since =
    if str_eq s.task.id task_id
    then some (keep (λ e. str_eq e.task_id task_id && ltb since e.event_id) s.events)
    else none

abbrev pub step_names : List TaskStep → List String
step_names [] = []
step_names (step ∷ steps) = step.step_name ∷ step_names steps

abbrev pub new_step : ℕ → String → String → TaskStep
new_step id task_id name = record {
  id = id;
  task_id = task_id;
  step_name = name;
  status = "pending";
  started_at = none;
  ended_at = none;
  detail = none;
}

-- The loop of `ensure_task_steps`: the rows that it adds, with the ids behind the last one.
unfoldable pub missing_steps : ℕ → String → List String → List String → List TaskStep
unfolding mem
missing_steps last task_id existing [] = []
missing_steps last task_id existing (name ∷ names) =
    let known = mem name existing in
    let rest = missing_steps (if known then last else suc last) task_id existing names in
    if known then rest else new_step (suc last) task_id name ∷ rest

-- `ensure_task_steps`: the rows do not join the loaded collection.
unfoldable pub ensure_task_steps : Store → List String → Store
unfolding missing_steps
ensure_task_steps s names =
    let rows = missing_steps s.last_step_id s.task.id (step_names s.task.steps) names in
    record s { unloaded = s.unloaded ++ rows; last_step_id = s.last_step_id + length rows }

-- A row in its place by its id.
unfoldable pub put_row : TaskStep → List TaskStep → List TaskStep
put_row row [] = row ∷ []
put_row row (step ∷ steps) =
    if ltb row.id step.id then row ∷ step ∷ steps else step ∷ put_row row steps

unfoldable pub put_rows : List TaskStep → List TaskStep → List TaskStep
unfolding put_row
put_rows [] steps = steps
put_rows (row ∷ rows) steps = put_rows rows (put_row row steps)

-- A commit, which expires the collection: it is loaded again when it is next read. The query names no
-- order; the rows are taken to come by their ids.
unfoldable pub reload_steps : Store → Store
unfolding put_rows
reload_steps s = record s {
  task = record s.task { steps = put_rows s.unloaded s.task.steps };
  unloaded = [];
}

abbrev pub or_else : {A : Type 0} → Option A → Option A → Option A
or_else none b = b
or_else (some a) b = some a

abbrev pub log_status : Store → String → Option String → Option String → Option Fields → Store
log_status s status step none detail = s
log_status s status step (some type) detail = append_task_event s type step (some status) detail

-- `set_task_status`
unfoldable pub set_task_status :
    Store → String → Option String → Option String → Option Fields → Bool → Result Invalid Store
unfolding can_transition append_task_event
set_task_status s status step event_type detail force =
    let current = or_default "draft" s.task.status in
    if force || can_transition task_status_transitions current status
    then ok (
        log_status
          (record s {
            task = record s.task {
              status = status;
              current_step = or_else step s.task.current_step;
            };
          })
          status step event_type detail)
    else err (record { current = current; target = status; left = s })

-- `next((item for item in task.steps if item.step_name == step_name), None)`
unfoldable pub find_step : String → List TaskStep → Option TaskStep
find_step name [] = none
find_step name (step ∷ steps) =
    if str_eq step.step_name name then some step else find_step name steps

-- The first step of that name is an object of the collection, which the assignments change.
unfoldable pub replace_step : String → TaskStep → List TaskStep → List TaskStep
replace_step name new [] = []
replace_step name new (step ∷ steps) =
    if str_eq step.step_name name then new ∷ steps else step ∷ replace_step name new steps

abbrev pub is_end : String → Bool
is_end status = str_eq status "success" || str_eq status "failed" || str_eq status "skipped"

-- The assignments of `set_step_status` to the step.
unfoldable pub stamp : ℕ → String → Option Fields → TaskStep → TaskStep
stamp now status detail step = record step {
  status = status;
  started_at =
      if str_eq status "running" then or_else step.started_at (some now) else step.started_at;
  ended_at = if is_end status then some now else step.ended_at;
  detail = detail;
}

abbrev pub put_step : Store → ℕ → TaskStep → String → Option Fields → Store
unfolding replace_step stamp
put_step s now step status detail = record s {
  task = record s.task {
    steps = replace_step step.step_name (stamp now status detail step) s.task.steps;
    current_step = some step.step_name;
  };
}

-- `set_step_status` for a step of the collection.
unfoldable pub move_step : Store → ℕ → TaskStep → String → Option Fields → Result Invalid Store
unfolding can_transition append_task_event stamp replace_step
move_step s now step status detail =
    let previous = or_default "pending" step.status in
    if can_transition step_status_transitions previous status
    then ok (
        if str_eq previous status
        then put_step s now step status detail
        else append_task_event (put_step s now step status detail) "step_status_changed"
            (some step.step_name) (some status) detail)
    else err (record { current = previous; target = status; left = s })

abbrev pub add_step : Store → TaskStep → Store
add_step s step = record s {
  task = record s.task { steps = s.task.steps ++ step ∷ [] };
  last_step_id = step.id;
}

abbrev pub move_found :
    Store → ℕ → String → String → Option Fields → Option TaskStep → Result Invalid Store
unfolding move_step
move_found s now name status detail none =
    let new = new_step (suc s.last_step_id) s.task.id name in
    move_step (add_step s new) now new status detail
move_found s now name status detail (some step) = move_step s now step status detail

-- `set_step_status`
unfoldable pub set_step_status : Store → ℕ → String → String → Option Fields → Result Invalid Store
unfolding find_step move_step
set_step_status s now name status detail =
    move_found s now name status detail (find_step name s.task.steps)

-- `write_task_error`
unfoldable pub write_task_error : String → String → TaskRun → TaskRun
write_task_error code message task = record task {
  error_code = some code;
  error_message = some message;
}

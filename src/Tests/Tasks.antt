-- ===== src/Tests/Tasks.antt =====
-- A task with its steps: what the operations do on it, and the theorems about it at these inputs.
use gis_agent.Prelude.{
  String, true, false, none, some, List, [], ◌∷◌, ◌++◌, ◌≡◌, refl, arith, ◌⊎◌, any, str_eq, mem,
  distinct,
}
use gis_agent.Prelude.Result.{Result, ok, err}
use gis_agent.Task.{TaskEvent, Store}
use gis_agent.TaskState.{
  Invalid, set_task_status, set_step_status, ensure_task_steps, reload_steps,
  task_status_transitions, step_status_transitions, append_task_event, list_task_events,
}
use gis_agent.TaskState.History.{
  History, nothing, and_then, step_status, steps_ensured, steps_reloaded,
}
use gis_agent.TaskState.Gates.{
  Run, start, update, current_status, terminal_absorbing, succeeded_ran, approval_gates_work,
  is_undecided_or_closed, is_way_on,
}
use gis_agent.TaskState.Steps.{AllTimed, steps_stay-WellTimed}
use gis_agent.TaskState.Journal.{Journalled, replay, log_tells_steps, AllAwait}
use gis_agent.TaskState.Collection.{step_status_of}
use gis_agent.TaskState.Polling.{Entry, append_all, numbered, polling_complete}

abbrev pub fresh : String → Store
fresh status = record {
  task = record {
    id = "task_1";
    status = status;
    current_step = none;
    error_code = none;
    error_message = none;
    plan_json = none;
    steps = [];
  };
  unloaded = [];
  last_step_id = 0;
  events = [];
  last_event_id = 0;
}

abbrev returned : Store → Result Invalid Store → Store
returned s (ok s') = s'
returned s (err e) = s

abbrev to_status : Store → String → Store
to_status s status = returned s (set_task_status s status none (some "task_moved") none false)

abbrev queued : Store
queued = to_status (fresh "draft") "queued"

abbrev running : Store
running = to_status queued "running"

abbrev finished : Store
finished = to_status running "success"

whole_run : Run (fresh "draft") ("success" ∷ "running" ∷ "queued" ∷ "draft" ∷ []) finished
unfolding set_task_status task_status_transitions append_task_event
whole_run =
    update "success" none (some "task_moved") none
      (update "running" none (some "task_moved") none
        (update "queued" none (some "task_moved") none start refl) refl)
      refl

succeeded_ran_example :
    any (λ status. str_eq status "running") ("success" ∷ "running" ∷ "queued" ∷ "draft" ∷ []) ≡ true
unfolding set_task_status task_status_transitions append_task_event
succeeded_ran_example = succeeded_ran {s = fresh "draft"} {s' = finished} refl whole_run refl

cancelled_run :
    Run
      (fresh "cancelled")
      ("cancelled" ∷ "cancelled" ∷ [])
      (to_status (fresh "cancelled") "cancelled")
unfolding set_task_status task_status_transitions append_task_event
cancelled_run = update "cancelled" none (some "task_moved") none start refl

terminal_absorbing_example :
    current_status (to_status (fresh "cancelled") "cancelled") ≡ "cancelled"
terminal_absorbing_example = terminal_absorbing {s = fresh "cancelled"} refl cancelled_run

cancelled_is_final :
    set_task_status (fresh "cancelled") "running" none none none false
    ≡ err (record { current = "cancelled"; target = "running"; left = fresh "cancelled" })
unfolding set_task_status task_status_transitions
cancelled_is_final = refl

abbrev approved : Store
approved = to_status (fresh "awaiting_approval") "approved"

approved_run :
    Run
      (fresh "awaiting_approval")
      ("queued" ∷ "approved" ∷ "awaiting_approval" ∷ [])
      (to_status approved "queued")
unfolding set_task_status task_status_transitions append_task_event
approved_run =
    update "queued" none (some "task_moved") none
      (update "approved" none (some "task_moved") none start refl) refl

approval_gates_work_example :
    (is_undecided_or_closed (current_status (to_status approved "queued")) ≡ true)
    ⊎ (any is_way_on ("queued" ∷ "approved" ∷ "awaiting_approval" ∷ []) ≡ true)
approval_gates_work_example = approval_gates_work {s = fresh "awaiting_approval"} refl approved_run

abbrev ensured : Store
ensured = reload_steps (ensure_task_steps (fresh "running") ("plan_task" ∷ "normalize_aoi" ∷ []))

abbrev to_step : Store → String → String → Store
to_step s name status = returned s (set_step_status s 7 name status none)

abbrev planned : Store
planned = to_step (to_step ensured "plan_task" "running") "plan_task" "success"

unfoldable history : History (fresh "running") planned
unfolding set_step_status step_status_transitions append_task_event ensure_task_steps reload_steps
history =
    and_then
      (and_then
        (and_then (and_then nothing (steps_ensured ("plan_task" ∷ "normalize_aoi" ∷ [])))
          steps_reloaded)
        (step_status 7 "plan_task" "running" none refl))
      (step_status 7 "plan_task" "success" none refl)

planned_status : step_status_of "plan_task" planned.task.steps ≡ "success"
unfolding set_step_status step_status_transitions append_task_event ensure_task_steps reload_steps
    step_status_of
planned_status = refl

steps_stay-WellTimed_example : AllTimed planned
steps_stay-WellTimed_example = steps_stay-WellTimed history (tt, tt)

nothing_told : Journalled (fresh "running")
unfolding step_status_of replay distinct
nothing_told = record { told = λ name. refl; pending = tt; absent = tt; unique = refl }

none_waits : AllAwait history
unfolding history ensure_task_steps reload_steps set_step_status mem distinct
none_waits = ((((tt, (refl, refl)), tt), refl), refl)

log_tells_steps_example : Journalled planned
log_tells_steps_example = log_tells_steps history none_waits nothing_told

abbrev entries : List Entry
entries =
    record { type = "task_queued"; step = none; status = some "queued"; detail = none }
    ∷ record { type = "task_started"; step = none; status = none; detail = none }
    ∷ []

polling_complete_example :
    (list_task_events (append_all queued entries) "task_1" 1 ≡ some (numbered "task_1" 1 entries))
    × ((before : List TaskEvent) × (list_task_events queued "task_1" 0 ≡ some before)
        × (list_task_events (append_all queued entries) "task_1" 0
            ≡ some (before ++ numbered "task_1" 1 entries)))
unfolding set_task_status task_status_transitions append_task_event
polling_complete_example = polling_complete queued entries 0 (omega arith, tt) (omega arith)

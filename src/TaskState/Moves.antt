-- ===== src/TaskState/Moves.antt =====
-- What a `set_step_status` of packages/domain/services/task_state.py that returns has done.
use gis_agent.Prelude.{
  ℕ, String, Bool, true, false, ◌||◌, Option, none, some, List, [], ◌∷◌, ◌++◌, str_eq,
  if◌then◌else◌, ◌≡◌, refl, subst, ◌⊎◌, sym, ap, ◌∙◌, inl, inr, eq_iff, Bool-cases, suc,
}
use gis_agent.Prelude.Result.{ok, test-ok}
use gis_agent.Value.{Fields}
use gis_agent.Task.{TaskStep, TaskEvent, Store}
use gis_agent.TaskState.{
  can_transition, step_status_transitions, set_step_status, set_task_status, move_step, find_step,
  replace_step, stamp, or_default, or_else, task_status_transitions, append_task_event, put_step,
  new_step, move_found, log_status,
}

-- The collection in which the step of that name is looked for once it is there.
abbrev pub with_step : ℕ → String → String → List TaskStep → Option TaskStep → List TaskStep
with_step id task_id name steps none = steps ++ new_step id task_id name ∷ []
with_step id task_id name steps (some step) = steps

abbrev pub change_event : Store → String → String → Option Fields → TaskEvent
change_event s name status detail = record {
  event_id = suc s.last_event_id;
  task_id = s.task.id;
  event_type = "step_status_changed";
  step_name = some name;
  status = some status;
  detail = detail;
}

-- The move of one step, by the step it finds or adds.
pub record Moved (s s' : Store) (now : ℕ) (name status : String) (detail : Option Fields)
    : Type 0 where
  pub base : List TaskStep
  pub is_base :
      base
      ≡ with_step (suc s.last_step_id) s.task.id name s.task.steps (find_step name s.task.steps)
  pub step : TaskStep
  pub at_name : find_step name base ≡ some step
  pub allowed :
      can_transition step_status_transitions (or_default "pending" step.status) status ≡ true
  pub steps_after : s'.task.steps ≡ replace_step name (stamp now status detail step) base
  pub unloaded_after : s'.unloaded ≡ s.unloaded
  pub events_after : s'.events ≡ (
      if str_eq (or_default "pending" step.status) status
      then s.events
      else s.events ++ change_event s name status detail ∷ [])
  pub task_status_after : s'.task.status ≡ s.task.status

pub find_step-name :
    (name : String) (steps : List TaskStep) (step : TaskStep)
    → find_step name steps ≡ some step
    → step.step_name ≡ name
unfolding find_step
find_step-name name [] step h = cc
find_step-name name (x ∷ steps) step h = elim (Bool-cases (str_eq x.step_name name)) [
  | inl same ↦
      let at_x : some x ≡ some step = rw same at h in
      let is_x : x ≡ step = cc in
      ap (λ y. y.step_name) (sym is_x) ∙ (eq_iff x.step_name name).0 same
  | inr other ↦ find_step-name name steps step (rw other at h)
]

find_step-append :
    (name : String) (steps : List TaskStep) (new : TaskStep)
    → find_step name steps ≡ none
    → new.step_name ≡ name
    → find_step name (steps ++ new ∷ []) ≡ some new
unfolding find_step
find_step-append name [] new h e = rw ((eq_iff new.step_name name).1 e) refl
find_step-append name (x ∷ steps) new h e = elim (Bool-cases (str_eq x.step_name name)) [
  | inl same ↦ let wrong : some x ≡ none = rw same at h in cc
  | inr other ↦ rw other (find_step-append name steps new (rw other at h) e)
]

abbrev put_steps : Store → List TaskStep → ℕ → Store
put_steps s steps last = record s { task = record s.task { steps = steps }; last_step_id = last }

-- What both branches of a test agree on.
either {ℓ} :
    {A : Type 0} {B : Type ℓ} (b : Bool) (f : A → B) (x y : A) {z : B}
    → f x ≡ z
    → f y ≡ z
    → f (if b then x else y) ≡ z
either true f x y hx hy = hx
either false f x y hx hy = hy

if-map :
    {A B : Type 0} (b : Bool) (f : A → B) (x y : A)
    → f (if b then x else y) ≡ (if b then f x else f y)
if-map true f x y = refl
if-map false f x y = refl

move_step_lem :
    (s s' : Store) (now : ℕ) (name status : String) (step : TaskStep) (detail : Option Fields)
    (base : List TaskStep) (last : ℕ)
    → base
      ≡ with_step (suc s.last_step_id) s.task.id name s.task.steps (find_step name s.task.steps)
    → find_step name base ≡ some step
    → move_step (put_steps s base last) now step status detail ≡ ok s'
    → Moved s s' now name status detail
unfolding move_step append_task_event
move_step_lem s s' now name status step detail base last is_base found h =
    let moved = put_step (put_steps s base last) now step status detail in
    let logged =
      append_task_event moved "step_status_changed" (some step.step_name) (some status) detail in
    let unchanged = str_eq (or_default "pending" step.status) status in
    let named = find_step-name name base step found in
    let (allowed, e) =
      test-ok (can_transition step_status_transitions (or_default "pending" step.status) status) _
        h in
    record {
      base = base;
      is_base = is_base;
      step = step;
      at_name = found;
      allowed = allowed;
      steps_after =
          ap (λ t. t.task.steps) (sym e)
          ∙ either unchanged (λ t. t.task.steps) moved logged refl refl
          ∙ ap (λ n. replace_step n (stamp now status detail step) base) named;
      unloaded_after =
          ap (λ t. t.unloaded) (sym e) ∙ either unchanged (λ t. t.unloaded) moved logged refl refl;
      events_after =
          ap (λ t. t.events) (sym e)
          ∙ if-map unchanged (λ t. t.events) moved logged
          ∙ ap
              (λ n. if unchanged then s.events else s.events ++ change_event s n status detail ∷ [])
              named;
      task_status_after =
          ap (λ t. t.task.status) (sym e)
          ∙ either unchanged (λ t. t.task.status) moved logged refl refl;
    }

-- `set_step_status` that returns moves the step as the table of step transitions allows.
pub set_step_status_lem :
    (s s' : Store) (now : ℕ) (name status : String) (detail : Option Fields)
    → set_step_status s now name status detail ≡ ok s'
    → Moved s s' now name status detail
unfolding set_step_status
set_step_status_lem s s' now name status detail h = from (find_step name s.task.steps) refl h
  where
    from :
        (found : Option TaskStep)
        → find_step name s.task.steps ≡ found
        → move_found s now name status detail found ≡ ok s'
        → Moved s s' now name status detail
    from none absent h =
        let new = new_step (suc s.last_step_id) s.task.id name in
        move_step_lem s s' now name status new detail (s.task.steps ++ new ∷ [])
          (suc s.last_step_id) (rw absent refl) (find_step-append name s.task.steps new absent refl)
          h
    from (some step) present h =
        move_step_lem s s' now name status step detail s.task.steps s.last_step_id (rw present refl)
          present h

-- What an update of the task leaves: the steps, and the log with at most an event of that type.
pub record Untouched (s s' : Store) (event : Option String) : Type 0 where
  pub same_steps : s'.task.steps ≡ s.task.steps
  pub same_unloaded : s'.unloaded ≡ s.unloaded
  pub logs_at_most :
      (s'.events ≡ s.events)
      ⊎ ((e : TaskEvent) × (event ≡ some e.event_type) × (s'.events ≡ s.events ++ e ∷ []))

log_status_lem :
    (s : Store) (status : String) (step event : Option String) (detail : Option Fields)
    → Untouched s (log_status s status step event detail) event
unfolding append_task_event
log_status_lem s status step none detail = record {
  same_steps = refl;
  same_unloaded = refl;
  logs_at_most = inl refl;
}
log_status_lem s status step (some type) detail = record {
  same_steps = refl;
  same_unloaded = refl;
  logs_at_most = inr (_, refl, refl);
}

-- A `set_task_status` that returns is forced or a transition of the table, and this is its result.
pub set_task_status_lem :
    (s s' : Store) (status : String) (step event : Option String) (detail : Option Fields)
    (force : Bool)
    → set_task_status s status step event detail force ≡ ok s'
    → ((force || can_transition task_status_transitions (or_default "draft" s.task.status) status)
        ≡ true)
      × (log_status
            (record s {
              task = record s.task {
                status = status;
                current_step = or_else step s.task.current_step;
              };
            })
            status
            step
            event
            detail
          ≡ s')
unfolding set_task_status
set_task_status_lem s s' status step event detail force h =
    test-ok
      (force || can_transition task_status_transitions (or_default "draft" s.task.status) status) _
      h

pub set_task_status_keeps :
    (s s' : Store) (status : String) (step event : Option String) (detail : Option Fields)
    (force : Bool)
    → set_task_status s status step event detail force ≡ ok s'
    → Untouched s s' event
unfolding set_task_status
set_task_status_keeps s s' status step event detail force h =
    let (allowed, e) =
      test-ok
        (force || can_transition task_status_transitions (or_default "draft" s.task.status) status)
        _ h in
    subst (λ t. Untouched s t event) e (the (log_status_lem _ status step event detail))
  where
    the :
        {t : Store}
        → Untouched
            (record s {
              task = record s.task {
                status = status;
                current_step = or_else step s.task.current_step;
              };
            })
            t
            event
        → Untouched s t event
    the u = record {
      same_steps = u.same_steps;
      same_unloaded = u.same_unloaded;
      logs_at_most = u.logs_at_most;
    }

-- ===== src/TaskState/Steps.antt =====
-- The steps of a task under the operations of packages/domain/services/task_state.py: the times that
-- their statuses need.
use gis_agent.Prelude.{
  ℕ, String, Bool, true, false, not, ◌&&◌, ◌||◌, Option, none, some, str_eq, All, if◌then◌else◌,
  ◌≡◌, refl, sym, ap, ◌∙◌, ◌⊎◌, inl, inr, arith, eq_iff, Bool-cases, or_left, or_right, suc,
}
use gis_agent.Value.{Fields}
use gis_agent.Task.{TaskStep, Store}
use gis_agent.TaskState.{
  can_transition, step_status_transitions, stamp, or_default, is_end, or_else, new_step,
  ensure_task_steps, reload_steps,
}
use gis_agent.TaskState.Moves.{set_task_status_keeps, set_step_status_lem}
use gis_agent.TaskState.History.{
  Op, task_status, step_status, steps_ensured, steps_reloaded, History, kept_over,
}
use gis_agent.TaskState.Collection.{
  find_step-All, replace_step-All, append-All, with_step-All, missing_steps-All, put_rows-All,
}
use gis_agent.TaskState.Gates.{holds_of-mem}

abbrev pub is_some : {A : Type 0} → Option A → Bool
is_some none = false
is_some (some a) = true

-- A step has an end exactly when it has succeeded, failed or been skipped, and a start when it runs
-- or has succeeded.
pub record WellTimed (step : TaskStep) : Type 0 where
  pub ended : is_some step.ended_at ≡ is_end step.status
  pub started :
      (str_eq step.status "running" || str_eq step.status "success") ≡ true
      → is_some step.started_at ≡ true

-- What the table of step transitions says of a move between two different statuses.
step_entry :
    (previous status : String)
    → can_transition step_status_transitions previous status ≡ true
    → (previous ≡ status)
      ⊎ ((is_end previous ≡ false)
          × ((str_eq status "success" ≡ true → str_eq previous "running" ≡ true)))
unfolding can_transition
step_entry previous status h = elim (Bool-cases (str_eq previous status)) [
  | inl same ↦ inl ((eq_iff previous status).0 same)
  | inr other ↦
      let member = rw other at h in
      let entry : (not (is_end previous)
            && (not (str_eq status "success") || str_eq previous "running"))
          ≡ true =
        holds_of-mem (λ c t. not (is_end c) && (not (str_eq t "success") || str_eq c "running"))
          previous status step_status_transitions (unfold step_status_transitions in refl) member in
      inr (ground (arith, entry), λ success. ground (arith, entry, success))
]

is_some-or_else : (o : Option ℕ) (n : ℕ) → is_some (or_else o (some n)) ≡ true
is_some-or_else none n = refl
is_some-or_else (some a) n = refl

is_some-if :
    (b : Bool) (n : ℕ) (o : Option ℕ) → is_some (if b then some n else o) ≡ (b || is_some o)
is_some-if true n o = refl
is_some-if false n o = refl

-- An empty status counts as pending, and needs no time either.
pending_like :
    (x s : String)
    → str_eq "" s ≡ false
    → str_eq "pending" s ≡ false
    → str_eq (or_default "pending" x) s ≡ str_eq x s
pending_like String.[] s a b = rw (a, b) refl
pending_like (String.◌∷◌ c x) s a b = refl

is_end-or_default : (x : String) → is_end (or_default "pending" x) ≡ is_end x
is_end-or_default String.[] = refl
is_end-or_default (String.◌∷◌ c x) = refl

module _ (status : String) (step : TaskStep) where
  -- A move to a status that is no end comes from one that is none.
  not_ended_before :
      can_transition step_status_transitions (or_default "pending" step.status) status ≡ true
      → is_end status ≡ false
      → is_end step.status ≡ false
  not_ended_before allowed open_after =
      sym (is_end-or_default step.status)
      ∙ elim (step_entry (or_default "pending" step.status) status allowed) [
        | inl same ↦ ap is_end same ∙ open_after
        | inr moved ↦ moved.0
      ]

  -- A move to "success" comes from "running" or from "success".
  ran_before :
      can_transition step_status_transitions (or_default "pending" step.status) status ≡ true
      → str_eq status "success" ≡ true
      → (str_eq step.status "running" || str_eq step.status "success") ≡ true
  ran_before allowed success = elim (step_entry (or_default "pending" step.status) status allowed) [
    | inl same ↦ or_right _ _ (
        sym (pending_like step.status "success" refl refl)
        ∙ ap (λ x. str_eq x "success") same
        ∙ success)
    | inr moved ↦ or_left _ _ (sym (pending_like step.status "running" refl refl) ∙ moved.1 success)
  ]

started_after :
    (status : String) (now : ℕ) (o : Option ℕ)
    → (str_eq status "running" || str_eq status "success") ≡ true
    → (str_eq status "success" ≡ true → is_some o ≡ true)
    → is_some (if str_eq status "running" then or_else o (some now) else o) ≡ true
started_after status now o needed before = elim (Bool-cases (str_eq status "running")) [
  | inl running ↦ rw running (is_some-or_else o now)
  | inr still ↦ rw still (before (rw still at needed))
]

pub stamp-WellTimed :
    (now : ℕ) (status : String) (detail : Option Fields) (step : TaskStep)
    → can_transition step_status_transitions (or_default "pending" step.status) status ≡ true
    → WellTimed step
    → WellTimed (stamp now status detail step)
unfolding stamp
stamp-WellTimed now status detail step allowed timed = record {
  ended = is_some-if (is_end status) now step.ended_at ∙ elim (Bool-cases (is_end status)) [
    | inl ends ↦ rw ends refl
    | inr open_after ↦
        rw (open_after, timed.ended, not_ended_before status step allowed open_after) refl
  ];
  started = λ needed.
      started_after status now step.started_at needed
        (λ success. timed.started (ran_before status step allowed success));
}

-- Every step of the task is well timed, in the collection and past it.
abbrev pub AllTimed : Store → Type 0
AllTimed s = All WellTimed s.task.steps × All WellTimed s.unloaded

pub new_step-WellTimed : (id : ℕ) (task_id name : String) → WellTimed (new_step id task_id name)
new_step-WellTimed id task_id name = record { ended = refl; started = λ h. cc }

Op-timed : (s s' : Store) → Op s s' → AllTimed s → AllTimed s'
unfolding ensure_task_steps reload_steps
Op-timed s s' (task_status status step event detail force other h) timed =
    let kept = set_task_status_keeps s s' status step event detail force h in
    (rw kept.same_steps timed.0, rw kept.same_unloaded timed.1)
Op-timed s s' (step_status now name status detail h) timed =
    let m = set_step_status_lem s s' now name status detail h in
    let base_timed : All WellTimed m.base = rw m.is_base (
      with_step-All WellTimed (suc s.last_step_id) s.task.id name s.task.steps _
        (new_step-WellTimed (suc s.last_step_id) s.task.id name) timed.0) in
    (
      rw m.steps_after (
          replace_step-All WellTimed name _ m.base
            (stamp-WellTimed now status detail m.step m.allowed
              (find_step-All WellTimed name m.base m.step base_timed m.at_name))
            base_timed),
      rw m.unloaded_after timed.1,
    )
Op-timed s _ (steps_ensured names) timed = (
  timed.0,
  append-All WellTimed s.unloaded _ timed.1 (
      missing_steps-All WellTimed s.last_step_id s.task.id _ names
        (λ id name. new_step-WellTimed id s.task.id name)),
)
Op-timed s _ steps_reloaded timed =
    (put_rows-All WellTimed s.unloaded s.task.steps timed.1 timed.0, tt)

-- Over every history of the operations on a task, forced ones included, each of its steps has an end
-- exactly when it has succeeded, failed or been skipped, and a start when it runs or has succeeded.
pub steps_stay-WellTimed : {s s' : Store} → History s s' → AllTimed s → AllTimed s'
steps_stay-WellTimed history timed = kept_over Op-timed history timed

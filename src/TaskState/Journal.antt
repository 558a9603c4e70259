-- ===== src/TaskState/Journal.antt =====
-- The log of events of packages/domain/services/task_state.py as the record of the steps.
use gis_agent.TaskState.Rows.{
  IsPending, IsAbsent, step_status_of-put_rows, moved-absent, missing-absent, missing-distinct,
}
use gis_agent.Prelude.{
  ℕ, String, Bool, true, false, ◌&&◌, Option, none, some, List, [], ◌∷◌, ◌++◌, str_eq, All,
  if◌then◌else◌, ◌≡◌, ◌≢◌, refl, sym, ap, ◌∙◌, ◌⊎◌, inl, inr, eq_iff, Bool-cases, subst, mem,
  distinct, suc,
}
use gis_agent.Prelude.Text.{non_empty}
use gis_agent.Value.{Fields}
use gis_agent.Task.{TaskEvent, Store}
use gis_agent.TaskState.{
  can_transition, step_status_transitions, or_default, ensure_task_steps, reload_steps, stamp,
  step_names,
}
use gis_agent.TaskState.Collection.{
  step_status_of, step_status_of-replace, step_status_of-with, missing_steps-All, status_in,
}
use gis_agent.TaskState.Moves.{
  set_task_status_keeps, set_step_status_lem, change_event, Moved, find_step-name,
}
use gis_agent.TaskState.History.{
  Op, task_status, step_status, steps_ensured, steps_reloaded, History, nothing, and_then,
}
use gis_agent.TaskState.Gates.{holds_of-mem}

abbrev pub names_step : String → Option String → Bool
names_step name none = false
names_step name (some n) = str_eq n name

abbrev pub or_unchanged : Option String → String → String
or_unchanged none current = current
or_unchanged (some status) current = status

-- The status that a log leaves a step in.
unfoldable pub replay : String → String → List TaskEvent → String
replay name current [] = current
replay name current (e ∷ events) =
    replay name
      (if str_eq e.event_type "step_status_changed" && names_step name e.step_name
        then or_unchanged e.status current
        else current)
      events

replay-append :
    (name : String) (xs ys : List TaskEvent) (current : String)
    → replay name current (xs ++ ys) ≡ replay name (replay name current xs) ys
unfolding replay
replay-append name [] ys current = refl
replay-append name (e ∷ xs) ys current = replay-append name xs ys _

-- The log tells the status of each step, and the rows past the collection are pending.
pub record Journalled (s : Store) : Type 0 where
  pub told : (name : String) → step_status_of name s.task.steps ≡ replay name "pending" s.events
  pub pending : All IsPending s.unloaded
  pub absent : All (IsAbsent s.task.steps) s.unloaded
  pub unique : distinct (step_names s.unloaded) ≡ true

-- An event of another type tells nothing.
replay-other :
    (name current : String) (e : TaskEvent)
    → e.event_type ≢ "step_status_changed"
    → replay name current (e ∷ []) ≡ current
unfolding replay
replay-other name current e other = elim (Bool-cases (str_eq e.event_type "step_status_changed")) [
  | inl same ↦ elim (other ((eq_iff e.event_type "step_status_changed").0 same)) [ ]
  | inr differs ↦ rw differs refl
]

-- A target of the table of step transitions is no empty text.
target_named :
    (previous status : String)
    → can_transition step_status_transitions (or_default "pending" previous) status ≡ true
    → or_default "pending" status ≡ status
unfolding can_transition
target_named previous status h = elim (Bool-cases (str_eq (or_default "pending" previous) status)) [
  | inl same ↦
      let e = (eq_iff (or_default "pending" previous) status).0 same in
      subst (λ x. or_default "pending" x ≡ x) e (twice previous)
  | inr other ↦
      let named : non_empty status ≡ true =
        holds_of-mem (λ c t. non_empty t) (or_default "pending" previous) status
          step_status_transitions (unfold step_status_transitions in refl) (rw other at h) in
      rw named refl
]
  where
    twice : (x : String) → or_default "pending" (or_default "pending" x) ≡ or_default "pending" x
    twice String.[] = refl
    twice (String.◌∷◌ c x) = refl

Moved-told :
    (s s' : Store) (now : ℕ) (name status : String) (detail : Option Fields)
    → Moved s s' now name status detail
    → Journalled s
    → (j : String) → step_status_of j s'.task.steps ≡ replay j "pending" s'.events
unfolding stamp step_status_of replay
Moved-told s s' now name status detail m journal j =
    ap (step_status_of j) m.steps_after
    ∙ step_status_of-replace name j m.base m.step (stamp now status detail m.step) m.at_name
        (find_step-name name m.base m.step m.at_name)
    ∙ by_event (Bool-cases (str_eq (or_default "pending" m.step.status) status))
  where
    named : or_default "pending" status ≡ status
    named = target_named m.step.status status m.allowed

    before : step_status_of j m.base ≡ replay j "pending" s.events
    before =
        ap (step_status_of j) m.is_base
        ∙ step_status_of-with j (suc s.last_step_id) s.task.id name s.task.steps _
        ∙ journal.told j

    unchanged :
        or_default "pending" m.step.status ≡ status
        → (if str_eq name j then or_default "pending" status else step_status_of j m.base)
          ≡ replay j "pending" s.events
    unchanged same = elim (Bool-cases (str_eq name j)) [
      | inl here ↦ rw here (
          named
          ∙ sym same
          ∙ ap status_in (sym m.at_name)
          ∙ ap (λ n. step_status_of n m.base) ((eq_iff name j).0 here)
          ∙ before)
      | inr there ↦ rw there before
    ]

    by_event :
        (str_eq (or_default "pending" m.step.status) status ≡ true)
          ⊎ (str_eq (or_default "pending" m.step.status) status ≡ false)
        → (if str_eq name j then or_default "pending" status else step_status_of j m.base)
          ≡ replay j "pending" s'.events
    by_event (inl same) =
        unchanged ((eq_iff (or_default "pending" m.step.status) status).0 same)
        ∙ ap (replay j "pending") (sym (rw same at m.events_after))
    by_event (inr differs) =
        let logged = rw differs at m.events_after in
        elim (Bool-cases (str_eq name j)) [ inl here ↦ rw here named | inr there ↦ rw there before ]
        ∙ sym (replay-append j s.events (change_event s name status detail ∷ []) "pending")
        ∙ ap (replay j "pending") (sym logged)

-- What an operation asks of the rows that are not loaded yet: a step is not set while a row of its
-- name waits, and rows are added, with different names, only when none waits.
abbrev pub Awaits : {s s' : Store} → Op s s' → Type 0
Awaits (task_status status step event detail force other h) = Unit
Awaits {s} (step_status now name status detail h) = mem name (step_names s.unloaded) ≡ false
Awaits {s} (steps_ensured names) = (s.unloaded ≡ []) × (distinct names ≡ true)
Awaits steps_reloaded = Unit

abbrev pub AllAwait : {s s' : Store} → History s s' → Type 0
AllAwait nothing = Unit
AllAwait (and_then history op) = AllAwait history × Awaits op

Op-Journalled : (s s' : Store) (op : Op s s') → Awaits op → Journalled s → Journalled s'
unfolding ensure_task_steps reload_steps stamp distinct
Op-Journalled s s' (task_status status step event detail force other h) _ journal =
    let kept = set_task_status_keeps s s' status step event detail force h in
    record {
      told = λ name.
          ap (step_status_of name) kept.same_steps ∙ journal.told name ∙ elim kept.logs_at_most [
            | inl same ↦ ap (replay name "pending") (sym same)
            | inr (e, type, more) ↦
                sym (replay-other name _ e (λ same. other (type ∙ ap some same)))
                ∙ sym (replay-append name s.events (e ∷ []) "pending")
                ∙ ap (replay name "pending") (sym more)
          ];
      pending = rw kept.same_unloaded journal.pending;
      absent = rw (kept.same_unloaded, kept.same_steps) journal.absent;
      unique = rw kept.same_unloaded journal.unique;
    }
Op-Journalled s s' (step_status now name status detail h) away journal =
    let m = set_step_status_lem s s' now name status detail h in
    record {
      told = Moved-told s s' now name status detail m journal;
      pending = rw m.unloaded_after journal.pending;
      absent =
          rw (m.unloaded_after, m.steps_after, m.is_base)
            (moved-absent (suc s.last_step_id) s.task.id name (stamp now status detail m.step) _
              s.unloaded s.task.steps (find_step-name name m.base m.step m.at_name) away
              journal.absent);
      unique = rw m.unloaded_after journal.unique;
    }
Op-Journalled s _ (steps_ensured names) (none_waits, different) journal =
    let existing = step_names s.task.steps in
    record {
      told = journal.told;
      pending =
          rw none_waits
            (missing_steps-All IsPending s.last_step_id s.task.id existing names (λ id name. refl));
      absent = rw none_waits (missing-absent s.task.id s.task.steps s.last_step_id names);
      unique =
          rw none_waits (missing-distinct s.task.id s.task.steps s.last_step_id names different);
    }
Op-Journalled s _ steps_reloaded _ journal = record {
  told = λ name.
      step_status_of-put_rows name s.unloaded s.task.steps journal.pending journal.absent
        journal.unique
      ∙ journal.told name;
  pending = tt;
  absent = tt;
  unique = refl;
}

-- Over every history of the operations on a task, forced ones included, the events of the type
-- "step_status_changed" tell the status of each of its steps: it is the one of the last such event of
-- the step, and "pending" where there is none. The other events of the history have other types. No
-- step is set while a row of its name waits to be loaded, and rows are added, with different names,
-- only when none waits.
pub log_tells_steps :
    {s s' : Store} (history : History s s') → AllAwait history → Journalled s → Journalled s'
log_tells_steps nothing _ journal = journal
log_tells_steps (and_then history op) (before, awaits) journal =
    Op-Journalled _ _ op awaits (log_tells_steps history before journal)

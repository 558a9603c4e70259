-- ===== src/TaskState/Gates.antt =====
-- What the table of task transitions of packages/domain/services/task_state.py allows over a run of
-- updates that are not forced.
use gis_agent.Prelude.{
  String, Bool, true, false, not, ◌&&◌, ◌||◌, Option, none, some, List, [], ◌∷◌, mem, str_eq, all,
  any, ◌≡◌, refl, sym, ap, ◌∙◌, ◌⊎◌, inl, inr, arith, eq_iff, Bool-cases, and_parts, or_left,
  or_parts, or_right, subst,
}
use gis_agent.Prelude.Text.{non_empty}
use gis_agent.Prelude.Result.{ok, test-ok}
use gis_agent.Prelude.Dict.{Dict, lookup}
use gis_agent.Value.{Fields}
use gis_agent.Task.{Store}
use gis_agent.TaskState.{
  can_transition, targets, task_status_transitions, set_task_status, or_default, log_status,
  append_task_event,
}

-- The status that the table is asked for.
abbrev pub current_status : Store → String
current_status s = or_default "draft" s.task.status

-- Updates of the status that return, with the statuses on the way, the first one included.
pub data Run : Store → List String → Store → Type 0 where
  start : {s : Store} → Run s (current_status s ∷ []) s
  update :
      {s s' s'' : Store} {passed : List String} (status : String) (step event : Option String)
      (detail : Option Fields)
      → Run s passed s'
      → set_task_status s' status step event detail false ≡ ok s''
      → Run s (current_status s'' ∷ passed) s''

-- The test `p` holds of each entry of a table.
abbrev pub holds_of : (String → String → Bool) → Dict (List String) → Bool
holds_of p [] = true
holds_of p ((current, ts) ∷ table) = all (p current) ts && holds_of p table

all-mem :
    (p : String → Bool) (x : String) (xs : List String)
    → all p xs ≡ true
    → mem x xs ≡ true
    → p x ≡ true
unfolding mem
all-mem p x [] h m = cc
all-mem p x (y ∷ ys) h m = ground (arith, eq_iff x y, all-mem p x ys)

pub holds_of-mem :
    (p : String → String → Bool) (current target : String) (table : Dict (List String))
    → holds_of p table ≡ true
    → mem target (targets (lookup current table)) ≡ true
    → p current target ≡ true
unfolding mem lookup
holds_of-mem p current target [] h m = cc
holds_of-mem p current target ((c, ts) ∷ table) h m = elim (Bool-cases (str_eq c current)) [
  | inl same ↦
      let member = rw same at m in
      subst (λ k. p k target ≡ true) ((eq_iff c current).0 same)
        (all-mem (p c) target ts (and_parts _ _ h).0 member)
  | inr other ↦
      let member = rw other at m in holds_of-mem p current target table (and_parts _ _ h).1 member
]

-- The status after an update, whatever it logs.
logged_status :
    (s : Store) (status : String) (step event : Option String) (detail : Option Fields)
    → (log_status s status step event detail).task ≡ s.task
unfolding append_task_event
logged_status s status step none detail = refl
logged_status s status step (some type) detail = refl

-- An update that is not forced and returns is a transition of the table, to the given status.
pub update_lem :
    (s s' : Store) (status : String) (step event : Option String) (detail : Option Fields)
    → set_task_status s status step event detail false ≡ ok s'
    → (s'.task.status ≡ status)
      × (can_transition task_status_transitions (current_status s) status ≡ true)
unfolding set_task_status
update_lem s s' status step event detail h =
    let (allowed, e) =
      test-ok (can_transition task_status_transitions (current_status s) status) _ h in
    (
      ap (λ t. t.task.status) (sym e)
          ∙ ap (λ t. t.status) (logged_status _ status step event detail),
      allowed,
    )

transition_cases :
    (current target : String)
    → can_transition task_status_transitions current target ≡ true
    → (current ≡ target) ⊎ (mem target (targets (lookup current task_status_transitions)) ≡ true)
unfolding can_transition
transition_cases current target h = elim (Bool-cases (str_eq current target)) [
  | inl same ↦ inl ((eq_iff current target).0 same)
  | inr other ↦ inr (rw other at h)
]

or_default_twice : (x : String) → or_default "draft" (or_default "draft" x) ≡ or_default "draft" x
or_default_twice x = elim (Bool-cases (non_empty x)) [
  | inl some_text ↦ rw (some_text, some_text) refl
  | inr empty ↦ rw empty refl
]

-- What holds of each entry of the table holds of an update that changes the status.
pub update_entry :
    (p : String → String → Bool) (s s' : Store) (status : String) (step event : Option String)
    (detail : Option Fields)
    → holds_of p task_status_transitions ≡ true
    → set_task_status s status step event detail false ≡ ok s'
    → (current_status s' ≡ current_status s) ⊎ (p (current_status s) (current_status s') ≡ true)
update_entry p s s' status step event detail closed h =
    let (new, allowed) = update_lem s s' status step event detail h in
    elim (transition_cases (current_status s) status allowed) [
      | inl same ↦ inl (
          ap (or_default "draft") new
          ∙ ap (or_default "draft") (sym same)
          ∙ or_default_twice s.task.status)
      | inr member ↦
          let named : non_empty status ≡ true =
            holds_of-mem (λ c t. non_empty t) (current_status s) status task_status_transitions
              (unfold task_status_transitions in refl) member in
          let kept : current_status s' ≡ status = rw (new, named) refl in
          inr (
            rw kept
              (holds_of-mem p (current_status s) status task_status_transitions closed member))
    ]

module _ (safe gate : String → Bool) where
  -- No entry of the table leads out of the safe statuses but through a gate.
  abbrev pub guarded : String → String → Bool
  guarded current target = not (safe current) || (safe target || gate target)

  or_gate :
      (current target : String)
      → guarded current target ≡ true
      → safe current ≡ true
      → (safe target ≡ true) ⊎ (gate target ≡ true)
  or_gate current target h k = ground arith

  pub run_guarded :
      {s s' : Store} {passed : List String}
      → holds_of guarded task_status_transitions ≡ true
      → (safe (current_status s) || gate (current_status s)) ≡ true
      → Run s passed s'
      → (safe (current_status s') ≡ true) ⊎ (any gate passed ≡ true)
  run_guarded closed at_first start = elim (or_parts _ _ at_first) [
    | inl inside ↦ inl inside
    | inr gated ↦ inr (or_left _ _ gated)
  ]
  run_guarded closed at_first (update status step event detail run h) =
      elim (run_guarded closed at_first run) [
        | inr through ↦ inr (or_right _ _ through)
        | inl inside ↦ elim (update_entry guarded _ _ status step event detail closed h) [
          | inl same ↦ inl (ap safe same ∙ inside)
          | inr moved ↦ elim (or_gate _ _ moved inside) [
            | inl still ↦ inl still
            | inr gated ↦ inr (or_left _ _ gated)
          ]
        ]
      ]

abbrev pub is_terminal : String → Bool
is_terminal status =
    str_eq status "success" || (str_eq status "failed" || str_eq status "cancelled")

-- A task that has succeeded, failed or been cancelled keeps that status over every run of updates
-- that are not forced.
pub terminal_absorbing :
    {s s' : Store} {passed : List String}
    → is_terminal (current_status s) ≡ true
    → Run s passed s'
    → current_status s' ≡ current_status s
terminal_absorbing ended start = refl
terminal_absorbing ended (update status step event detail run h) =
    let same = terminal_absorbing ended run in
    elim (update_entry (λ c t. not (is_terminal c)) _ _ status step event detail
      (unfold task_status_transitions in refl) h) [
        | inl kept ↦ kept ∙ same
        | inr open_still ↦ ground (arith, ap is_terminal same)
      ]

-- A run of updates that are not forced takes a task to success only through the status "running",
-- or from success itself.
pub succeeded_ran :
    {s s' : Store} {passed : List String}
    → str_eq (current_status s) "success" ≡ false
    → Run s passed s'
    → current_status s' ≡ "success"
    → any (λ status. str_eq status "running") passed ≡ true
succeeded_ran {s} {s'} fresh run h =
    elim (run_guarded (λ c. not (str_eq c "success") && not (str_eq c "running"))
      (λ c. str_eq c "running") (unfold task_status_transitions in refl) (ground (arith, fresh))
      run) [
        | inr ran ↦ ran
        | inl still ↦
            let ended : str_eq (current_status s') "success" ≡ true = rw h refl in
            ground (arith, still, ended)
      ]

abbrev pub is_undecided_or_closed : String → Bool
is_undecided_or_closed c =
    str_eq c "awaiting_approval" || (str_eq c "cancelled" || str_eq c "failed")

abbrev pub is_way_on : String → Bool
is_way_on c = str_eq c "approved" || str_eq c "waiting_clarification"

-- From the status "awaiting_approval", a run of updates that are not forced passes "approved" or
-- "waiting_clarification", or it ends awaiting approval, cancelled or failed.
pub approval_gates_work :
    {s s' : Store} {passed : List String}
    → current_status s ≡ "awaiting_approval"
    → Run s passed s'
    → (is_undecided_or_closed (current_status s') ≡ true) ⊎ (any is_way_on passed ≡ true)
approval_gates_work awaiting run =
    run_guarded is_undecided_or_closed is_way_on (unfold task_status_transitions in refl)
      (rw awaiting refl) run

-- ===== src/TaskState/Rows.antt =====
-- The rows of steps that packages/domain/services/task_state.py adds past the loaded collection.
use gis_agent.Prelude.{
  ℕ, suc, String, true, false, ◌||◌, Option, none, some, List, [], ◌∷◌, ◌++◌, mem, distinct, str_eq,
  eq_iff, ltb, All, arith, ◌≡◌, refl, sym, ap, ◌∙◌, inl, inr, Bool-cases, subst,
}
use gis_agent.Task.{TaskStep}
use gis_agent.TaskState.{
  find_step, replace_step, new_step, missing_steps, put_row, put_rows, step_names,
}
use gis_agent.TaskState.Moves.{with_step}
use gis_agent.TaskState.Collection.{step_status_of, status_in}

abbrev pub IsPending : TaskStep → Type 0
IsPending step = step.status ≡ "pending"

-- No step of the collection has the name of the row.
abbrev pub IsAbsent : List TaskStep → TaskStep → Type 0
IsAbsent steps row = mem row.step_name (step_names steps) ≡ false

find_step-absent :
    (j : String) (steps : List TaskStep)
    → mem j (step_names steps) ≡ false
    → find_step j steps ≡ none
unfolding find_step mem
find_step-absent j [] away = refl
find_step-absent j (step ∷ steps) away =
    let other : str_eq step.step_name j ≡ false =
      ground (arith, away, eq_iff step.step_name j, eq_iff j step.step_name) in
    rw other (find_step-absent j steps (ground (arith, away)))

mem-put_row :
    (k : String) (row : TaskStep) (steps : List TaskStep)
    → mem k (step_names (put_row row steps)) ≡ (str_eq k row.step_name || mem k (step_names steps))
unfolding mem put_row
mem-put_row k row [] = refl
mem-put_row k row (step ∷ steps) = elim (Bool-cases (ltb row.id step.id)) [
  | inl before ↦ rw before refl
  | inr behind ↦ rw behind (ground (arith, mem-put_row k row steps))
]

-- A row that is pending and whose name is new changes no status, wherever it comes.
step_status_of-put_row :
    (j : String) (row : TaskStep) (steps : List TaskStep)
    → IsPending row
    → IsAbsent steps row
    → step_status_of j (put_row row steps) ≡ step_status_of j steps
unfolding step_status_of find_step put_row mem
step_status_of-put_row j row [] pending away = elim (Bool-cases (str_eq row.step_name j)) [
  | inl here ↦ rw (here, pending) refl
  | inr there ↦ rw there refl
]
step_status_of-put_row j row (step ∷ steps) pending away = elim (Bool-cases (ltb row.id step.id)) [
  | inl before ↦ elim (Bool-cases (str_eq row.step_name j)) [
    | inl here ↦
        let new : find_step j (step ∷ steps) ≡ none = find_step-absent j (step ∷ steps) (
          subst (λ n. mem n (step_names (step ∷ steps)) ≡ false) ((eq_iff row.step_name j).0 here)
            away) in
        rw (before, here, pending) (sym (ap status_in new))
    | inr there ↦ rw (before, there) refl
  ]
  | inr behind ↦ elim (Bool-cases (str_eq step.step_name j)) [
    | inl here ↦ rw (behind, here) refl
    | inr there ↦
        rw (behind, there) (step_status_of-put_row j row steps pending (ground (arith, away)))
  ]
]

still-absent :
    (row : TaskStep) (rows steps : List TaskStep)
    → mem row.step_name (step_names rows) ≡ false
    → All (IsAbsent steps) rows
    → All (IsAbsent (put_row row steps)) rows
unfolding mem
still-absent row [] steps away absent = tt
still-absent row (r ∷ rows) steps away absent = (
  mem-put_row r.step_name row steps
      ∙ ground (
        arith,
        away,
        absent.0,
        eq_iff r.step_name row.step_name,
        eq_iff row.step_name r.step_name,
      ),
  still-absent row rows steps (ground (arith, away)) absent.1,
)

pub step_status_of-put_rows :
    (j : String) (rows steps : List TaskStep)
    → All IsPending rows
    → All (IsAbsent steps) rows
    → distinct (step_names rows) ≡ true
    → step_status_of j (put_rows rows steps) ≡ step_status_of j steps
unfolding put_rows distinct
step_status_of-put_rows j [] steps pending absent unique = refl
step_status_of-put_rows j (row ∷ rows) steps pending absent unique =
    step_status_of-put_rows j rows (put_row row steps) pending.1
      (still-absent row rows steps (ground (arith, unique)) absent.1) (ground (arith, unique))
    ∙ step_status_of-put_row j row steps pending.0 absent.0

mem-replace_step :
    (k name : String) (new : TaskStep) (steps : List TaskStep)
    → new.step_name ≡ name
    → mem k (step_names (replace_step name new steps)) ≡ mem k (step_names steps)
unfolding mem replace_step
mem-replace_step k name new [] named = refl
mem-replace_step k name new (step ∷ steps) named = elim (Bool-cases (str_eq step.step_name name)) [
  | inl same ↦ rw same (
      ap (λ n. str_eq k n || mem k (step_names steps))
        (named ∙ sym ((eq_iff step.step_name name).0 same)))
  | inr other ↦
      rw other (ap (λ b. str_eq k step.step_name || b) (mem-replace_step k name new steps named))
]

mem-snoc :
    (k : String) (steps : List TaskStep) (new : TaskStep)
    → mem k (step_names (steps ++ new ∷ [])) ≡ (mem k (step_names steps) || str_eq k new.step_name)
unfolding mem
mem-snoc k [] new = ground arith
mem-snoc k (step ∷ steps) new = ground (arith, mem-snoc k steps new)

mem-with_step :
    (k : String) (id : ℕ) (task_id name : String) (steps : List TaskStep) (found : Option TaskStep)
    → str_eq k name ≡ false
    → mem k (step_names (with_step id task_id name steps found)) ≡ mem k (step_names steps)
mem-with_step k id task_id name steps none other =
    mem-snoc k steps (new_step id task_id name) ∙ ground (arith, other)
mem-with_step k id task_id name steps (some step) other = refl

-- The rows that wait stay absent when a step of another name is moved.
pub moved-absent :
    (id : ℕ) (task_id name : String) (new : TaskStep) (found : Option TaskStep)
    (rows steps : List TaskStep)
    → new.step_name ≡ name
    → mem name (step_names rows) ≡ false
    → All (IsAbsent steps) rows
    → All (IsAbsent (replace_step name new (with_step id task_id name steps found))) rows
unfolding mem
moved-absent id task_id name new found [] steps named away absent = tt
moved-absent id task_id name new found (row ∷ rows) steps named away absent = (
  mem-replace_step row.step_name name new (with_step id task_id name steps found) named
      ∙ mem-with_step row.step_name id task_id name steps found
          (ground (arith, away, eq_iff name row.step_name, eq_iff row.step_name name))
      ∙ absent.0,
  moved-absent id task_id name new found rows steps named (ground (arith, away)) absent.1,
)

-- The rows of missing names.
module _ (task_id : String) (steps : List TaskStep) where
  pub missing-absent :
      (last : ℕ) (names : List String)
      → All (IsAbsent steps) (missing_steps last task_id (step_names steps) names)
  unfolding missing_steps
  missing-absent last [] = tt
  missing-absent last (name ∷ names) = elim (Bool-cases (mem name (step_names steps))) [
    | inl there ↦ rw there (missing-absent last names)
    | inr new ↦ rw new (new, missing-absent (suc last) names)
  ]

  mem-missing :
      (k : String) (last : ℕ) (names : List String)
      → mem k names ≡ false
      → mem k (step_names (missing_steps last task_id (step_names steps) names)) ≡ false
  unfolding missing_steps mem
  mem-missing k last [] away = refl
  mem-missing k last (name ∷ names) away = elim (Bool-cases (mem name (step_names steps))) [
    | inl there ↦ rw there (mem-missing k last names (ground (arith, away)))
    | inr new ↦ rw new (ground (arith, away, mem-missing k (suc last) names))
  ]

  pub missing-distinct :
      (last : ℕ) (names : List String)
      → distinct names ≡ true
      → distinct (step_names (missing_steps last task_id (step_names steps) names)) ≡ true
  unfolding missing_steps distinct
  missing-distinct last [] unique = refl
  missing-distinct last (name ∷ names) unique = elim (Bool-cases (mem name (step_names steps))) [
    | inl there ↦ rw there (missing-distinct last names (ground (arith, unique)))
    | inr new ↦ rw new (
        ground
          (arith, unique, mem-missing name (suc last) names, missing-distinct (suc last) names))
  ]

-- ===== src/TaskState/Collection.antt =====
-- The collection of a task's steps: what its lookups, its updates and its new rows keep.
use gis_agent.Prelude.{
  String, false, Option, none, some, List, [], ◌∷◌, ◌++◌, mem, str_eq, All, if◌then◌else◌, ◌≡◌,
  refl, ap, inl, inr, eq_iff, Bool-cases, subst, arith, ℕ, suc, ltb,
}
use gis_agent.Task.{TaskStep}
use gis_agent.TaskState.{
  find_step, replace_step, new_step, missing_steps, or_default, put_row, put_rows,
}
use gis_agent.TaskState.Moves.{with_step}

module _ (P : TaskStep → Type 0) where
  pub find_step-All :
      (name : String) (steps : List TaskStep) (step : TaskStep)
      → All P steps
      → find_step name steps ≡ some step
      → P step
  unfolding find_step
  find_step-All name [] step p h = cc
  find_step-All name (x ∷ steps) step p h = elim (Bool-cases (str_eq x.step_name name)) [
    | inl same ↦
        let at_x : some x ≡ some step = rw same at h in let is_x : x ≡ step = cc in subst P is_x p.0
    | inr other ↦ find_step-All name steps step p.1 (rw other at h)
  ]

  pub replace_step-All :
      (name : String) (new : TaskStep) (steps : List TaskStep)
      → P new
      → All P steps
      → All P (replace_step name new steps)
  unfolding replace_step
  replace_step-All name new [] n p = tt
  replace_step-All name new (x ∷ steps) n p = elim (Bool-cases (str_eq x.step_name name)) [
    | inl same ↦ rw same (n, p.1)
    | inr other ↦ rw other (p.0, replace_step-All name new steps n p.1)
  ]

  pub append-All : (xs ys : List TaskStep) → All P xs → All P ys → All P (xs ++ ys)
  append-All [] ys p q = q
  append-All (x ∷ xs) ys p q = (p.0, append-All xs ys p.1 q)

  pub with_step-All :
      (id : ℕ) (task_id name : String) (steps : List TaskStep) (found : Option TaskStep)
      → P (new_step id task_id name)
      → All P steps
      → All P (with_step id task_id name steps found)
  with_step-All id task_id name steps none n p = append-All steps _ p (n, tt)
  with_step-All id task_id name steps (some step) n p = p

  put_row-All :
      (row : TaskStep) (steps : List TaskStep) → P row → All P steps → All P (put_row row steps)
  unfolding put_row
  put_row-All row [] n p = (n, tt)
  put_row-All row (step ∷ steps) n p = elim (Bool-cases (ltb row.id step.id)) [
    | inl before ↦ rw before (n, p)
    | inr behind ↦ rw behind (p.0, put_row-All row steps n p.1)
  ]

  pub put_rows-All :
      (rows steps : List TaskStep) → All P rows → All P steps → All P (put_rows rows steps)
  unfolding put_rows
  put_rows-All [] steps n p = p
  put_rows-All (row ∷ rows) steps n p =
      put_rows-All rows (put_row row steps) n.1 (put_row-All row steps n.0 p)

  pub missing_steps-All :
      (last : ℕ) (task_id : String) (existing names : List String)
      → ((id : ℕ) (name : String) → P (new_step id task_id name))
      → All P (missing_steps last task_id existing names)
  unfolding missing_steps
  missing_steps-All last task_id existing [] n = tt
  missing_steps-All last task_id existing (name ∷ names) n = elim (Bool-cases (mem name existing)) [
    | inl there ↦ rw there (missing_steps-All last task_id existing names n)
    | inr missing ↦
        rw missing (n (suc last) name, missing_steps-All (suc last) task_id existing names n)
  ]

-- The status of the first step of that name, and "pending" where there is none.
abbrev pub status_in : Option TaskStep → String
status_in none = "pending"
status_in (some step) = or_default "pending" step.status

unfoldable pub step_status_of : String → List TaskStep → String
unfolding find_step
step_status_of name steps = status_in (find_step name steps)

pub step_status_of-replace :
    (name j : String) (steps : List TaskStep) (step new : TaskStep)
    → find_step name steps ≡ some step
    → new.step_name ≡ name
    → step_status_of j (replace_step name new steps)
      ≡ (if str_eq name j then or_default "pending" new.status else step_status_of j steps)
unfolding step_status_of find_step replace_step
step_status_of-replace name j [] step new h named = cc
step_status_of-replace name j (x ∷ steps) step new h named =
    elim (Bool-cases (str_eq x.step_name name)) [
      | inl same ↦
          let at_j : str_eq new.step_name j ≡ str_eq name j = ap (λ n. str_eq n j) named in
          let x_at_j : str_eq x.step_name j ≡ str_eq name j =
            ap (λ n. str_eq n j) ((eq_iff x.step_name name).0 same) in
          elim (Bool-cases (str_eq name j)) [
            | inl here ↦ rw (same, at_j, here) refl
            | inr there ↦ rw (same, at_j, there, x_at_j, there) refl
          ]
      | inr other ↦
          let rest = step_status_of-replace name j steps step new (rw other at h) named in
          elim (Bool-cases (str_eq x.step_name j)) [
            | inl here ↦
                let not_named : str_eq name j ≡ false =
                  ground (arith, eq_iff x.step_name j, eq_iff x.step_name name, eq_iff name j) in
                rw (other, here, not_named) refl
            | inr there ↦ rw (other, there) rest
          ]
    ]

-- Steps that are pending change no status when they come last.
pub step_status_of-append :
    (j : String) (steps new : List TaskStep)
    → All (λ step. step.status ≡ "pending") new
    → step_status_of j (steps ++ new) ≡ step_status_of j steps
unfolding step_status_of find_step
step_status_of-append j [] [] pending = refl
step_status_of-append j [] (x ∷ new) pending = elim (Bool-cases (str_eq x.step_name j)) [
  | inl here ↦ rw (here, pending.0) refl
  | inr there ↦ rw there (step_status_of-append j [] new pending.1)
]
step_status_of-append j (x ∷ steps) new pending = elim (Bool-cases (str_eq x.step_name j)) [
  | inl here ↦ rw here refl
  | inr there ↦ rw there (step_status_of-append j steps new pending)
]

-- The row that is added for a missing name changes no status.
pub step_status_of-with :
    (j : String) (id : ℕ) (task_id name : String) (steps : List TaskStep) (found : Option TaskStep)
    → step_status_of j (with_step id task_id name steps found) ≡ step_status_of j steps
step_status_of-with j id task_id name steps none = step_status_of-append j steps _ (refl, tt)
step_status_of-with j id task_id name steps (some step) = refl

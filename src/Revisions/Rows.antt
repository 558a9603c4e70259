-- ===== src/Revisions/Rows.antt =====
-- The rows of `task_spec_revisions` under the changes of
-- packages/domain/services/task_revisions.py.
use gis_agent.Prelude.{
  ℕ, ◌+◌, ◌≤◌, String, true, false, ◌&&◌, List, [], ◌∷◌, mem, distinct, str_eq, eq_iff, ◌==◌,
  if◌then◌else◌, arith, All, ◌≡◌, refl, ap, inl, inr, Bool-cases,
}
use gis_agent.Revisions.{RevisionRecord, active_in, deactivate, change_row}

abbrev pub row_ids : List RevisionRecord → List String
row_ids [] = []
row_ids (row ∷ rows) = row.id ∷ row_ids rows

-- How many rows of a task are active, and how many have a number.
unfoldable pub active_count : String → List RevisionRecord → ℕ
active_count t [] = 0
active_count t (row ∷ rows) = (if active_in t row then 1 else 0) + active_count t rows

unfoldable pub number_count : String → ℕ → List RevisionRecord → ℕ
number_count t n [] = 0
number_count t n (row ∷ rows) =
    (if str_eq row.task_id t && (row.revision_number == n) then 1 else 0) + number_count t n rows

-- What the table and the activations keep: the ids are distinct, a task has a number at most once,
-- and it has one active revision at most.
pub record IsConsistent (rows : List RevisionRecord) : Type 0 where
  pub unique_ids : distinct (row_ids rows) ≡ true
  pub one_number : (t : String) (n : ℕ) → number_count t n rows ≤ 1
  pub one_active : (t : String) → active_count t rows ≤ 1

module _ (t : String) where
  pub row_ids-deactivate : (rows : List RevisionRecord) → row_ids (deactivate t rows) ≡ row_ids rows
  unfolding deactivate
  row_ids-deactivate [] = refl
  row_ids-deactivate (row ∷ rows) = elim (Bool-cases (active_in t row)) [
    | inl yes_active ↦ rw (yes_active, row_ids-deactivate rows) refl
    | inr passive ↦ rw (passive, row_ids-deactivate rows) refl
  ]

  pub number_count-deactivate :
      (u : String) (n : ℕ) (rows : List RevisionRecord)
      → number_count u n (deactivate t rows) ≡ number_count u n rows
  unfolding number_count deactivate
  number_count-deactivate u n [] = refl
  number_count-deactivate u n (row ∷ rows) = elim (Bool-cases (active_in t row)) [
    | inl yes_active ↦ rw (yes_active, number_count-deactivate u n rows) refl
    | inr passive ↦ rw (passive, number_count-deactivate u n rows) refl
  ]

  -- The task has no active row any more, and the other tasks have as many as before or fewer.
  pub active_count-deactivate :
      (rows : List RevisionRecord) → active_count t (deactivate t rows) ≡ 0
  unfolding active_count deactivate
  active_count-deactivate [] = refl
  active_count-deactivate (row ∷ rows) = elim (Bool-cases (active_in t row)) [
    | inl yes_active ↦ rw yes_active (ground (arith, active_count-deactivate rows))
    | inr passive ↦ rw passive (rw passive (omega (arith, active_count-deactivate rows)))
  ]

  pub active_count-deactivate_le :
      (u : String) (rows : List RevisionRecord)
      → active_count u (deactivate t rows) ≤ active_count u rows
  unfolding active_count deactivate
  active_count-deactivate_le u [] = omega arith
  active_count-deactivate_le u (row ∷ rows) = elim (Bool-cases (active_in t row)) [
    | inl yes_active ↦ rw yes_active (ground (arith, active_count-deactivate_le u rows))
    | inr passive ↦ rw passive (omega (arith, active_count-deactivate_le u rows))
  ]

-- A change of a row that keeps its id, its task and its number.
pub record KeepsKey (f : RevisionRecord → RevisionRecord) : Type 0 where
  pub same_id : (row : RevisionRecord) → (f row).id ≡ row.id
  pub same_task : (row : RevisionRecord) → (f row).task_id ≡ row.task_id
  pub same_number : (row : RevisionRecord) → (f row).revision_number ≡ row.revision_number

module _ (id : String) (f : RevisionRecord → RevisionRecord) (k : KeepsKey f) where
  pub row_ids-change_row :
      (rows : List RevisionRecord) → row_ids (change_row id f rows) ≡ row_ids rows
  unfolding change_row
  row_ids-change_row [] = refl
  row_ids-change_row (row ∷ rows) = elim (Bool-cases (str_eq row.id id)) [
    | inl here ↦ rw (here, row_ids-change_row rows, k.same_id row) refl
    | inr other ↦ rw (other, row_ids-change_row rows) refl
  ]

  pub number_count-change_row :
      (u : String) (n : ℕ) (rows : List RevisionRecord)
      → number_count u n (change_row id f rows) ≡ number_count u n rows
  unfolding number_count change_row
  number_count-change_row u n [] = refl
  number_count-change_row u n (row ∷ rows) = elim (Bool-cases (str_eq row.id id)) [
    | inl here ↦
        rw (here, number_count-change_row u n rows, k.same_task row, k.same_number row) refl
    | inr other ↦ rw (other, number_count-change_row u n rows) refl
  ]

  pub change_row-absent :
      (rows : List RevisionRecord) → mem id (row_ids rows) ≡ false → change_row id f rows ≡ rows
  unfolding change_row mem
  change_row-absent [] away = refl
  change_row-absent (row ∷ rows) away =
      let other : str_eq row.id id ≡ false =
        ground (arith, away, eq_iff row.id id, eq_iff id row.id) in
      rw other (ap (λ (l : List RevisionRecord). row ∷ l) (change_row-absent rows (ground arith)))

  -- One row more is active at most.
  pub active_count-change_row :
      (u : String) (rows : List RevisionRecord)
      → distinct (row_ids rows) ≡ true
      → active_count u (change_row id f rows) ≤ active_count u rows + 1
  unfolding active_count change_row distinct
  active_count-change_row u [] unique = omega arith
  active_count-change_row u (row ∷ rows) unique = elim (Bool-cases (str_eq row.id id)) [
    | inl here ↦
        let away : mem id (row_ids rows) ≡ false = ground (arith, unique, eq_iff row.id id) in
        rw (here, change_row-absent rows away) (ground arith)
    | inr other ↦ rw other (omega (arith, active_count-change_row u rows (ground arith)))
  ]

  -- A task that does not own the row has as many active rows as before.
  pub active_count-elsewhere :
      (u : String) (rows : List RevisionRecord)
      → All (λ (row : RevisionRecord). str_eq row.id id ≡ true → str_eq row.task_id u ≡ false) rows
      → active_count u (change_row id f rows) ≡ active_count u rows
  unfolding active_count change_row
  active_count-elsewhere u [] others = refl
  active_count-elsewhere u (row ∷ rows) others = elim (Bool-cases (str_eq row.id id)) [
    | inl here ↦
        rw (here, active_count-elsewhere u rows others.1, k.same_task row, others.0 here) refl
    | inr other ↦ rw (other, active_count-elsewhere u rows others.1) refl
  ]

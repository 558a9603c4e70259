-- ===== src/Revisions/Consistent.antt =====
-- The active revision of a task under the operations of
-- packages/domain/services/task_revisions.py.
use gis_agent.Prelude.{
  ℕ, ◌+◌, String, true, false, not, ◌&&◌, Option, List, [], ◌∷◌, ◌++◌, any, mem, distinct, str_eq,
  eq_iff, ◌==◌, if◌then◌else◌, arith, All, ◌≡◌, refl, ap, inl, inr, Bool-cases, subst, and_parts,
  eq_of_test, ◌≤◌, Bool,
}
use gis_agent.Prelude.Result.{ok, guard-bind, same_value}
use gis_agent.PlanGuard.Graph.Sets.{distinct-snoc}
use gis_agent.Revisions.{
  RevisionRecord, integrity_error, clashes, insert_revision, deactivate, activated, change_row,
  active_tasks,
}
use gis_agent.Revisions.Rows.{
  row_ids, active_count, number_count, IsConsistent, KeepsKey, row_ids-deactivate,
  number_count-deactivate, row_ids-change_row, number_count-change_row,
}

-- The rows with the id belong to the task.
abbrev pub IsOwner : String → String → List RevisionRecord → Type 0
IsOwner id t rows = All (λ (row : RevisionRecord). str_eq row.id id ≡ true → row.task_id ≡ t) rows

pub activated-KeepsKey :
    (held : Bool) (now : ℕ) (previous : Option RevisionRecord)
    → KeepsKey (activated held now previous)
unfolding activated
activated-KeepsKey held now previous = record {
  same_id = λ row. elim (Bool-cases (str_eq row.change_type "correction")) [
    | inl yes_user ↦ rw yes_user refl
    | inr other ↦ rw other refl
  ];
  same_task = λ row. elim (Bool-cases (str_eq row.change_type "correction")) [
    | inl yes_user ↦ rw yes_user refl
    | inr other ↦ rw other refl
  ];
  same_number = λ row. elim (Bool-cases (str_eq row.change_type "correction")) [
    | inl yes_user ↦ rw yes_user refl
    | inr other ↦ rw other refl
  ];
}

-- Active rows of distinct tasks are at most one for each task.
active_count-none :
    (t : String) (rows : List RevisionRecord)
    → mem t (active_tasks rows) ≡ false
    → active_count t rows ≡ 0
unfolding active_count mem
active_count-none t [] away = refl
active_count-none t (row ∷ rows) away = elim (Bool-cases row.is_active) [
  | inl yes_active ↦
      let others = rw yes_active at away in
      ground (
        arith,
        others,
        yes_active,
        active_count-none t rows,
        eq_iff t row.task_id,
        eq_iff row.task_id t,
      )
  | inr passive ↦
      let others = rw passive at away in ground (arith, passive, active_count-none t rows others)
]

active_count-distinct :
    (t : String) (rows : List RevisionRecord)
    → distinct (active_tasks rows) ≡ true
    → active_count t rows ≤ 1
unfolding active_count distinct
active_count-distinct t [] unique = omega arith
active_count-distinct t (row ∷ rows) unique = elim (Bool-cases row.is_active) [
  | inl yes_active ↦
      let (new, rest) =
        and_parts (not (mem row.task_id (active_tasks rows))) _ (rw yes_active at unique) in
      let at_most = active_count-distinct t rows rest in
      elim (Bool-cases (str_eq row.task_id t)) [
        | inl same ↦
            let away : mem t (active_tasks rows) ≡ false =
              subst (λ u. mem u (active_tasks rows) ≡ false) ((eq_iff row.task_id t).0 same)
                (ground (arith, new)) in
            ground (arith, same, yes_active, active_count-none t rows away)
        | inr other ↦ ground (arith, other, at_most)
      ]
  | inr passive ↦
      let at_most = active_count-distinct t rows (rw passive at unique) in
      ground (arith, passive, at_most)
]

module _ (id t : String) (f : RevisionRecord → RevisionRecord) (k : KeepsKey f)
    (rows : List RevisionRecord) (c : IsConsistent rows) where
  pub change-IsConsistent :
      distinct (active_tasks (change_row id f (deactivate t rows))) ≡ true
      → IsConsistent (change_row id f (deactivate t rows))
  change-IsConsistent unique_active = record {
    unique_ids =
        rw (row_ids-change_row id f k (deactivate t rows), row_ids-deactivate t rows) c.unique_ids;
    one_number = λ u n.
        rw
          (
            number_count-change_row id f k u n (deactivate t rows),
            number_count-deactivate t u n rows,
          )
          (c.one_number u n);
    one_active = λ u. active_count-distinct u _ unique_active;
  }

-- A new row that clashes with none and is not active.
row_ids-snoc :
    (rows : List RevisionRecord) (new : RevisionRecord)
    → row_ids (rows ++ new ∷ []) ≡ row_ids rows ++ new.id ∷ []
row_ids-snoc [] new = refl
row_ids-snoc (row ∷ rows) new = ap (λ (l : List String). row.id ∷ l) (row_ids-snoc rows new)

active_count-snoc :
    (t : String) (rows : List RevisionRecord) (new : RevisionRecord)
    → new.is_active ≡ false
    → active_count t (rows ++ new ∷ []) ≡ active_count t rows
unfolding active_count
active_count-snoc t [] new passive = ground (arith, passive)
active_count-snoc t (row ∷ rows) new passive = omega (arith, active_count-snoc t rows new passive)

number_count-snoc :
    (t : String) (n : ℕ) (rows : List RevisionRecord) (new : RevisionRecord)
    → number_count t n (rows ++ new ∷ [])
      ≡ number_count t n rows
        + (if str_eq new.task_id t && (new.revision_number == n) then 1 else 0)
unfolding number_count
number_count-snoc t n [] new = omega arith
number_count-snoc t n (row ∷ rows) new = omega (arith, number_count-snoc t n rows new)

pub no_clash_id :
    (new : RevisionRecord) (rows : List RevisionRecord)
    → any (clashes new) rows ≡ false
    → mem new.id (row_ids rows) ≡ false
unfolding mem
no_clash_id new [] h = refl
no_clash_id new (row ∷ rows) h =
    ground (arith, h, no_clash_id new rows, eq_iff new.id row.id, eq_iff row.id new.id)

no_clash_number :
    (new : RevisionRecord) (rows : List RevisionRecord)
    → any (clashes new) rows ≡ false
    → number_count new.task_id new.revision_number rows ≡ 0
unfolding number_count
no_clash_number new [] h = refl
no_clash_number new (row ∷ rows) h = ground (arith, h, no_clash_number new rows)

pub insert-IsConsistent :
    (new : RevisionRecord) (rows rows' : List RevisionRecord)
    → new.is_active ≡ false
    → insert_revision new rows ≡ ok rows'
    → IsConsistent rows
    → IsConsistent rows' × (any (clashes new) rows ≡ false) × (rows ++ new ∷ [] ≡ rows')
unfolding insert_revision
insert-IsConsistent new rows rows' passive h c =
    let (free, added) = guard-bind (not (any (clashes new) rows)) integrity_error _ h in
    let clear : any (clashes new) rows ≡ false = ground (arith, free) in
    let same = same_value added in
    (
      subst IsConsistent same (record {
        unique_ids =
            rw (row_ids-snoc rows new)
              (distinct-snoc new.id (row_ids rows) c.unique_ids (no_clash_id new rows clear));
        one_number = λ t n. elim (Bool-cases (str_eq new.task_id t && (new.revision_number == n))) [
          | inl here ↦
              let none_there : number_count t n rows ≡ 0 =
                number_at t n here (no_clash_number new rows clear) in
              let added_here = number_count-snoc t n rows new in
              ground (arith, added_here, none_there, here)
          | inr other ↦
              let added_here = number_count-snoc t n rows new in
              ground (arith, added_here, other, c.one_number t n)
        ];
        one_active = λ t. omega (arith, active_count-snoc t rows new passive, c.one_active t);
      }),
      clear,
      same,
    )
  where
    number_at :
        (t : String) (n : ℕ)
        → (str_eq new.task_id t && (new.revision_number == n)) ≡ true
        → number_count new.task_id new.revision_number rows ≡ 0
        → number_count t n rows ≡ 0
    number_at t n here zero_there =
        let (same_task, same_number) =
          and_parts (str_eq new.task_id t) (new.revision_number == n) here in
        subst (λ u. number_count u n rows ≡ 0) ((eq_iff new.task_id t).0 same_task)
          (subst (λ m. number_count new.task_id m rows ≡ 0)
            (eq_of_test new.revision_number n same_number) zero_there)

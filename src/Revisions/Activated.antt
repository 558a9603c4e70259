-- ===== src/Revisions/Activated.antt =====
-- The active revision of a task behind `activate_revision` of
-- packages/domain/services/task_revisions.py.
use gis_agent.Prelude.{
  ℕ, ◌+◌, String, Bool, true, false, Option, some, List, [], ◌∷◌, keep, mem, distinct, str_eq,
  eq_iff, arith, All, ◌≡◌, refl, ◌∙◌, inl, inr, Bool-cases, subst,
}
use gis_agent.Prelude.Result.{ok, bind-ok, same_value, guard-bind}
use gis_agent.Prelude.Dict.{Dict}
use gis_agent.Value.{Value}
use gis_agent.Revisions.{
  RevisionRecord, Revisions, active_in, get_active_revision, deactivate, count_of, activated,
  change_row, mirror_to_task_spec, activate_revision, active_tasks, flush_active, integrity_error,
}
use gis_agent.Revisions.Rows.{
  row_ids, IsConsistent, KeepsKey, row_ids-deactivate, change_row-absent,
}
use gis_agent.Revisions.Consistent.{IsOwner, activated-KeepsKey}

-- No row of the task is active.
abbrev IsQuiet : String → List RevisionRecord → Type 0
IsQuiet t rows = All (λ row. active_in t row ≡ false) rows

deactivate-IsQuiet : (t : String) (rows : List RevisionRecord) → IsQuiet t (deactivate t rows)
unfolding deactivate
deactivate-IsQuiet t [] = tt
deactivate-IsQuiet t (row ∷ rows) = elim (Bool-cases (active_in t row)) [
  | inl yes_active ↦ rw yes_active (ground arith, deactivate-IsQuiet t rows)
  | inr passive ↦ rw passive (passive, deactivate-IsQuiet t rows)
]

deactivate-IsOwner :
    (id t : String) (rows : List RevisionRecord)
    → IsOwner id t rows
    → IsOwner id t (deactivate t rows)
unfolding deactivate
deactivate-IsOwner id t [] owner = tt
deactivate-IsOwner id t (row ∷ rows) owner = elim (Bool-cases (active_in t row)) [
  | inl yes_active ↦ rw yes_active (owner.0, deactivate-IsOwner id t rows owner.1)
  | inr passive ↦ rw passive (owner.0, deactivate-IsOwner id t rows owner.1)
]

keep_quiet :
    (t : String) (rows : List RevisionRecord) → IsQuiet t rows → keep (active_in t) rows ≡ []
keep_quiet t [] h = refl
keep_quiet t (row ∷ rows) h = rw (h.0, keep_quiet t rows h.1) refl

-- The one row that is active when a quiet table gets the change of an activation.
module _ (id t : String) (f : RevisionRecord → RevisionRecord) (k : KeepsKey f)
    (wakes : (row : RevisionRecord) → row.task_id ≡ t → active_in t (f row) ≡ true) where
  the_active :
      (rows : List RevisionRecord)
      → IsQuiet t rows
      → distinct (row_ids rows) ≡ true
      → mem id (row_ids rows) ≡ true
      → IsOwner id t rows
      → (row : RevisionRecord) × (keep (active_in t) (change_row id f rows) ≡ f row ∷ [])
        × (row.id ≡ id)
  unfolding change_row distinct mem
  the_active [] quiet unique there owner = cc
  the_active (row ∷ rows) quiet unique there owner = elim (Bool-cases (str_eq row.id id)) [
    | inl here ↦
        let away : mem id (row_ids rows) ≡ false = ground (arith, unique, eq_iff row.id id) in
        (
          row,
          rw
              (
                here,
                change_row-absent id f k rows away,
                wakes row (owner.0 here),
                keep_quiet t rows quiet.1,
              )
              refl,
          (eq_iff row.id id).0 here,
        )
    | inr other ↦
        let (found, kept_one, same) =
          the_active rows quiet.1 (ground arith)
            (ground (arith, other, there, eq_iff row.id id, eq_iff id row.id)) owner.1 in
        (found, rw (other, quiet.0) kept_one, same)
  ]

-- What an activation leaves.
pub record IsActivated (revision : RevisionRecord) (s s' : Revisions) : Type 0 where
  pub previous : Option RevisionRecord
  pub was_active : get_active_revision s.rows s.task.id ≡ ok previous
  pub row : RevisionRecord
  pub now_active : get_active_revision s'.rows s.task.id ≡ ok (some row)
  pub is_it : row.id ≡ revision.id
  pub counted :
      str_eq row.change_type "correction" ≡ true → row.user_revision_count ≡ count_of previous + 1

-- The object of the revision is not held as active.
module _ (held : Bool) (fresh : held ≡ false) (now : ℕ) (previous : Option RevisionRecord) where
  activated-wakes :
      (t : String) (row : RevisionRecord)
      → row.task_id ≡ t
      → active_in t (activated held now previous row) ≡ true
  unfolding activated
  activated-wakes t row e = elim (Bool-cases (str_eq row.change_type "correction")) [
    | inl yes_user ↦ rw yes_user (ground (arith, eq_iff row.task_id t, e))
    | inr other ↦ rw other (ground (arith, eq_iff row.task_id t, e))
  ]

  activated-counted :
      (row : RevisionRecord)
      → str_eq (activated held now previous row).change_type "correction" ≡ true
      → (activated held now previous row).user_revision_count ≡ count_of previous + 1
  unfolding activated
  activated-counted row = elim (Bool-cases (str_eq row.change_type "correction")) [
    | inl yes_user ↦ rw yes_user (λ h. refl)
    | inr other ↦ rw other (λ h. absurd (ground (arith, other, h)))
  ]

module _ (parses : Dict Value → Bool) where
  -- When an activation of a revision of the task, which the session does not hold as active, returns,
  -- over consistent rows, the active revision of the task is that one and no other, and if it is a
  -- correction by the user, it counts one correction more than the revision that was active before, or
  -- is the first.
  pub activate-IsActivated :
      (now : ℕ) (mirror : Bool) (revision : RevisionRecord) (s s' : Revisions)
      → IsConsistent s.rows
      → IsOwner revision.id s.task.id s.rows
      → mem revision.id (row_ids s.rows) ≡ true
      → revision.is_active ≡ false
      → activate_revision parses now mirror revision s ≡ ok s'
      → IsActivated revision s s'
  unfolding activate_revision get_active_revision flush_active
  activate-IsActivated now mirror revision s s' c owner there fresh h =
      let t = s.task.id in
      let (previous, h1, found) = bind-ok (get_active_revision s.rows t) _ h in
      let (task, h2, _) = bind-ok (mirror_to_task_spec parses mirror revision _) _ h1 in
      let f = activated revision.is_active now previous in
      let k = activated-KeepsKey revision.is_active now previous in
      let quiet = deactivate t s.rows in
      let (row, one, same) =
        the_active revision.id t f k (activated-wakes revision.is_active fresh now previous t) quiet
          (deactivate-IsQuiet t s.rows) (rw (row_ids-deactivate t s.rows) c.unique_ids)
          (rw (row_ids-deactivate t s.rows) there)
          (deactivate-IsOwner revision.id t s.rows owner) in
      let changed = change_row revision.id f quiet in
      let (rows, h3, flushed) = bind-ok (flush_active changed) _ h2 in
      let (_, kept) = guard-bind (distinct (active_tasks changed)) integrity_error _ flushed in
      let active =
        subst (λ r. get_active_revision r t ≡ ok (some (f row))) (same_value kept) (rw one refl) in
      subst (IsActivated revision s) (same_value h3) (record {
        previous = previous;
        was_active = found;
        row = f row;
        now_active = active;
        is_it = k.same_id row ∙ same;
        counted = activated-counted revision.is_active fresh now previous row;
      })

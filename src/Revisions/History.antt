-- ===== src/Revisions/History.antt =====
-- What happens to the revisions of a task over the operations of
-- packages/domain/services/task_revisions.py.
use gis_agent.Prelude.{
  ℕ, String, Bool, true, Option, none, some, distinct, ◌≡◌, refl, inl, inr, Option-cases, subst,
}
use gis_agent.Prelude.Result.{Result, ok, err, bind-ok, guard-bind, same_value}
use gis_agent.Prelude.Dict.{Dict}
use gis_agent.Value.{Value}
use gis_agent.Revisions.{
  RevisionRecord, Revisions, integrity_error, RevisionError, UnderstandingLike, get_active_revision,
  insert_revision, initial_revision, correction_revision, legacy_revision, create_initial_revision,
  create_correction_revision, activated, deactivate, change_row, active_tasks, flush_active,
  mirror_to_task_spec, activate_revision, backfill, ensure_initial_revision,
}
use gis_agent.Revisions.Rows.{IsConsistent}
use gis_agent.Revisions.Consistent.{activated-KeepsKey, change-IsConsistent, insert-IsConsistent}

module _ (parses : Dict Value → Bool) where
  activate-IsConsistent :
      (now : ℕ) (mirror : Bool) (revision : RevisionRecord) (s s' : Revisions)
      → activate_revision parses now mirror revision s ≡ ok s'
      → IsConsistent s.rows
      → IsConsistent s'.rows
  unfolding activate_revision flush_active
  activate-IsConsistent now mirror revision s s' h c =
      let (previous, h1, _) = bind-ok (get_active_revision s.rows s.task.id) _ h in
      let (task, h2, _) = bind-ok (mirror_to_task_spec parses mirror revision _) _ h1 in
      let f = activated revision.is_active now previous in
      let changed = change_row revision.id f (deactivate s.task.id s.rows) in
      let (rows, h3, flushed) = bind-ok (flush_active changed) _ h2 in
      let (unique, kept) = guard-bind (distinct (active_tasks changed)) integrity_error _ flushed in
      subst (λ (r : Revisions). IsConsistent r.rows) (same_value h3)
        (subst IsConsistent (same_value kept) (
          change-IsConsistent revision.id s.task.id f
            (activated-KeepsKey revision.is_active now previous) s.rows c unique))

  -- The operations in a row, on the task of the session.
  pub data Changes (s : Revisions) : Revisions → Type 0 where
    unchanged : Changes s s
    created :
        {s1 s2 : Revisions} (id : String) (understanding : UnderstandingLike) (message_id : String)
        → Changes s s1
        → create_initial_revision id understanding message_id s1 ≡ ok s2
        → Changes s s2
    corrected :
        {s1 s2 : Revisions} (id : String) (base : RevisionRecord)
        (understanding : UnderstandingLike) (message_id : String)
        → Changes s s1
        → create_correction_revision id base understanding message_id s1 ≡ ok s2
        → Changes s s2
    made_active :
        {s1 s2 : Revisions} (now : ℕ) (mirror : Bool) (revision : RevisionRecord)
        → Changes s s1
        → activate_revision parses now mirror revision s1 ≡ ok s2
        → Changes s s2
    ensured :
        {s1 s2 : Revisions} (now : ℕ) (id : String)
        → Changes s s1
        → ensure_initial_revision parses now id s1 ≡ ok s2
        → Changes s s2

  backfill-IsConsistent :
      (now : ℕ) (id : String) (s s' : Revisions)
      → backfill parses now id s ≡ ok s'
      → IsConsistent s.rows
      → IsConsistent s'.rows
  unfolding backfill
  backfill-IsConsistent now id s s' h c = elim (Option-cases s.task.task_spec) [
    | inl no_spec ↦ let wrong : err integrity_error ≡ ok s' = rw (backfill, no_spec) at h in cc
    | inr (spec, found) ↦
        let new = legacy_revision id s.task spec in
        let (rows, h1, inserted) =
          bind-ok (insert_revision new s.rows) _ (rw (backfill, found) at h) in
        let (consistent, _, _) = insert-IsConsistent new s.rows rows refl inserted c in
        activate-IsConsistent now true new (record s { rows = rows }) s' h1 consistent
  ]

  ensure-IsConsistent :
      (now : ℕ) (id : String) (s s' : Revisions)
      → ensure_initial_revision parses now id s ≡ ok s'
      → IsConsistent s.rows
      → IsConsistent s'.rows
  unfolding ensure_initial_revision
  ensure-IsConsistent now id s s' h c =
      let (existing, h1, _) = bind-ok (get_active_revision s.rows s.task.id) _ h in
      by_existing existing h1
    where
      by_existing :
          (existing : Option RevisionRecord)
          → (elim existing as (λ _. Result RevisionError Revisions) [
            | none ↦ backfill parses now id s
            | some row ↦ ok s
          ])
            ≡ ok s'
          → IsConsistent s'.rows
      by_existing (some row) h1 = subst (λ (r : Revisions). IsConsistent r.rows) (same_value h1) c
      by_existing none h1 = backfill-IsConsistent now id s s' h1 c

  pub changes-IsConsistent :
      {s s' : Revisions} → Changes s s' → IsConsistent s.rows → IsConsistent s'.rows
  unfolding create_initial_revision create_correction_revision
  changes-IsConsistent unchanged c = c
  changes-IsConsistent (created {s1} id understanding message_id before h) c =
      let (rows, h1, inserted) =
        bind-ok (insert_revision (initial_revision id s1.task understanding message_id) s1.rows) _
          h in
      subst (λ (r : Revisions). IsConsistent r.rows) (same_value h1)
        (insert-IsConsistent _ s1.rows rows refl inserted (changes-IsConsistent before c)).0
  changes-IsConsistent (corrected {s1} id base understanding message_id before h) c =
      let (rows, h1, inserted) =
        bind-ok
          (insert_revision (correction_revision id s1.task base understanding message_id) s1.rows) _
          h in
      subst (λ (r : Revisions). IsConsistent r.rows) (same_value h1)
        (insert-IsConsistent _ s1.rows rows refl inserted (changes-IsConsistent before c)).0
  changes-IsConsistent {s' = s'} (made_active {s1} now mirror revision before h) c =
      activate-IsConsistent now mirror revision s1 s' h (changes-IsConsistent before c)
  changes-IsConsistent {s' = s'} (ensured {s1} now id before h) c =
      ensure-IsConsistent now id s1 s' h (changes-IsConsistent before c)

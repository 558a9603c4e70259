-- ===== src/Revisions.antt =====
-- packages/domain/services/task_revisions.py: the revisions of the specification of a task. The rows
-- are those of one session of the database; a time is the number of a clock that a caller reads.
pub mod Rows
pub mod Consistent
pub mod History
pub mod Activated
use gis_agent.Prelude.{
  ℕ, suc, ◌+◌, String, Bool, true, false, not, ◌&&◌, ◌||◌, Option, none, some, List, [], ◌∷◌, ◌++◌,
  map, keep, any, str_eq, ◌==◌, if◌then◌else◌, distinct,
}
use gis_agent.Prelude.Result.{Result, ok, err, ◌>>=◌, ◌>>◌, guard}
use gis_agent.Prelude.Dict.{Dict}
use gis_agent.Value.{Value}

-- A row of `task_spec_revisions`, by the columns that the operations read or write.
pub record RevisionRecord : Type 0 where
  pub id : String
  pub task_id : String
  pub revision_number : ℕ
  pub base_revision_id : Option String
  pub source_message_id : String
  pub change_type : String
  pub is_active : Bool
  pub understanding_intent : String
  pub understanding_summary : Option String
  pub raw_spec_json : Dict Value
  pub response_mode : Option String
  pub user_revision_count : ℕ
  pub user_last_revision_at : Option ℕ

-- The columns of a task that an activation reads or writes, and `raw_spec_json` of its row in
-- `task_specs`, if it has one.
pub record RevisedTask : Type 0 where
  pub id : String
  pub status : String
  pub user_message_id : String
  pub last_understanding_message_id : Option String
  pub last_response_mode : Option String
  pub task_spec : Option (Dict Value)

-- The event and the link that an activation leaves in the session memory.
pub record Activation : Type 0 where
  pub message_id : String
  pub task_id : String
  pub revision_id : String
  pub revision_number : ℕ
  pub change_type : String

pub record Revisions : Type 0 where
  pub rows : List RevisionRecord
  pub task : RevisedTask
  pub memory : List Activation

pub data RevisionError : Type 0 where
  integrity_error : RevisionError
  multiple_results : RevisionError
  invalid_spec : RevisionError

-- What an understanding brings into a revision; `spec` is `raw_spec_json`, or the dump of
-- `parsed_spec`, or an empty object.
pub record UnderstandingLike : Type 0 where
  pub intent : String
  pub summary : Option String
  pub spec : Dict Value

abbrev pub active_in : String → RevisionRecord → Bool
active_in task_id row = str_eq row.task_id task_id && row.is_active

-- `query.one_or_none()`
abbrev pub one_or_none : List RevisionRecord → Result RevisionError (Option RevisionRecord)
one_or_none [] = ok none
one_or_none (row ∷ []) = ok (some row)
one_or_none (row ∷ other ∷ rows) = err multiple_results

-- `get_active_revision`
unfoldable pub get_active_revision :
    List RevisionRecord → String → Result RevisionError (Option RevisionRecord)
get_active_revision rows task_id = one_or_none (keep (active_in task_id) rows)

-- A row clashes with another one in its id, in its task and its number, or in its task if both are
-- active.
abbrev pub clashes : RevisionRecord → RevisionRecord → Bool
clashes new row =
    str_eq row.id new.id
    || str_eq row.task_id new.task_id
      && ((row.revision_number == new.revision_number) || row.is_active && new.is_active)

-- `db.add(revision)` and `db.flush()`, under the unique indices of the table.
unfoldable pub insert_revision :
    RevisionRecord → List RevisionRecord → Result RevisionError (List RevisionRecord)
insert_revision new rows = do
  guard (not (any (clashes new) rows)) integrity_error
  ok (rows ++ new ∷ [])

-- The new row of `create_initial_revision`.
abbrev pub initial_revision : String → RevisedTask → UnderstandingLike → String → RevisionRecord
initial_revision id task understanding message_id = record {
  id = id;
  task_id = task.id;
  revision_number = 1;
  base_revision_id = none;
  source_message_id = message_id;
  change_type = "initial_parse";
  is_active = false;
  understanding_intent = understanding.intent;
  understanding_summary = understanding.summary;
  raw_spec_json = understanding.spec;
  response_mode = none;
  user_revision_count = 0;
  user_last_revision_at = none;
}

-- The new row of `create_correction_revision`.
abbrev pub correction_revision :
    String → RevisedTask → RevisionRecord → UnderstandingLike → String → RevisionRecord
correction_revision id task base understanding message_id =
    record (initial_revision id task understanding message_id) {
      revision_number = base.revision_number + 1;
      base_revision_id = some base.id;
      change_type = "correction";
    }

abbrev pub or_message : Option String → String → String
or_message none message_id = message_id
or_message (some message_id) other = message_id

-- The new row of `_materialize_initial_revision_from_legacy_task_spec`.
abbrev pub legacy_revision : String → RevisedTask → Dict Value → RevisionRecord
legacy_revision id task spec =
    record (initial_revision id task
      (record { intent = "legacy_materialized"; summary = none; spec = spec })
      (or_message task.last_understanding_message_id task.user_message_id)) {
        change_type = "legacy_backfill";
        response_mode = task.last_response_mode;
      }

abbrev pub with_row : Revisions → List RevisionRecord → Revisions
with_row s rows = record s { rows = rows }

-- `create_initial_revision`; `id` is the id that `make_id` makes.
unfoldable pub create_initial_revision :
    String → UnderstandingLike → String → Revisions → Result RevisionError Revisions
unfolding insert_revision
create_initial_revision id understanding message_id s = do
  rows ← insert_revision (initial_revision id s.task understanding message_id) s.rows
  ok (with_row s rows)

-- `create_correction_revision`
unfoldable pub create_correction_revision :
    String
    → RevisionRecord
    → UnderstandingLike
    → String
    → Revisions
    → Result RevisionError Revisions
unfolding insert_revision
create_correction_revision id base understanding message_id s = do
  rows ← insert_revision (correction_revision id s.task base understanding message_id) s.rows
  ok (with_row s rows)

-- `.update({is_active: False})` on the active rows of a task.
unfoldable pub deactivate : String → List RevisionRecord → List RevisionRecord
deactivate task_id [] = []
deactivate task_id (row ∷ rows) =
    (if active_in task_id row then record row { is_active = false } else row)
    ∷ deactivate task_id rows

abbrev count_of : Option RevisionRecord → ℕ
count_of none = 0
count_of (some row) = row.user_revision_count

-- What the row of an object that is set active becomes: an object that the session holds as active
-- is not changed, so that nothing is written, and the row stays what the bulk update made of it.
abbrev pub set_active : Bool → Bool → Bool
set_active true in_row = in_row
set_active false in_row = true

-- What an activation writes to the row of a revision; `held` is what the session holds as its
-- `is_active`.
unfoldable pub activated : Bool → ℕ → Option RevisionRecord → RevisionRecord → RevisionRecord
activated held now previous row =
    if str_eq row.change_type "correction"
    then record row {
      is_active = set_active held row.is_active;
      user_revision_count = count_of previous + 1;
      user_last_revision_at = some now;
    }
    else record row { is_active = set_active held row.is_active }

-- The changes of an object that is a row, by its id.
unfoldable pub change_row :
    String → (RevisionRecord → RevisionRecord) → List RevisionRecord → List RevisionRecord
change_row id f [] = []
change_row id f (row ∷ rows) = (if str_eq row.id id then f row else row) ∷ change_row id f rows

-- The tasks of the active rows.
abbrev pub active_tasks : List RevisionRecord → List String
active_tasks [] = []
active_tasks (row ∷ rows) =
    let rest = active_tasks rows in if row.is_active then row.task_id ∷ rest else rest

-- `db.flush()` behind an update of `is_active`, under the unique index of the active rows.
unfoldable pub flush_active : List RevisionRecord → Result RevisionError (List RevisionRecord)
unfolding distinct
flush_active rows = guard (distinct (active_tasks rows)) integrity_error >> ok rows

-- `ParsedTaskSpec(**raw_spec)` returns for these specifications.
module _ (parses : Dict Value → Bool) where
  -- `_mirror_revision_to_task_spec`
  abbrev pub mirror_to_task_spec :
      Bool → RevisionRecord → RevisedTask → Result RevisionError RevisedTask
  mirror_to_task_spec false revision task = ok task
  mirror_to_task_spec true revision task = do
    guard (parses revision.raw_spec_json) invalid_spec
    ok (record task { task_spec = some revision.raw_spec_json })

  abbrev pub remember : RevisionRecord → String → List Activation → List Activation
  remember revision task_id memory =
      if str_eq revision.change_type "initial_parse"
      then memory
      else memory
        ++ record {
          message_id = revision.source_message_id;
          task_id = task_id;
          revision_id = revision.id;
          revision_number = revision.revision_number;
          change_type = revision.change_type;
        }
          ∷ []

  -- `activate_revision`, of an object as the session holds it.
  unfoldable pub activate_revision :
      ℕ → Bool → RevisionRecord → Revisions → Result RevisionError Revisions
  unfolding get_active_revision deactivate activated change_row flush_active
  activate_revision now mirror revision s = do
    previous ← get_active_revision s.rows s.task.id
    task ← mirror_to_task_spec mirror revision (record s.task {
      last_understanding_message_id = some revision.source_message_id;
      last_response_mode = revision.response_mode;
    })
    rows ← flush_active (
        change_row revision.id (activated revision.is_active now previous)
          (deactivate s.task.id s.rows))
    ok (record { rows = rows; task = task; memory = remember revision s.task.id s.memory })

  -- The savepoint of `ensure_initial_revision_for_task`.
  unfoldable pub backfill : ℕ → String → Revisions → Result RevisionError Revisions
  unfolding insert_revision activate_revision
  backfill now id s = elim s.task.task_spec [
    | none ↦ err integrity_error
    | some spec ↦ do
      rows ← insert_revision (legacy_revision id s.task spec) s.rows
      activate_revision now true (legacy_revision id s.task spec) (with_row s rows)
  ]

  -- `ensure_initial_revision_for_task`. An `IntegrityError` rolls back to the savepoint; the rows that
  -- are read again are then the old ones, which have no active revision, and the error is raised.
  unfoldable pub ensure_initial_revision : ℕ → String → Revisions → Result RevisionError Revisions
  unfolding get_active_revision backfill
  ensure_initial_revision now id s = get_active_revision s.rows s.task.id >>= λ existing.
      elim existing [ none ↦ backfill now id s | some row ↦ ok s ]

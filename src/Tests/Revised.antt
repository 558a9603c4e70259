-- ===== src/Tests/Revised.antt =====
-- A task whose specification is backfilled and corrected, and the theorems about it.
use gis_agent.Prelude.{Bool, true, none, some, [], ◌∷◌, ◌≡◌, refl, mem, distinct, arith}
use gis_agent.Prelude.Result.{Result, ok, err}
use gis_agent.Prelude.Dict.{Dict}
use gis_agent.Value.{Value, str}
use gis_agent.Revisions.{
  RevisionRecord, Revisions, RevisionError, UnderstandingLike, correction_revision, legacy_revision,
  create_correction_revision, activate_revision, ensure_initial_revision,
}
use gis_agent.Revisions.Rows.{IsConsistent, active_count, number_count}
use gis_agent.Revisions.History.{Changes, unchanged, ensured, corrected, changes-IsConsistent}
use gis_agent.Revisions.Activated.{IsActivated, activate-IsActivated}

abbrev fine : Dict Value → Bool
fine spec = true

abbrev old_task : Revisions
old_task = record {
  rows = [];
  task = record {
    id = "task_1";
    status = "success";
    user_message_id = "msg_1";
    last_understanding_message_id = none;
    last_response_mode = none;
    task_spec = some (("aoi_input", str "Beijing") ∷ []);
  };
  memory = [];
}

abbrev or_old : Result RevisionError Revisions → Revisions
or_old (ok s) = s
or_old (err e) = old_task

abbrev backfilled : Revisions
backfilled = or_old (ensure_initial_revision fine 1 "rev_1" old_task)

abbrev first : RevisionRecord
first = legacy_revision "rev_1" old_task.task (("aoi_input", str "Beijing") ∷ [])

abbrev correction : UnderstandingLike
correction = record { intent = "task_correction"; summary = none; spec = [] }

abbrev second : RevisionRecord
second = correction_revision "rev_2" old_task.task first correction "msg_2"

abbrev with_correction : Revisions
with_correction = or_old (create_correction_revision "rev_2" first correction "msg_2" backfilled)

abbrev now_corrected : Revisions
now_corrected = or_old (activate_revision fine 5 true second with_correction)

backfill_returns : ensure_initial_revision fine 1 "rev_1" old_task ≡ ok backfilled
unfolding ensure_initial_revision
backfill_returns = refl

correction_returns :
    create_correction_revision "rev_2" first correction "msg_2" backfilled ≡ ok with_correction
unfolding ensure_initial_revision create_correction_revision
correction_returns = refl

activation_returns : activate_revision fine 5 true second with_correction ≡ ok now_corrected
unfolding ensure_initial_revision create_correction_revision activate_revision
activation_returns = refl

no_rows : IsConsistent old_task.rows
no_rows = record {
  unique_ids = unfold distinct in refl;
  one_number = λ t n. unfold number_count in omega arith;
  one_active = λ t. unfold active_count in omega arith;
}

up_to_correction : Changes fine old_task with_correction
up_to_correction =
    corrected "rev_2" first correction "msg_2" (ensured 1 "rev_1" unchanged backfill_returns)
      correction_returns

activate-IsActivated_example : IsActivated second with_correction now_corrected
unfolding ensure_initial_revision create_correction_revision
activate-IsActivated_example =
    activate-IsActivated fine 5 true second with_correction now_corrected
      (changes-IsConsistent fine up_to_correction no_rows) (λ h. refl, (λ h. refl, tt))
      (unfold mem in refl) refl activation_returns

-- ===== src/Lifecycle/Checks.antt =====
-- `_validate_operation_plan_for_edit` of packages/domain/services/task_lifecycle.py on every plan.
use gis_agent.Prelude.{◌≡◌, ◌⊎◌, inl, inr, refl, ap, ◌∙◌, String}
use gis_agent.Prelude.Result.{ok, err}
use gis_agent.Plan.{OperationPlan}
use gis_agent.PlanGuard.Errors.{
  GuardError, empty_nodes, unknown_operation, unknown_depends_on, dependency_cycle, key_error,
  unknown_input_keys, param_missing, param_any_missing, input_missing, input_ref_unresolved,
  input_type_mismatch, output_missing, output_ref_duplicated, error_code,
}
use gis_agent.PlanGuard.Chain.{Checked, finished, validate_operation_plan}
use gis_agent.PlanGuard.Accepted.{validate-finishes}
use gis_agent.PlanGuard.Raised.{validate_quiet}
use gis_agent.Lifecycle.{
  edit_failed_validation, edit_error, checked_for_edit, validate_operation_plan_for_edit,
}

edit_error-mapped :
    (e : GuardError)
    → ((k : String) → ¬ (e ≡ key_error k))
    → edit_error (error_code e) e ≡ edit_failed_validation e
unfolding error_code
edit_error-mapped empty_nodes other = refl
edit_error-mapped (unknown_operation _ _) other = refl
edit_error-mapped (unknown_depends_on _ _) other = refl
edit_error-mapped dependency_cycle other = refl
edit_error-mapped (unknown_input_keys _ _) other = refl
edit_error-mapped (param_missing _ _ _) other = refl
edit_error-mapped (param_any_missing _ _ _) other = refl
edit_error-mapped (input_missing _ _ _ _) other = refl
edit_error-mapped (input_ref_unresolved _ _ _ _) other = refl
edit_error-mapped (input_type_mismatch _ _ _ _ _ _) other = refl
edit_error-mapped (output_missing _ _ _) other = refl
edit_error-mapped (output_ref_duplicated _ _ _) other = refl
edit_error-mapped (key_error k) other = elim (other k refl) [ ]

-- The check of an edited plan ends on every plan: with what the guard returns, or with the error
-- "plan_edit_invalid" that names an error of the guard. No error passes unmapped.
pub edit_check_total :
    (plan : OperationPlan)
    → ((draft : OperationPlan) × (validate_operation_plan plan ≡ finished (ok draft))
        × (validate_operation_plan_for_edit plan ≡ ok draft))
      ⊎ ((e : GuardError) × (validate_operation_plan plan ≡ finished (err e))
          × (validate_operation_plan_for_edit plan ≡ err (edit_failed_validation e)))
unfolding validate_operation_plan_for_edit
edit_check_total plan = let (r, ends) = validate-finishes plan in by_result r ends
  where
    by_result :
        (r : Checked OperationPlan)
        → validate_operation_plan plan ≡ finished r
        → ((draft : OperationPlan) × (validate_operation_plan plan ≡ finished (ok draft))
            × (checked_for_edit (validate_operation_plan plan) ≡ ok draft))
          ⊎ ((e : GuardError) × (validate_operation_plan plan ≡ finished (err e))
              × (checked_for_edit (validate_operation_plan plan) ≡ err (edit_failed_validation e)))
    by_result (ok draft) e = inl (draft, e, ap checked_for_edit e)
    by_result (err raised) e = inr (
      raised,
      e,
      ap checked_for_edit e
          ∙ ap err (
              edit_error-mapped raised
                (λ k same. validate_quiet plan k (e ∙ ap (λ x. finished (err x)) same))),
    )

-- ===== src/ResponsePolicy.antt =====
-- packages/domain/services/response_policy.py: what to answer to a message that has been understood.
pub mod Preference
pub mod Decide
pub mod Cases
pub mod Execution
pub mod Flags
pub mod Within
pub mod Fields
use gis_agent.Prelude.{
  ℕ, String, Bool, true, false, not, ◌&&◌, ◌||◌, Option, none, some, List, [], ◌∷◌, ◌++◌, mem,
  str_eq, leb, keep, any, all, is_empty, dedup, if◌then◌else◌,
}
use gis_agent.Prelude.Text.{strip, lower, upper, non_empty, append_text}
use gis_agent.Prelude.Result.{Result, ok, err, ◌>>=◌}
use gis_agent.Prelude.Dict.{Dict, lookup, has}
use gis_agent.Value.{Value, str, null, truthy}
use gis_agent.Analysis.{
  UnknownAnalysisType, normalize_analysis_type, analysis_type_requires_time_range,
}

-- `IntentKind`
pub data Intent : Type 0 where
  new_task task_correction task_confirmation task_followup chat ambiguous : Intent

-- `ResponseMode`
pub data ResponseMode : Type 0 where
  execute_now confirm_understanding ask_missing_fields show_revision chat_reply : ResponseMode

-- The fields of `ParsedTaskSpec` that the policy reads; of a time range, whether there is one.
pub record ParsedSpec : Type 0 where
  pub aoi_input : Option String
  pub aoi_source_type : Option String
  pub has_time_range : Bool
  pub analysis_type : String
  pub user_priority : String
  pub missing_fields : List String

-- `MessageUnderstanding`, with the scores of its fields. A score is a float that is not negative, as
-- a multiple of the least such float, so that comparisons are exact.
pub record Understanding : Type 0 where
  pub intent : Intent
  pub understanding_summary : String
  pub parsed_spec : Option ParsedSpec
  pub field_scores : Dict ℕ

-- `ActiveRevisionLike`; `raw_spec` is `none` where the specification is no `dict`.
pub record Revision : Type 0 where
  pub execution_blocked : Bool
  pub execution_blocked_reason : Option String
  pub understanding_summary : Option String
  pub raw_spec : Option (Dict Value)
  pub response_mode : Option String
  pub revision_number : ℕ
  pub change_type : String

-- What `_build_decision` adds to the payload for an active revision.
pub record RevisionPayload : Type 0 where
  pub revision_number : ℕ
  pub revision_change_type : String
  pub active_revision_summary : Option String
  pub active_response_mode : Option String

-- `ResponseDecision`, with the entries of its payload that `_build_decision` does not copy from the
-- understanding.
pub record ResponseDecision : Type 0 where
  pub mode : ResponseMode
  pub assistant_message : String
  pub editable_fields : List String
  pub missing_fields : List String
  pub require_approval : Bool
  pub execution_blocked : Bool
  pub blocked_reason : Option String
  pub requires_task_creation : Bool
  pub requires_revision_creation : Bool
  pub requires_execution : Bool
  pub task_risk : String
  pub confirmation_preference : String
  pub required_fields : List String
  pub revision : Option RevisionPayload

-- `settings.understanding_field_medium_threshold` and `..._high_threshold`
pub record Thresholds : Type 0 where
  pub medium : ℕ
  pub high : ℕ

-- `KEY_FIELDS`
abbrev pub key_fields : List String
key_fields = "aoi_input" ∷ "aoi_source_type" ∷ "time_range" ∷ "analysis_type" ∷ []

pub data Level : Type 0 where
  low medium high : Level

abbrev pub score_or_zero : Option ℕ → ℕ
score_or_zero none = 0
score_or_zero (some n) = n

-- One entry of `_key_field_levels`.
unfoldable pub field_level : Thresholds → Dict ℕ → String → Level
unfolding lookup
field_level t scores field =
    let score = score_or_zero (lookup field scores) in
    if leb t.high score then high else if leb t.medium score then medium else low

abbrev pub is_low : Level → Bool
is_low low = true
is_low _ = false

abbrev pub is_medium : Level → Bool
is_medium medium = true
is_medium _ = false

abbrev pub is_high : Level → Bool
is_high high = true
is_high _ = false

-- The entry "analysis_type" of a raw specification, if it is a text that is not blank.
abbrev pub raw_analysis_type : Option Value → String
raw_analysis_type (some (str s)) =
    let type = strip s in if non_empty type then upper type else "WORKFLOW"
raw_analysis_type _ = "WORKFLOW"

abbrev pub type_of_raw : Option (Dict Value) → String
type_of_raw none = "WORKFLOW"
type_of_raw (some d) = raw_analysis_type (lookup "analysis_type" d)

abbrev pub type_of_revision : Option Revision → String
type_of_revision none = "WORKFLOW"
type_of_revision (some r) = type_of_raw r.raw_spec

abbrev pub type_of_spec : Option ParsedSpec → Option Revision → String
type_of_spec (some spec) active =
    if non_empty spec.analysis_type then spec.analysis_type else "WORKFLOW"
type_of_spec none active = type_of_revision active

-- `_analysis_type`
unfoldable pub analysis_type : Understanding → Option Revision → String
unfolding strip upper lookup
analysis_type u active = type_of_spec u.parsed_spec active

-- `_required_fields`
unfoldable pub required_fields :
    Understanding → Option Revision → Result UnknownAnalysisType (List String)
unfolding analysis_type normalize_analysis_type analysis_type_requires_time_range
required_fields u active = do
  type ← normalize_analysis_type (analysis_type u active)
  ok (
      if analysis_type_requires_time_range type
      then key_fields
      else "aoi_input" ∷ "aoi_source_type" ∷ "analysis_type" ∷ [])

abbrev pub spec_missing : Option ParsedSpec → List String → List String
spec_missing none required = []
spec_missing (some spec) required = keep (λ field. mem field required) spec.missing_fields

-- `_parser_missing_fields`
unfoldable pub parser_missing_fields : Understanding → List String → List String
unfolding mem
parser_missing_fields u required = spec_missing u.parsed_spec required

abbrev pub or_all : List String → List String → List String
or_all [] required = required
or_all (field ∷ fields) required = field ∷ fields

abbrev pub editable_of_raw : Option (Dict Value) → List String → List String
editable_of_raw none required = required
editable_of_raw (some d) required = or_all (keep (λ field. has field d) required) required

-- `_editable_fields_from_revision`
unfoldable pub editable_fields_from_revision : Revision → List String → List String
unfolding has
editable_fields_from_revision r required = editable_of_raw r.raw_spec required

abbrev pub is_given : {A : Type 0} → Option A → Bool
is_given none = false
is_given (some a) = true

-- `parsed.get(field) is not None`
unfoldable pub spec_gives : ParsedSpec → String → Bool
spec_gives spec field =
    str_eq field "aoi_input" && is_given spec.aoi_input
    || str_eq field "aoi_source_type" && is_given spec.aoi_source_type
    || str_eq field "time_range" && spec.has_time_range
    || str_eq field "analysis_type"

abbrev pub editable_of_spec : Option ParsedSpec → List String → List String
editable_of_spec none required = required
editable_of_spec (some spec) required = or_all (keep (spec_gives spec) required) required

abbrev pub editable_of : Understanding → Option Revision → List String → List String
editable_of u (some r) required = editable_fields_from_revision r required
editable_of u none required = editable_of_spec u.parsed_spec required

-- `_editable_fields_for_revision`
unfoldable pub editable_fields_for_revision :
    Understanding → Option Revision → List String → List String
unfolding editable_fields_from_revision spec_gives
editable_fields_for_revision u active required = editable_of u active required

-- `d.get(field) is not None`
abbrev pub is_not_null : Option Value → Bool
is_not_null none = false
is_not_null (some null) = false
is_not_null (some v) = true

abbrev pub raw_has_structure : Option (Dict Value) → Bool
raw_has_structure none = false
raw_has_structure (some d) = any (λ field. is_not_null (lookup field d)) key_fields

abbrev pub has_structure : Understanding → Option Revision → Bool
has_structure u none = false
has_structure u (some r) = is_given u.parsed_spec || raw_has_structure r.raw_spec

-- `_has_enough_correction_structure`
unfoldable pub has_enough_correction_structure : Understanding → Option Revision → Bool
unfolding lookup
has_enough_correction_structure u active = has_structure u active

abbrev pub is_chat : Intent → Bool
is_chat chat = true
is_chat _ = false

abbrev pub is_correction : Intent → Bool
is_correction task_correction = true
is_correction _ = false

-- `_requires_task_creation`
unfoldable pub requires_creation : Understanding → Option Revision → Bool
requires_creation u active = not (is_given active) && not (is_chat u.intent)

-- ===== src/Recommendation.antt =====
-- packages/domain/services/recommendation.py: the data set that a task gets, and a second one. The
-- answers of the language model are an argument; the scores and the texts that are shown with a
-- recommendation are left out.
pub mod Sorted
pub mod Picked
pub mod Chosen
use gis_agent.Prelude.{
  ℕ, zero, suc, ◌+◌, String, Bool, true, false, not, ◌&&◌, ◌||◌, Option, none, some, List, [], ◌∷◌,
  mem, str_eq, is_empty, leb, ltb, ◌==◌, if◌then◌else◌,
}
use gis_agent.Prelude.Result.{Result, ok, err, guard, ◌>>=◌, ◌>>◌}
use gis_agent.Prelude.Text.{non_empty}

-- A candidate; its score and its coverage are rounded to hundredths where the catalog makes it, and
-- they count hundredths here.
pub record Candidate : Type 0 where
  pub dataset_name : String
  pub suitability_score : ℕ
  pub coverage_ratio : ℕ
  pub spatial_resolution : ℕ

pub record Recommendation : Type 0 where
  pub primary_dataset : String
  pub backup_dataset : Option String
  pub error_code : Option String

pub record LlmRecommendation : Type 0 where
  pub primary_dataset : String
  pub backup_dataset : Option String

pub data RecommendationError : Type 0 where
  schema_error : RecommendationError
  no_candidate : String → RecommendationError
  no_backup_candidate : Option String → RecommendationError

-- The settings that the recommendation reads.
pub record RecommendationSettings : Type 0 where
  pub llm_recommendation_enabled : Bool
  pub llm_recommendation_legacy_fallback : Bool
  pub llm_recommendation_schema_retries : ℕ

-- `int(spatial_resolution or 9999)`
abbrev pub resolution : Candidate → ℕ
resolution c = if c.spatial_resolution == 0 then 9999 else c.spatial_resolution

-- `_candidate_sort_key(c) >= _candidate_sort_key(d)`
abbrev pub precedes : Candidate → Candidate → Bool
precedes c d =
    ltb d.suitability_score c.suitability_score
    || (c.suitability_score == d.suitability_score)
      && (ltb d.coverage_ratio c.coverage_ratio
          || (c.coverage_ratio == d.coverage_ratio) && leb (resolution c) (resolution d))

unfoldable pub put : Candidate → List Candidate → List Candidate
put c [] = c ∷ []
put c (d ∷ ds) = if precedes c d then c ∷ d ∷ ds else d ∷ put c ds

-- `sorted(candidates, key=_candidate_sort_key, reverse=True)`, which keeps the order of equal keys.
unfoldable pub sorted : List Candidate → List Candidate
unfolding put
sorted [] = []
sorted (c ∷ cs) = put c (sorted cs)

abbrev pub names : List Candidate → List String
names [] = []
names (c ∷ cs) = c.dataset_name ∷ names cs

abbrev pub with_skipped :
    Candidate → Option (Candidate × List Candidate) → Option (Candidate × List Candidate)
with_skipped c none = none
with_skipped c (some (found, remaining)) = some (found, c ∷ remaining)

-- `forced_primary` and `remaining`
unfoldable pub take_named : String → List Candidate → Option (Candidate × List Candidate)
take_named name [] = none
take_named name (c ∷ cs) =
    let later = take_named name cs in
    if str_eq c.dataset_name name then some (c, cs) else with_skipped c later

abbrev pub first_name : List Candidate → Option String
first_name [] = none
first_name (c ∷ cs) = some c.dataset_name

abbrev pub unknown_dataset : Recommendation
unknown_dataset = record { primary_dataset = "unknown"; backup_dataset = none; error_code = none }

abbrev pub chosen : String → Option String → Recommendation
chosen primary backup = record {
  primary_dataset = primary;
  backup_dataset = backup;
  error_code = none;
}

unfoldable pub take_requested : Option String → List Candidate → Option (Candidate × List Candidate)
unfolding take_named
take_requested none ordered = none
take_requested (some name) ordered = take_named name ordered

abbrev pub best_of : List Candidate → Option (Candidate × List Candidate) → Recommendation
best_of [] forced = unknown_dataset
best_of (c ∷ cs) none = chosen c.dataset_name (first_name cs)
best_of (c ∷ cs) (some (forced, remaining)) = chosen forced.dataset_name (first_name remaining)

-- `_build_recommendation_legacy`
unfoldable pub build_recommendation_legacy : List Candidate → Option String → Recommendation
unfolding sorted take_requested
build_recommendation_legacy candidates requested =
    let ordered = sorted candidates in best_of ordered (take_requested requested ordered)

-- `_build_recommendation_failure`, with the error code of the reason.
abbrev pub build_recommendation_failure : String → Recommendation
build_recommendation_failure error_code = record unknown_dataset { error_code = some error_code }

-- `_pick_backup_from_ordered`
unfoldable pub pick_backup : List Candidate → String → Option String
pick_backup [] primary = none
pick_backup (c ∷ cs) primary =
    let later = pick_backup cs primary in
    if non_empty c.dataset_name && not (str_eq c.dataset_name primary)
    then some c.dataset_name
    else later

unfoldable pub is_candidate : List String → Option String → Bool
unfolding mem
is_candidate candidate_names none = true
is_candidate candidate_names (some name) = mem name candidate_names

-- The primary data set, which is the requested one if that is a candidate.
unfoldable pub primary_of : List String → Option String → String → String
unfolding mem
primary_of candidate_names none asked = asked
primary_of candidate_names (some requested) asked =
    if mem requested candidate_names then requested else asked

-- The second data set: the one asked for, unless it is the primary one, or the best other one.
unfoldable pub backup_of : List Candidate → String → Option String → Option String
unfolding pick_backup
backup_of ordered primary none = pick_backup ordered primary
backup_of ordered primary (some asked) =
    if str_eq asked primary then pick_backup ordered primary else some asked

-- The data sets of an answer. With one candidate alone there is no other name to pick.
unfoldable pub choose_datasets :
    List Candidate → Option String → LlmRecommendation → Result RecommendationError Recommendation
unfolding mem is_candidate primary_of backup_of
choose_datasets ordered requested payload =
    let candidate_names = names ordered in
    let primary = primary_of candidate_names requested payload.primary_dataset in
    do
      guard (mem payload.primary_dataset candidate_names) (no_candidate payload.primary_dataset)
      guard (is_candidate candidate_names payload.backup_dataset)
          (no_backup_candidate payload.backup_dataset)
      ok (chosen primary (backup_of ordered primary payload.backup_dataset))

-- `_normalize_llm_recommendation`
unfoldable pub normalize_llm_recommendation :
    List Candidate → Option String → LlmRecommendation → Result RecommendationError Recommendation
unfolding sorted choose_datasets build_recommendation_legacy
normalize_llm_recommendation [] requested payload = ok (build_recommendation_legacy [] requested)
normalize_llm_recommendation (c ∷ cs) requested payload =
    choose_datasets (sorted (c ∷ cs)) requested payload

-- The recommendation of an answer, or what comes after it is refused.
abbrev pub recommendation_or :
    {E : Type 0}
    → Result RecommendationError Recommendation
    → Result E Recommendation
    → Result E Recommendation
recommendation_or (ok r) after_refusal = ok r
recommendation_or (err e) after_refusal = after_refusal

module _ (candidates : List Candidate) (requested : Option String) where
  -- The recommendation of an answer, which is `none` if it is no `LLMRecommendation`.
  unfoldable pub try_recommendation :
      Option LlmRecommendation → Result RecommendationError Recommendation
  unfolding normalize_llm_recommendation
  try_recommendation none = err schema_error
  try_recommendation (some payload) = normalize_llm_recommendation candidates requested payload

  -- What the calls of the language model bring, by their number: an answer or an exception.
  module _ {E : Type 0} (chat_json : ℕ → Result E (Option LlmRecommendation)) where
    -- The loop of `_build_recommendation_with_llm`, by the retries that are left.
    unfoldable pub ask_recommendation : ℕ → ℕ → Result E Recommendation
    unfolding try_recommendation
    ask_recommendation zero attempt = do
      answer ← chat_json attempt
      recommendation_or (try_recommendation answer)
          (ok (build_recommendation_failure "task_llm_recommendation_schema_validation_failed"))
    ask_recommendation (suc retries) attempt =
        let again = ask_recommendation retries (attempt + 1) in
        do answer ← chat_json attempt; recommendation_or (try_recommendation answer) again

    -- The handlers of `build_recommendation`.
    unfoldable pub recommendation_on_error : Bool → Result E Recommendation → Recommendation
    unfolding build_recommendation_legacy
    recommendation_on_error fallback (ok r) = r
    recommendation_on_error true (err e) = build_recommendation_legacy candidates requested
    recommendation_on_error false (err e) =
        build_recommendation_failure "task_llm_recommendation_failed"

    -- `build_recommendation`
    unfoldable pub build_recommendation : RecommendationSettings → Recommendation
    unfolding build_recommendation_legacy ask_recommendation recommendation_on_error
    build_recommendation settings =
        if settings.llm_recommendation_enabled && not (is_empty candidates)
        then recommendation_on_error settings.llm_recommendation_legacy_fallback
            (ask_recommendation settings.llm_recommendation_schema_retries 0)
        else build_recommendation_legacy candidates requested

-- ===== src/Recommendation/Chosen.antt =====
-- The data sets that `build_recommendation` of packages/domain/services/recommendation.py chooses.
use gis_agent.Prelude.{
  ℕ, zero, suc, ◌+◌, String, Bool, true, false, not, ◌&&◌, Option, none, some, List, [], ◌∷◌, mem,
  distinct, is_empty, ◌≡◌, refl, sym, ◌∙◌, inl, inr, arith, Bool-cases, Option-cases, subst,
  and_parts,
}
use gis_agent.Prelude.Result.{Result, ok, err, bind-ok, guard-bind, same_value}
use gis_agent.PlanGuard.Graph.Sets.{mem-cons_self}
use gis_agent.Recommendation.Sorted.{mem-sorted, distinct-sorted, put-filled}
use gis_agent.Recommendation.{
  Candidate, Recommendation, LlmRecommendation, RecommendationError, RecommendationSettings, sorted,
  names, take_named, first_name, unknown_dataset, chosen, take_requested, best_of,
  build_recommendation_legacy, build_recommendation_failure, is_candidate, primary_of,
  choose_datasets, normalize_llm_recommendation, recommendation_or, try_recommendation,
  ask_recommendation, recommendation_on_error, build_recommendation,
}
use gis_agent.Recommendation.Picked.{
  IsOther, IsObeyed, first_name-IsOther, take_named-absent, take_named-IsTaken, backup_of-IsOther,
  primary_of-among, primary_of-IsObeyed, behind_first,
}

pub record IsChoice (candidate_names : List String) (requested : Option String) (r : Recommendation)
    : Type 0 where
  pub among : mem r.primary_dataset candidate_names ≡ true
  pub obeyed : IsObeyed candidate_names r.primary_dataset requested
  pub other : IsOther candidate_names r.primary_dataset r.backup_dataset
  pub no_error : r.error_code ≡ none

-- A recommendation is a choice, or tells that there is none: without candidates, or with an error
-- where one is allowed.
pub data Recommended (allowed : Bool) (candidates : List Candidate) (requested : Option String)
    (r : Recommendation) : Type 0 where
  choice : IsChoice (names candidates) requested r → Recommended allowed candidates requested r
  nothing : candidates ≡ [] → r ≡ unknown_dataset → Recommended allowed candidates requested r
  failure :
      (error_code : String)
      → allowed ≡ true
      → r ≡ build_recommendation_failure error_code
      → Recommended allowed candidates requested r

-- A choice among the candidates in their order is one among the candidates.
module _ (candidates : List Candidate) where
  IsObeyed-unsorted :
      (primary : String) (requested : Option String)
      → IsObeyed (names (sorted candidates)) primary requested
      → IsObeyed (names candidates) primary requested
  IsObeyed-unsorted primary none h = tt
  IsObeyed-unsorted primary (some requested) h =
      λ known. h (mem-sorted requested candidates ∙ known)

  IsOther-unsorted :
      (primary : String) (backup : Option String)
      → IsOther (names (sorted candidates)) primary backup
      → IsOther (names candidates) primary backup
  IsOther-unsorted primary none h = tt
  IsOther-unsorted primary (some backup) h = (sym (mem-sorted backup candidates) ∙ h.0, h.1)

  IsChoice-unsorted :
      {allowed : Bool} (requested : Option String) (r : Recommendation)
      → IsChoice (names (sorted candidates)) requested r
      → Recommended allowed candidates requested r
  IsChoice-unsorted requested r c = choice (record {
    among = sym (mem-sorted r.primary_dataset candidates) ∙ c.among;
    obeyed = IsObeyed-unsorted r.primary_dataset requested c.obeyed;
    other = IsOther-unsorted r.primary_dataset r.backup_dataset c.other;
    no_error = c.no_error;
  })

module _ (c : Candidate) (cs : List Candidate) (unique : distinct (names (c ∷ cs)) ≡ true) where
  -- The best two.
  best-IsChoice :
      (requested : Option String)
      → IsObeyed (names (c ∷ cs)) c.dataset_name requested
      → IsChoice (names (c ∷ cs)) requested (chosen c.dataset_name (first_name cs))
  best-IsChoice requested obeyed = record {
    among = mem-cons_self c.dataset_name (names cs);
    obeyed = obeyed;
    other = first_name-IsOther (names (c ∷ cs)) c.dataset_name cs (behind_first c cs unique);
    no_error = refl;
  }

  best_of-IsChoice :
      (requested : Option String)
      → IsChoice (names (c ∷ cs)) requested (best_of (c ∷ cs) (take_requested requested (c ∷ cs)))
  unfolding take_requested
  best_of-IsChoice none = best-IsChoice none tt
  best_of-IsChoice (some name) = elim (Option-cases (take_named name (c ∷ cs))) [
    | inl absent ↦ rw absent (
        best-IsChoice (some name)
          (λ known. absurd (ground (arith, take_named-absent name (c ∷ cs) absent, known))))
    | inr (found, there) ↦
        let taken = take_named-IsTaken name (c ∷ cs) found unique there in
        rw there (record {
          among = subst (λ n. mem n (names (c ∷ cs)) ≡ true) (sym taken.same_name) taken.was_there;
          obeyed = λ known. taken.same_name;
          other =
              subst (λ n. IsOther (names (c ∷ cs)) n (first_name found.1)) (sym taken.same_name)
                (first_name-IsOther (names (c ∷ cs)) name found.1 taken.others);
          no_error = refl;
        })
  ]

legacy-Recommended :
    {allowed : Bool} (candidates : List Candidate) (requested : Option String)
    → distinct (names candidates) ≡ true
    → Recommended allowed candidates requested (build_recommendation_legacy candidates requested)
unfolding build_recommendation_legacy sorted
legacy-Recommended [] requested unique = nothing refl refl
legacy-Recommended (c ∷ cs) requested unique =
    let (d, ds, filled) = put-filled c (sorted cs) in
    let unique_sorted = distinct-sorted (c ∷ cs) unique in
    IsChoice-unsorted (c ∷ cs) requested _ (
      subst
        (λ ordered.
          IsChoice (names ordered) requested (best_of ordered (take_requested requested ordered)))
        (sym filled)
        (best_of-IsChoice d ds
          (subst (λ ordered. distinct (names ordered) ≡ true) filled unique_sorted) requested))

choose_datasets-IsChoice :
    (ordered : List Candidate) (requested : Option String) (payload : LlmRecommendation)
    (r : Recommendation)
    → choose_datasets ordered requested payload ≡ ok r
    → IsChoice (names ordered) requested r
unfolding choose_datasets
choose_datasets-IsChoice ordered requested payload r h =
    let primary = primary_of (names ordered) requested payload.primary_dataset in
    let (known, h1) = guard-bind (mem payload.primary_dataset (names ordered)) _ _ h in
    let (backup_known, h2) =
      guard-bind (is_candidate (names ordered) payload.backup_dataset) _ _ h1 in
    subst (IsChoice (names ordered) requested) (same_value h2) (record {
      among = primary_of-among (names ordered) requested payload.primary_dataset known;
      obeyed = primary_of-IsObeyed (names ordered) requested payload.primary_dataset;
      other = backup_of-IsOther ordered primary payload.backup_dataset backup_known;
      no_error = refl;
    })

normalize-Recommended :
    {allowed : Bool} (candidates : List Candidate) (requested : Option String)
    (payload : LlmRecommendation) (r : Recommendation)
    → normalize_llm_recommendation candidates requested payload ≡ ok r
    → Recommended allowed candidates requested r
unfolding normalize_llm_recommendation
normalize-Recommended {allowed = allowed} [] requested payload r h =
    subst (Recommended allowed [] requested) (same_value h)
      (legacy-Recommended [] requested (unfold distinct in refl))
normalize-Recommended (c ∷ cs) requested payload r h =
    IsChoice-unsorted (c ∷ cs) requested r
      (choose_datasets-IsChoice (sorted (c ∷ cs)) requested payload r h)

module _ {allowed : Bool} (permitted : allowed ≡ true) (candidates : List Candidate)
    (requested : Option String) where
  try-Recommended :
      (answer : Option LlmRecommendation) (r : Recommendation)
      → try_recommendation candidates requested answer ≡ ok r
      → Recommended allowed candidates requested r
  unfolding try_recommendation
  try-Recommended none r h = cc
  try-Recommended (some payload) r h = normalize-Recommended candidates requested payload r h

  or-Recommended :
      {E : Type 0} (first : Result RecommendationError Recommendation)
      (after_refusal : Result E Recommendation) (r : Recommendation)
      → ((p : Recommendation) → first ≡ ok p → Recommended allowed candidates requested p)
      → ((p : Recommendation) → after_refusal ≡ ok p → Recommended allowed candidates requested p)
      → recommendation_or first after_refusal ≡ ok r
      → Recommended allowed candidates requested r
  or-Recommended (ok made) after_refusal r h k e =
      subst (Recommended allowed candidates requested) (same_value e) (h made refl)
  or-Recommended (err raised) after_refusal r h k e = k r e

  module _ {E : Type 0} (chat_json : ℕ → Result E (Option LlmRecommendation)) where
    ask-Recommended :
        (retries attempt : ℕ) (r : Recommendation)
        → ask_recommendation candidates requested chat_json retries attempt ≡ ok r
        → Recommended allowed candidates requested r
    unfolding ask_recommendation
    ask-Recommended zero attempt r h =
        let (answer, h1, _) = bind-ok (chat_json attempt) _ h in
        or-Recommended (try_recommendation candidates requested answer) _ r (try-Recommended answer)
          (λ p e.
            subst (Recommended allowed candidates requested) (same_value e)
              (failure _ permitted refl))
          h1
    ask-Recommended (suc retries) attempt r h =
        let (answer, h1, _) = bind-ok (chat_json attempt) _ h in
        or-Recommended (try_recommendation candidates requested answer) _ r (try-Recommended answer)
          (ask-Recommended retries (attempt + 1)) h1

    on_error-Recommended :
        (fallback : Bool) (r : Result E Recommendation)
        → distinct (names candidates) ≡ true
        → ((p : Recommendation) → r ≡ ok p → Recommended allowed candidates requested p)
        → Recommended allowed candidates requested
            (recommendation_on_error candidates requested chat_json fallback r)
    unfolding recommendation_on_error
    on_error-Recommended fallback (ok made) unique h = h made refl
    on_error-Recommended true (err e) unique h = legacy-Recommended candidates requested unique
    on_error-Recommended false (err e) unique h = failure _ permitted refl

module _ {E : Type 0} (chat_json : ℕ → Result E (Option LlmRecommendation)) where
  -- Whatever the language model answers, a task with candidates of distinct names gets one of them
  -- as its primary data set, the requested one if that is among them, and as its second data set
  -- another one or none; or, if the model is enabled, it may be told of an error. Without candidates
  -- the data set is unknown.
  pub build_recommendation-Recommended :
      (settings : RecommendationSettings) (candidates : List Candidate) (requested : Option String)
      → distinct (names candidates) ≡ true
      → Recommended settings.llm_recommendation_enabled candidates requested
          (build_recommendation candidates requested chat_json settings)
  unfolding build_recommendation
  build_recommendation-Recommended settings candidates requested unique =
      elim (Bool-cases (settings.llm_recommendation_enabled && not (is_empty candidates))) [
        | inr off ↦ simp off (legacy-Recommended candidates requested unique)
        | inl enabled ↦
            let permitted = (and_parts settings.llm_recommendation_enabled _ enabled).0 in
            simp enabled (
              on_error-Recommended permitted candidates requested chat_json
                settings.llm_recommendation_legacy_fallback _ unique
                (ask-Recommended permitted candidates requested chat_json
                  settings.llm_recommendation_schema_retries 0))
      ]

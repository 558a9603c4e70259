-- ===== src/Tests/Recommendations.antt =====
-- A recommendation whose answer asks for one data set twice.
use gis_agent.Prelude.{String, true, Option, none, some, ℕ, List, [], ◌∷◌, ◌≡◌, refl, mem, distinct}
use gis_agent.Prelude.Result.{Result, ok}
use gis_agent.Recommendation.{
  Candidate, LlmRecommendation, RecommendationSettings, chosen, build_recommendation,
  build_recommendation_legacy,
}
use gis_agent.Recommendation.Chosen.{Recommended, build_recommendation-Recommended}

abbrev candidate_of : String → ℕ → ℕ → Candidate
candidate_of dataset_name score resolution = record {
  dataset_name = dataset_name;
  suitability_score = score;
  coverage_ratio = 95;
  spatial_resolution = resolution;
}

abbrev candidates : List Candidate
candidates =
    candidate_of "landsat89" 71 30 ∷ candidate_of "modis" 71 0 ∷ candidate_of "sentinel2" 88 10 ∷ []

abbrev settings : RecommendationSettings
settings = record {
  llm_recommendation_enabled = true;
  llm_recommendation_legacy_fallback = true;
  llm_recommendation_schema_retries = 0;
}

abbrev chat : ℕ → Result String (Option LlmRecommendation)
chat attempt =
    ok (some (record { primary_dataset = "sentinel2"; backup_dataset = some "landsat89" }))

requested_is_primary :
    build_recommendation candidates (some "landsat89") chat settings
    ≡ chosen "landsat89" (some "sentinel2")
unfolding build_recommendation mem
requested_is_primary = refl

best_two : build_recommendation_legacy candidates none ≡ chosen "sentinel2" (some "landsat89")
unfolding build_recommendation_legacy
best_two = refl

build_recommendation-Recommended_example :
    Recommended true candidates
      (some "landsat89")
      (build_recommendation candidates (some "landsat89") chat settings)
build_recommendation-Recommended_example =
    build_recommendation-Recommended chat settings candidates (some "landsat89")
      (unfold distinct mem in refl)

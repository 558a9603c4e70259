-- ===== src/Tests/Policy.antt =====
-- Messages that are answered: what is decided, and the theorems about it.
use gis_agent.Prelude.{true, none, some, [], ◌∷◌, ◌≡◌, ◌↔◌, refl}
use gis_agent.Prelude.Result.{Result, ok, err}
use gis_agent.Analysis.{normalize_analysis_type, UnknownAnalysisType, unknown_analysis_type}
use gis_agent.ResponsePolicy.{new_task, ParsedSpec, Understanding, ResponseDecision, Thresholds}
use gis_agent.ResponsePolicy.Decide.{decide_response, build_decision, execute_reply}
use gis_agent.ResponsePolicy.Execution.{MayExecute, executes_exactly}
use gis_agent.ResponsePolicy.Fields.{Coherent, decide-Coherent}

abbrev thresholds : Thresholds
thresholds = record { medium = 60; high = 80 }

abbrev spec : ParsedSpec
spec = record {
  aoi_input = some "uploaded_aoi";
  aoi_source_type = some "file_upload";
  has_time_range = true;
  analysis_type = "NDVI";
  user_priority = "balanced";
  missing_fields = [];
}

abbrev clear_request : Understanding
clear_request = record {
  intent = new_task;
  understanding_summary = "NDVI";
  parsed_spec = some spec;
  field_scores =
      ("aoi_input", 90) ∷ ("aoi_source_type", 85) ∷ ("time_range", 80) ∷ ("analysis_type", 95) ∷ [];
}

abbrev unclear_request : Understanding
unclear_request = record clear_request {
  field_scores = ("aoi_input", 90) ∷ ("time_range", 70) ∷ [];
}

abbrev decided : Understanding → ResponseDecision
decided u = returned (decide_response thresholds u none true none none)
  where
    returned : Result UnknownAnalysisType ResponseDecision → ResponseDecision
    returned (ok d) = d
    returned (err e) = build_decision (execute_reply thresholds u true) none true "" "" []

clear_executes : (decided clear_request).requires_execution ≡ true
unfolding decide_response
clear_executes = refl

unclear_asks : (decided unclear_request).missing_fields ≡ "aoi_source_type" ∷ "analysis_type" ∷ []
unfolding decide_response
unclear_asks = refl

crop_is_clip : normalize_analysis_type " Raster Clip " ≡ ok "CLIP"
unfolding normalize_analysis_type
crop_is_clip = refl

ligature_filter : normalize_analysis_type "ﬁlter" ≡ ok "FILTER"
unfolding normalize_analysis_type
ligature_filter = refl

no_type : normalize_analysis_type "watershed" ≡ err (unknown_analysis_type "watershed")
unfolding normalize_analysis_type
no_type = refl

clear_returns :
    decide_response thresholds clear_request none true none none ≡ ok (decided clear_request)
unfolding decide_response
clear_returns = refl

unclear_returns :
    decide_response thresholds unclear_request none true none none ≡ ok (decided unclear_request)
unfolding decide_response
unclear_returns = refl

executes_exactly_example :
    ((decided clear_request).requires_execution ≡ true)
    ↔ MayExecute thresholds clear_request none (decided clear_request)
executes_exactly_example =
    executes_exactly thresholds clear_request none true none none (decided clear_request)
      clear_returns

decide-Coherent_example : Coherent none (decided unclear_request)
decide-Coherent_example =
    decide-Coherent thresholds unclear_request none true none none (decided unclear_request)
      unclear_returns

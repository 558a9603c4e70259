-- ===== src/Analysis.antt =====
-- `normalize_analysis_type` of packages/schemas/analysis.py: the types of analysis and their aliases.
use gis_agent.Prelude.{
  String, Bool, ◌||◌, Option, none, some, List, [], ◌∷◌, mem, str_eq, if◌then◌else◌,
}
use gis_agent.Prelude.Text.{strip, lower, upper, underscored, non_empty}
use gis_agent.Prelude.Result.{Result, ok, err}
use gis_agent.Prelude.Dict.{Dict, lookup}

-- `_ANALYSIS_TYPE_ALIASES`
unfoldable pub analysis_type_aliases : Dict String
analysis_type_aliases =
    ("workflow", "WORKFLOW")
    ∷ ("generic", "WORKFLOW")
    ∷ ("general", "WORKFLOW")
    ∷ ("gis", "WORKFLOW")
    ∷ ("ndvi", "NDVI")
    ∷ ("ndwi", "NDWI")
    ∷ ("band_math", "BAND_MATH")
    ∷ ("band-math", "BAND_MATH")
    ∷ ("bandmath", "BAND_MATH")
    ∷ ("filter", "FILTER")
    ∷ ("slope_aspect", "SLOPE_ASPECT")
    ∷ ("slope-aspect", "SLOPE_ASPECT")
    ∷ ("slopeaspect", "SLOPE_ASPECT")
    ∷ ("buffer", "BUFFER")
    ∷ ("clip", "CLIP")
    ∷ ("raster_clip", "CLIP")
    ∷ ("raster-clip", "CLIP")
    ∷ ("raster.clip", "CLIP")
    ∷ ("crop", "CLIP")
    ∷ []

-- `AnalysisType`
abbrev pub analysis_types : List String
analysis_types =
    "WORKFLOW" ∷ "NDVI" ∷ "NDWI" ∷ "BAND_MATH" ∷ "FILTER" ∷ "SLOPE_ASPECT" ∷ "BUFFER" ∷ "CLIP" ∷ []

-- The `ValueError` of a text that names no type of analysis.
pub data UnknownAnalysisType : Type 0 where
  unknown_analysis_type : String → UnknownAnalysisType

abbrev pub known_type : String → Option String → Result UnknownAnalysisType String
known_type token (some type) = ok type
known_type token none =
    let upper_token = upper token in
    if mem upper_token analysis_types then ok upper_token else err (unknown_analysis_type token)

-- `normalize_analysis_type` of a text.
unfoldable pub normalize_analysis_type : String → Result UnknownAnalysisType String
unfolding strip underscored lower upper analysis_type_aliases lookup mem
normalize_analysis_type value =
    let text = strip value in
    let token = underscored text in
    if non_empty text
    then known_type token (lookup (lower token) analysis_type_aliases)
    else ok "WORKFLOW"

-- `analysis_type_requires_time_range`
unfoldable pub analysis_type_requires_time_range : String → Bool
analysis_type_requires_time_range type = str_eq type "NDVI" || str_eq type "NDWI"

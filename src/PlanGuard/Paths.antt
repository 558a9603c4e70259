-- ===== src/PlanGuard/Paths.antt =====
-- The file references of packages/domain/services/plan_guard.py.
use Prim.Native.Char.{Char, code}
use gis_agent.Prelude.{
  ℕ, ◌+◌, String, Bool, true, false, ◌&&◌, ◌||◌, Option, none, some, List, [], ◌∷◌, any, mem,
  str_eq, leb, ◌==◌, if◌then◌else◌,
}
use gis_agent.Prelude.Text.{lower}

-- A character of the text matches the small letter `p` of the pattern under `re.IGNORECASE`.
unfoldable pub folds_to : ℕ → ℕ → Bool
folds_to p c =
    c == p
    || leb 97 p && leb p 122 && c + 32 == p
    || p == b'i' && (c == 0x130 || c == 0x131)
    || p == b's' && c == 0x17F
    || p == b'k' && c == 0x212A

-- `p$` at the start of a text: the end may have one line break behind it.
unfoldable pub matches_end : String → String → Bool
unfolding folds_to
matches_end String.[] String.[] = true
matches_end String.[] (String.◌∷◌ c String.[]) = code c == 10
matches_end String.[] (String.◌∷◌ c (String.◌∷◌ d s)) = false
matches_end (String.◌∷◌ p ps) String.[] = false
matches_end (String.◌∷◌ p ps) (String.◌∷◌ c s) = folds_to (code p) (code c) && matches_end ps s

-- `p$` somewhere in a text.
unfoldable pub finds_end : String → String → Bool
unfolding matches_end
finds_end p String.[] = matches_end p ""
finds_end p (String.◌∷◌ c s) = matches_end p (String.◌∷◌ c s) || finds_end p s

unfoldable pub has_separator : String → Bool
has_separator String.[] = false
has_separator (String.◌∷◌ c s) = code c == b'/' || code c == b'\\' || has_separator s

abbrev pub path_extensions : List String
path_extensions = ".tif" ∷ ".tiff" ∷ ".json" ∷ ".geojson" ∷ ".shp" ∷ ".gpkg" ∷ ".csv" ∷ ".png" ∷ []

-- `_looks_like_external_ref`, with the regular expression `_EXTERNAL_PATH_HINT`.
unfoldable pub looks_like_external_ref : String → Bool
unfolding has_separator finds_end
looks_like_external_ref s = has_separator s || any (λ ext. finds_end ext s) path_extensions

abbrev pub raster_suffixes : List String
raster_suffixes = ".tif" ∷ ".tiff" ∷ ".img" ∷ ".vrt" ∷ ".jp2" ∷ []

abbrev pub vector_suffixes : List String
vector_suffixes = ".geojson" ∷ ".json" ∷ ".shp" ∷ ".gpkg" ∷ ".kml" ∷ ".wkt" ∷ ".zip" ∷ []

abbrev pub table_suffixes : List String
table_suffixes = ".csv" ∷ ".tsv" ∷ ".parquet" ∷ ".xlsx" ∷ ".xls" ∷ []

abbrev push_char : Char → List String → List String
push_char c [] = String.◌∷◌ c "" ∷ []
push_char c (x ∷ xs) = String.◌∷◌ c x ∷ xs

split_slashes : String → List String
split_slashes String.[] = "" ∷ []
split_slashes (String.◌∷◌ c s) =
    let rest = split_slashes s in if code c == b'/' then "" ∷ rest else push_char c rest

last_part : List String → String → String
last_part [] name = name
last_part (x ∷ xs) name = last_part xs (if str_eq x "" || str_eq x "." then name else x)

-- `Path(s).name`: the last part that is neither empty nor ".".
path_name : String → String
unfolding split_slashes last_part
path_name s = last_part (split_slashes s) ""

from_last_dot : String → Option String
from_last_dot String.[] = none
from_last_dot (String.◌∷◌ c s) =
    let rest = from_last_dot s in
    elim rest [ some t ↦ some t | none ↦ if code c == b'.' then some (String.◌∷◌ c s) else none ]

abbrev proper_suffix : Option String → String
proper_suffix none = ""
proper_suffix (some String.[]) = ""
proper_suffix (some (String.◌∷◌ c String.[])) = ""
proper_suffix (some (String.◌∷◌ c (String.◌∷◌ d s))) = String.◌∷◌ c (String.◌∷◌ d s)

abbrev suffix_of : String → String
suffix_of String.[] = ""
suffix_of (String.◌∷◌ c s) = proper_suffix (from_last_dot s)

-- `Path(s).suffix`: from the last dot of the name, where that is neither first nor last in it.
unfoldable pub path_suffix : String → String
unfolding path_name from_last_dot
path_suffix s = suffix_of (path_name s)

-- `_infer_ref_base_type`
unfoldable pub infer_ref_base_type : String → Option String
unfolding path_suffix lower mem
infer_ref_base_type value =
    let suffix = lower (path_suffix value) in
    if mem suffix raster_suffixes
    then some "raster"
    else if mem suffix vector_suffixes
    then some "vector"
    else if mem suffix table_suffixes
    then some "table"
    else none

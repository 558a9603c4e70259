-- ===== src/Pipeline/Files.antt =====
-- The files that packages/domain/services/processing_pipeline.py works on.
use text.Mathlib.Text.{starts_with}
use gis_agent.Prelude.{String, Bool, true, false, ◌&&◌, [], ◌∷◌, mem, str_eq, if◌then◌else◌}
use gis_agent.Prelude.Text.{append_text, lower}
use gis_agent.PlanGuard.Paths.{path_suffix}
use gis_agent.Value.{Value, str}

-- A `Path`, by what it is made of: a text, or the printed form of a parameter that is no text. What
-- such a value prints as has no suffix of a file format.
pub data FilePath : Type 0 where
  named : String → FilePath
  printed : Value → FilePath

-- `Path(str(value))`
abbrev pub path_of : Value → FilePath
path_of (str s) = named s
path_of value = printed value

-- What the program asks the file system and rasterio: `path.exists()`, and whether `rasterio.open`
-- opens the file.
pub record Files : Type 0 where
  pub exists : FilePath → Bool
  pub opens : FilePath → Bool

abbrev pub same_path : FilePath → FilePath → Bool
same_path (named s) (named t) = str_eq s t
same_path (named s) (printed v) = false
same_path (printed v) path = false

-- The files behind a write to `path`.
abbrev pub with_file : FilePath → Files → Files
with_file path files = record {
  exists = λ other. if same_path path other then true else files.exists other;
  opens = λ other. if same_path path other then true else files.opens other;
}

-- `path.suffix`
unfoldable pub suffix : FilePath → String
unfolding path_suffix
suffix (printed value) = ""
suffix (named s) = path_suffix s

-- `directory / name`
abbrev pub join : String → String → FilePath
join directory name =
    if starts_with name "/"
    then named name
    else named (append_text directory (append_text "/" name))

-- `_is_supported_raster`
unfoldable pub is_supported_raster : Files → FilePath → Bool
unfolding suffix lower mem
is_supported_raster files path =
    files.exists path && mem (lower (suffix path)) (".tif" ∷ ".tiff" ∷ []) && files.opens path

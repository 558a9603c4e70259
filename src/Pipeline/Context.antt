-- ===== src/Pipeline/Context.antt =====
-- What the steps of `run_processing_pipeline` of
-- packages/domain/services/processing_pipeline.py work on, and how they fail.
use gis_agent.Prelude.{String, Option, List, [], none}
use gis_agent.Prelude.Result.{Result, ok, err}
use gis_agent.Value.{Value}
use gis_agent.Pipeline.Files.{FilePath, Files}
use gis_agent.Pipeline.Sources.{SourceError, References}

-- What `artifact.export` writes a format as.
pub data Format : Type 0 where
  geotiff png_map csv geojson gpkg shapefile : Format

-- An entry of `artifacts`; `artifact_type` is the name of the format.
pub record Artifact : Type 0 where
  pub artifact_type : Format
  pub path : FilePath
  pub source_step : String

pub record Context : Type 0 where
  pub references : References
  pub artifacts : List Artifact
  pub exported_tif_path : Option FilePath
  pub exported_png_path : Option FilePath
  pub files : Files

-- The exceptions of the `try` block. `operation_error` is one of the body of an operation, its own
-- checks and rasterio, shapely, numpy and the file system included.
pub data StepError : Type 0 where
  unresolved_source : SourceError → StepError
  unsupported_operation : (op_name : String) → StepError
  no_export_source : StepError
  no_raster_to_export : Format → StepError
  not_a_raster : FilePath → StepError
  unsupported_format : Value → StepError
  not_iterable : Value → StepError
  operation_error : (message : String) → StepError

abbrev pub start_context : Files → Context
start_context files = record {
  references = [];
  artifacts = [];
  exported_tif_path = none;
  exported_png_path = none;
  files = files;
}

-- An operation or a writer, which raises or leaves the files behind it.
abbrev pub from_library : Result String Files → Result StepError Files
from_library (err message) = err (operation_error message)
from_library (ok files) = ok files

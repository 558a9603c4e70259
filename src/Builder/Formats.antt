-- ===== src/Builder/Formats.antt =====
-- `_normalize_export_formats` of packages/domain/services/operation_plan_builder.py, and what the
-- export of packages/domain/services/processing_pipeline.py makes of its result.
use gis_agent.Prelude.{
  String, Option, none, some, List, [], ◌∷◌, map, keep, mem, is_empty, str_eq, if◌then◌else◌,
}
use gis_agent.Prelude.Text.{lower, strip}

-- `_RASTER_EXPORT_FORMATS`, `_VECTOR_EXPORT_FORMATS` and `_TABLE_EXPORT_FORMATS`
abbrev pub raster_export_formats : List String
raster_export_formats = "geotiff" ∷ "tif" ∷ "tiff" ∷ "png_map" ∷ "png" ∷ []

abbrev pub vector_export_formats : List String
vector_export_formats = "geojson" ∷ "json" ∷ "gpkg" ∷ "shapefile" ∷ "shp" ∷ []

abbrev pub table_export_formats : List String
table_export_formats = "csv" ∷ []

-- The body of the loop.
unfoldable pub normalize_format : String → String
unfolding lower strip mem
normalize_format text =
    let lowered = strip (lower text) in
    if str_eq lowered "png"
    then "png_map"
    else if mem lowered ("tif" ∷ "tiff" ∷ [])
    then "geotiff"
    else lowered

abbrev pub or_formats : List String → List String → List String
or_formats formats default = if is_empty formats then default else formats

abbrev pub geotiff_first : List String → List String
unfolding mem
geotiff_first formats = if mem "geotiff" formats then formats else "geotiff" ∷ formats

unfoldable pub raster_formats : List String → List String
unfolding mem
raster_formats preferred =
    let formats = keep (λ name. mem name raster_export_formats) preferred in
    if is_empty formats then "geotiff" ∷ "png_map" ∷ [] else geotiff_first formats

-- `_normalize_export_formats`
unfoldable pub normalize_export_formats : Option String → List String → List String
unfolding normalize_format raster_formats mem
normalize_export_formats primary_type preferred_output =
    let preferred = map normalize_format preferred_output in
    elim primary_type [
      | none ↦ raster_formats preferred
      | some type ↦
          if str_eq type "vector"
          then or_formats (keep (λ name. mem name vector_export_formats) preferred) ("geojson" ∷ [])
          else if str_eq type "table"
          then or_formats (keep (λ name. mem name table_export_formats) preferred) ("csv" ∷ [])
          else raster_formats preferred
    ]

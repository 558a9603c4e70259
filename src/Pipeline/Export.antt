-- ===== src/Pipeline/Export.antt =====
-- The operation `artifact.export` of packages/domain/services/processing_pipeline.py. What a writer
-- of a file does is an argument: it raises, or leaves the files behind it.
use Prim.Native.String.{String}
use gis_agent.Prelude.{
  Bool, ◌&&◌, Option, none, some, List, [], ◌∷◌, ◌++◌, mem, str_eq, if◌then◌else◌,
}
use gis_agent.Prelude.Result.{Result, ok, err, ◌>>=◌, guard, ◌>>◌}
use gis_agent.Prelude.Text.{append_text, lower, non_empty}
use gis_agent.Prelude.Dict.{Dict, insert, lookup}
use gis_agent.Value.{
  Value, Fields, Items, str, list, dict, item, no_items, entry, no_fields, truthy,
}
use gis_agent.Plan.{OperationNode}
use gis_agent.Pipeline.Files.{
  FilePath, path_of, Files, same_path, join, suffix, is_supported_raster,
}
use gis_agent.Pipeline.Sources.{
  References, or_text, text_at, param_at, pick_primary_raster_reference,
  pick_primary_vector_reference,
}
use gis_agent.Pipeline.Context.{
  Format, geotiff, png_map, csv, geojson, gpkg, shapefile, Context, StepError, from_library,
  no_export_source, no_raster_to_export, not_a_raster, unsupported_format, not_iterable,
}

-- The formats by their names.
unfoldable pub format_names : Dict Format
format_names =
    ("geotiff", geotiff)
    ∷ ("tif", geotiff)
    ∷ ("tiff", geotiff)
    ∷ ("png", png_map)
    ∷ ("png_map", png_map)
    ∷ ("csv", csv)
    ∷ ("geojson", geojson)
    ∷ ("json", geojson)
    ∷ ("gpkg", gpkg)
    ∷ ("shapefile", shapefile)
    ∷ ("shp", shapefile)
    ∷ []

-- The format of `str(fmt).lower()`. What is no text prints as no name of a format.
unfoldable pub format_of : Value → Option Format
unfolding format_names lookup lower
format_of (str name) = lookup (lower name) format_names
format_of value = none

abbrev item_list : Items → List Value
item_list no_items = []
item_list (item value items) = value ∷ item_list items

abbrev field_names : Fields → List Value
field_names no_fields = []
field_names (entry key value fields) = str key ∷ field_names fields

abbrev characters : String → List Value
characters String.[] = []
characters (String.◌∷◌ c s) = str (String.◌∷◌ c "") ∷ characters s

-- What a `for` loop over a value goes through.
unfoldable pub iterate : Value → Result StepError (List Value)
iterate (list items) = ok (item_list items)
iterate (dict fields) = ok (field_names fields)
iterate (str s) = ok (characters s)
iterate value = err (not_iterable value)

-- `params.get("formats") or ["geotiff"]`
unfoldable pub export_formats : OperationNode → Result StepError (List Value)
unfolding iterate lookup truthy
export_formats node =
    let formats = param_at "formats" node.params in
    if truthy formats then iterate formats else ok (str "geotiff" ∷ [])

-- The first of two that is there.
abbrev pub or_else : {A : Type 0} → Option A → Option A → Option A
or_else none second = second
or_else (some a) second = some a

abbrev pub source_param : Value → Option FilePath
source_param value = if truthy value then some (path_of value) else none

-- `source_path`, before the loop.
unfoldable pub export_source : OperationNode → References → Option FilePath
unfolding lookup truthy pick_primary_raster_reference pick_primary_vector_reference
export_source node references = or_else (lookup (text_at "primary" node.inputs) references) (
    or_else (source_param (param_at "source_path" node.params)) (
      or_else (pick_primary_raster_reference references)
        (pick_primary_vector_reference references)))

-- The variables of the loop over the formats.
pub record Exporting : Type 0 where
  pub source_path : FilePath
  pub produced_artifact_path : Option FilePath
  pub context : Context

abbrev pub vector_suffix : FilePath → Bool
unfolding suffix lower mem
vector_suffix path = mem (lower (suffix path)) (".geojson" ∷ ".json" ∷ [])

-- A writer: the format, what is written, and the target.
abbrev pub Writer : Type 0
Writer = Format → FilePath → FilePath → Files → Result String Files

-- `_write_raster_copy` and `_write_png_preview_from_raster`, which look at their source first.
unfoldable pub write_raster : Writer → Format → FilePath → FilePath → Files → Result StepError Files
unfolding is_supported_raster
write_raster write format source path files = do
  guard (is_supported_raster files source) (not_a_raster source)
  from_library (write format source path files)

module _ (write : Writer) (working_dir : String) (node : OperationNode) where
  -- `working_dir / f"{step_id or 'export'}_…"`
  abbrev pub target : String → FilePath
  target ending = join working_dir (append_text (or_text node.step_id "export") ending)

  -- A new entry of `artifacts`, and `produced_artifact_path`.
  abbrev pub produce : Format → FilePath → Exporting → Files → Exporting
  produce format path e files = record e {
    produced_artifact_path = some path;
    context = record e.context {
      artifacts =
          e.context.artifacts
          ++ record { artifact_type = format; path = path; source_step = node.step_id } ∷ [];
      files = files;
    };
  }

  -- The raster that is exported as GeoTIFF.
  unfoldable pub geotiff_candidate : Exporting → Option FilePath
  unfolding is_supported_raster pick_primary_raster_reference
  geotiff_candidate e =
      if is_supported_raster e.context.files e.source_path
      then some e.source_path
      else elim (pick_primary_raster_reference e.context.references) [
        | none ↦ none
        | some path ↦ if is_supported_raster e.context.files path then some path else none
      ]

  -- The copy to `output_path`, if the node asks for one.
  unfoldable pub copy_to : Value → FilePath → Files → Result StepError (FilePath × Files)
  unfolding write_raster truthy
  copy_to requested candidate files =
      let desired = path_of requested in
      if truthy requested
      then if same_path candidate desired
        then ok (desired, files)
        else (do files' ← write_raster write geotiff candidate desired files; ok (desired, files'))
      else ok (candidate, files)

  abbrev pub exported_tif : FilePath → Exporting → Exporting
  exported_tif path e = record e {
    source_path = path;
    context = record e.context { exported_tif_path = some path };
  }

  abbrev pub raster_or_error : Format → Option FilePath → Result StepError FilePath
  raster_or_error format none = err (no_raster_to_export format)
  raster_or_error format (some path) = ok path

  unfoldable pub export_geotiff : Exporting → Result StepError Exporting
  unfolding geotiff_candidate copy_to lookup
  export_geotiff e = do
    candidate ← raster_or_error geotiff (geotiff_candidate e)
    copied ← copy_to (param_at "output_path" node.params) candidate e.context.files
    ok (exported_tif copied.0 (produce geotiff copied.0 e copied.1))

  abbrev pub exported_png : FilePath → Exporting → Exporting
  exported_png path e = record e { context = record e.context { exported_png_path = some path } }

  unfoldable pub png_source : Exporting → Option FilePath
  unfolding is_supported_raster pick_primary_raster_reference
  png_source e =
      if is_supported_raster e.context.files e.source_path
      then some e.source_path
      else pick_primary_raster_reference e.context.references

  unfoldable pub export_png : Exporting → Result StepError Exporting
  unfolding png_source write_raster
  export_png e = do
    source ← raster_or_error png_map (png_source e)
    files ← write_raster write png_map source (target "_preview.png") e.context.files
    ok (exported_png (target "_preview.png") (produce png_map (target "_preview.png") e files))

  -- A file that is written anew; the writers of GeoPackage and shapefile take the geometries of the
  -- source, or a default one.
  unfoldable pub export_new : Format → FilePath → String → Exporting → Result StepError Exporting
  export_new format source ending e = do
    files ← from_library (write format source (target ending) e.context.files)
    ok (produce format (target ending) e files)

  unfoldable pub export_csv : Exporting → Result StepError Exporting
  unfolding suffix lower export_new
  export_csv e =
      if str_eq (lower (suffix e.source_path)) ".csv"
      then ok (produce csv e.source_path e e.context.files)
      else export_new csv e.source_path "_table.csv" e

  unfoldable pub geojson_source : Exporting → FilePath
  unfolding suffix lower mem pick_primary_vector_reference
  geojson_source e =
      if vector_suffix e.source_path
      then e.source_path
      else elim (pick_primary_vector_reference e.context.references) [
        | none ↦ e.source_path
        | some path ↦ path
      ]

  unfoldable pub export_geojson : Exporting → Result StepError Exporting
  unfolding suffix lower mem geojson_source export_new
  export_geojson e =
      let source = geojson_source e in
      if e.context.files.exists source && vector_suffix source
      then ok (produce geojson source e e.context.files)
      else export_new geojson source "_vector.geojson" e

  unfoldable pub export_as : Option Format → Value → Exporting → Result StepError Exporting
  unfolding export_geotiff export_png export_csv export_geojson export_new
  export_as none fmt e = err (unsupported_format fmt)
  export_as (some geotiff) fmt e = export_geotiff e
  export_as (some png_map) fmt e = export_png e
  export_as (some csv) fmt e = export_csv e
  export_as (some geojson) fmt e = export_geojson e
  export_as (some gpkg) fmt e = export_new gpkg e.source_path "_vector.gpkg" e
  export_as (some shapefile) fmt e = export_new shapefile e.source_path "_vector.shp" e

  -- The loop over the formats.
  unfoldable pub export_all : List Value → Exporting → Result StepError Exporting
  unfolding export_as format_of
  export_all [] e = ok e
  export_all (fmt ∷ formats) e = export_as (format_of fmt) fmt e >>= export_all formats

  -- `references[artifact_ref] = produced_artifact_path`
  abbrev pub refer : String → Option FilePath → References → References
  unfolding insert
  refer name none references = references
  refer name (some path) references =
      if non_empty name then insert name path references else references

  abbrev pub or_no_source : Option FilePath → Result StepError FilePath
  or_no_source none = err no_export_source
  or_no_source (some path) = ok path

  -- The branch of `artifact.export`.
  unfoldable pub export : Context → Result StepError Context
  unfolding export_source export_formats export_all insert lookup
  export c = do
    source ← or_no_source (export_source node c.references)
    formats ← export_formats node
    e ←
        export_all formats
          (record { source_path = source; produced_artifact_path = none; context = c })
    ok (record e.context {
      references =
          refer (text_at "artifact" node.outputs) e.produced_artifact_path e.context.references;
    })

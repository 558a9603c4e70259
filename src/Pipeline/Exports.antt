-- ===== src/Pipeline/Exports.antt =====
-- What `artifact.export` of packages/domain/services/processing_pipeline.py adds.
use mathlib.Core.List.{append_assoc, append-nil}
use gis_agent.Prelude.{
  String, Option, none, some, List, [], ◌∷◌, ◌++◌, str_eq, ◌≡◌, refl, sym, ap, ◌∙◌, inl, inr, subst,
  ◌&&◌,
}
use gis_agent.Prelude.Result.{ok, bind-ok, same_value, test_or}
use gis_agent.Prelude.Text.{lower}
use gis_agent.Value.{Value}
use gis_agent.Plan.{OperationNode}
use gis_agent.Pipeline.Files.{FilePath, Files, suffix}
use gis_agent.Pipeline.Sources.{text_at, param_at}
use gis_agent.Pipeline.Context.{
  Format, geotiff, png_map, csv, geojson, gpkg, shapefile, Artifact, Context, from_library,
}
use gis_agent.Pipeline.Export.{
  Exporting, Writer, format_of, produce, export_geotiff, export_png, export_csv, export_geojson,
  export_new, export_as, export_all, export, export_formats, export_source, or_no_source, refer,
  raster_or_error, geotiff_candidate, copy_to, write_raster, target, png_source, geojson_source,
  vector_suffix,
}

module _ (write : Writer) (working_dir : String) (node : OperationNode) where
  -- One format adds one artifact of the step, and is what was last produced.
  record IsOne (format : Format) (e e' : Exporting) : Type 0 where
    path : FilePath
    added :
        e'.context.artifacts
        ≡ e.context.artifacts
          ++ record { artifact_type = format; path = path; source_step = node.step_id } ∷ []
    last : e'.produced_artifact_path ≡ some path
    same_references : e'.context.references ≡ e.context.references

  by_produce :
      (format : Format) (path : FilePath) (e e' : Exporting) (files : Files)
      → produce write working_dir node format path e files ≡ e'
      → IsOne format e e'
  by_produce format path e e' files h =
      subst (IsOne format e) h
        (record { path = path; added = refl; last = refl; same_references = refl })

  export_new-IsOne :
      (format : Format) (source : FilePath) (ending : String) (e e' : Exporting)
      → export_new write working_dir node format source ending e ≡ ok e'
      → IsOne format e e'
  unfolding export_new
  export_new-IsOne format source ending e e' h =
      let (files, h1, _) =
        bind-ok
          (from_library
            (write format source (target write working_dir node ending) e.context.files))
          _ h in
      by_produce format _ e e' files (same_value h1)

  export_as-IsOne :
      (format : Format) (fmt : Value) (e e' : Exporting)
      → export_as write working_dir node (some format) fmt e ≡ ok e'
      → IsOne format e e'
  unfolding export_as export_geotiff export_png export_csv export_geojson
  export_as-IsOne geotiff fmt e e' h =
      let (candidate, h1, _) =
        bind-ok
          (raster_or_error write working_dir node geotiff
            (geotiff_candidate write working_dir node e))
          _ h in
      let (copied, h2, _) =
        bind-ok
          (copy_to write working_dir node (param_at "output_path" node.params) candidate
            e.context.files)
          _ h1 in
      subst (IsOne geotiff e) (same_value h2)
        (record { path = copied.0; added = refl; last = refl; same_references = refl })
  export_as-IsOne png_map fmt e e' h =
      let preview = target write working_dir node "_preview.png" in
      let (source, h1, _) =
        bind-ok
          (raster_or_error write working_dir node png_map (png_source write working_dir node e)) _
          h in
      let (files, h2, _) =
        bind-ok (write_raster write png_map source preview e.context.files) _ h1 in
      subst (IsOne png_map e) (same_value h2)
        (record { path = preview; added = refl; last = refl; same_references = refl })
  export_as-IsOne csv fmt e e' h =
      elim (test_or (str_eq (lower (suffix e.source_path)) ".csv") _ h) [
        | inl same ↦ by_produce csv e.source_path e e' e.context.files same
        | inr new ↦ export_new-IsOne csv e.source_path "_table.csv" e e' new
      ]
  export_as-IsOne geojson fmt e e' h =
      let source = geojson_source write working_dir node e in
      elim (test_or (e.context.files.exists source && vector_suffix source) _ h) [
        | inl same ↦ by_produce geojson source e e' e.context.files same
        | inr new ↦ export_new-IsOne geojson source "_vector.geojson" e e' new
      ]
  export_as-IsOne gpkg fmt e e' h = export_new-IsOne gpkg e.source_path "_vector.gpkg" e e' h
  export_as-IsOne shapefile fmt e e' h =
      export_new-IsOne shapefile e.source_path "_vector.shp" e e' h

  -- The artifacts of a list of formats, in their order.
  pub data Exports : List Value → List Artifact → Type 0 where
    nothing : Exports [] []
    exported :
        {formats : List Value} {artifacts : List Artifact} (fmt : Value) (path : FilePath)
        (format : Format)
        → format_of fmt ≡ some format
        → Exports formats artifacts
        → Exports
            (fmt ∷ formats)
            (record { artifact_type = format; path = path; source_step = node.step_id } ∷ artifacts)

  -- What the loop over the formats does.
  record Exported (formats : List Value) (e e' : Exporting) : Type 0 where
    artifacts : List Artifact
    each : Exports formats artifacts
    added : e'.context.artifacts ≡ e.context.artifacts ++ artifacts
    same_references : e'.context.references ≡ e.context.references

  known_format :
      (o : Option Format) (fmt : Value) (e e' : Exporting)
      → export_as write working_dir node o fmt e ≡ ok e'
      → (format : Format) × (o ≡ some format) × IsOne format e e'
  unfolding export_as
  known_format none fmt e e' h = cc
  known_format (some format) fmt e e' h = (format, refl, export_as-IsOne format fmt e e' h)

  export_all-Exported :
      (formats : List Value) (e e' : Exporting)
      → export_all write working_dir node formats e ≡ ok e'
      → Exported formats e e'
  unfolding export_all
  export_all-Exported [] e e' h = subst (Exported [] e) (same_value h) (record {
    artifacts = [];
    each = nothing;
    added = sym (append-nil e.context.artifacts);
    same_references = refl;
  })
  export_all-Exported (fmt ∷ formats) e e' h =
      let (next, rest, first) =
        bind-ok (export_as write working_dir node (format_of fmt) fmt e) _ h in
      let (format, named, one) = known_format (format_of fmt) fmt e next first in
      let later = export_all-Exported formats next e' rest in
      record {
        artifacts =
            record { artifact_type = format; path = one.path; source_step = node.step_id }
            ∷ later.artifacts;
        each = exported fmt one.path format named later.each;
        added =
            later.added
            ∙ ap (λ (l : List Artifact). l ++ later.artifacts) one.added
            ∙ append_assoc e.context.artifacts _ later.artifacts;
        same_references = later.same_references ∙ one.same_references;
      }

  -- What the branch adds to the context: the artifacts of its formats, in their order, and no
  -- reference but the one to the last of them.
  pub record IsExport (c c' : Context) : Type 0 where
    pub formats : List Value
    pub asked : export_formats node ≡ ok formats
    pub artifacts : List Artifact
    pub each : Exports formats artifacts
    pub added : c'.artifacts ≡ c.artifacts ++ artifacts
    pub produced : Option FilePath
    pub referred :
        c'.references
        ≡ refer write working_dir node (text_at "artifact" node.outputs) produced c.references

  -- When `artifact.export` returns, it has added one artifact for each of the formats that the step
  -- asks for, in their order, each in the format that its name stands for and with the step as its
  -- source, and at most the reference of its own output.
  pub export-IsExport : (c c' : Context) → export write working_dir node c ≡ ok c' → IsExport c c'
  unfolding export
  export-IsExport c c' h =
      let (source, h1, _) =
        bind-ok (or_no_source write working_dir node (export_source node c.references)) _ h in
      let (formats, h2, asked) = bind-ok (export_formats node) _ h1 in
      let (e, h3, looped) =
        bind-ok
          (export_all write working_dir node formats
            (record { source_path = source; produced_artifact_path = none; context = c }))
          _ h2 in
      let x = export_all-Exported formats _ e looped in
      subst (IsExport c) (same_value h3) (record {
        formats = formats;
        asked = asked;
        artifacts = x.artifacts;
        each = x.each;
        added = x.added;
        produced = e.produced_artifact_path;
        referred =
            ap
              (refer write working_dir node (text_at "artifact" node.outputs)
                e.produced_artifact_path)
              x.same_references;
      })

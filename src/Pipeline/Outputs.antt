-- ===== src/Pipeline/Outputs.antt =====
-- What `run_processing_pipeline` of packages/domain/services/processing_pipeline.py returns behind
-- its loop. The measures of a raster are an argument, as is the writer of files.
use gis_agent.Prelude.{
  String, Bool, true, false, Option, none, some, List, if◌then◌else◌, ◌≡◌, refl, inl, inr,
  Option-cases, subst, sym, ap,
}
use gis_agent.Prelude.Result.{Result, ok, ◌>>=◌, bind-ok, same_value}
use gis_agent.Pipeline.Files.{FilePath, Files, join, is_supported_raster}
use gis_agent.Pipeline.Sources.{pick_primary_raster_reference}
use gis_agent.Pipeline.Context.{Artifact, Context, StepError, png_map}
use gis_agent.Pipeline.Export.{Writer, write_raster, or_else}

-- The returned dictionary; `metrics` is `none` where all measures are `None`.
pub record PipelineOutputs (M : Type 0) : Type 0 where
  pub artifacts : List Artifact
  pub tif_path : Option FilePath
  pub png_path : Option FilePath
  pub metrics : Option M

abbrev if_supported : Files → Option FilePath → Option FilePath
if_supported files none = none
if_supported files (some path) = if is_supported_raster files path then some path else none

abbrev pub primary_tif : Context → Option FilePath
primary_tif c = or_else c.exported_tif_path (pick_primary_raster_reference c.references)

-- `primary_tif`, if it is a supported raster.
unfoldable pub supported_tif : Context → Option FilePath
unfolding is_supported_raster pick_primary_raster_reference
supported_tif c = if_supported c.files (primary_tif c)

abbrev if_exists : Files → Option FilePath → Option FilePath
if_exists files none = none
if_exists files (some path) = if files.exists path then some path else none

-- `exported_png_path`, if the file exists.
abbrev pub existing_png : Context → Option FilePath
existing_png c = if_exists c.files c.exported_png_path

kept_if :
    (passes : Bool) (path tif : FilePath)
    → (if passes then some path else none) ≡ some tif
    → (passes ≡ true) × (path ≡ tif)
kept_if true path tif h = (refl, cc)
kept_if false path tif h = cc

not_kept_if :
    (passes : Bool) (path : FilePath)
    → (◌≡◌ {A = Option FilePath} (if passes then some path else none) none)
    → passes ≡ false
not_kept_if true path h = cc
not_kept_if false path h = refl

if_supported-ok :
    (files : Files) (o : Option FilePath) (tif : FilePath)
    → if_supported files o ≡ some tif
    → (o ≡ some tif) × (is_supported_raster files tif ≡ true)
if_supported-ok files none tif h = cc
if_supported-ok files (some path) tif h =
    let (opens, same) = kept_if (is_supported_raster files path) path tif h in
    subst (λ p. (some path ≡ some p) × (is_supported_raster files p ≡ true)) same (refl, opens)

if_supported-none :
    (files : Files) (o : Option FilePath)
    → if_supported files o ≡ none
    → (tif : FilePath) → o ≡ some tif
    → is_supported_raster files tif ≡ false
if_supported-none files none h tif same = cc
if_supported-none files (some path) h tif same =
    let refused = not_kept_if (is_supported_raster files path) path h in
    let is_path : path ≡ tif = cc in
    subst (λ p. is_supported_raster files p ≡ false) is_path refused

if_exists-none :
    (files : Files) (o : Option FilePath)
    → if_exists files o ≡ none
    → (png : FilePath) → o ≡ some png
    → files.exists png ≡ false
if_exists-none files none h png same = cc
if_exists-none files (some path) h png same =
    let absent = not_kept_if (files.exists path) path h in
    let is_path : path ≡ png = cc in subst (λ p. files.exists p ≡ false) is_path absent

if_exists-ok :
    (files : Files) (o : Option FilePath) (png : FilePath)
    → if_exists files o ≡ some png
    → (o ≡ some png) × (files.exists png ≡ true)
if_exists-ok files none png h = cc
if_exists-ok files (some path) png h =
    let (there, same) = kept_if (files.exists path) path png h in
    subst (λ p. (some path ≡ some p) × (files.exists p ≡ true)) same (refl, there)

tif-supported :
    (c : Context) (tif : FilePath)
    → supported_tif c ≡ some tif
    → (primary_tif c ≡ some tif) × (is_supported_raster c.files tif ≡ true)
unfolding supported_tif
tif-supported c tif h = if_supported-ok c.files (primary_tif c) tif h

no_tif-supported :
    (c : Context)
    → supported_tif c ≡ none
    → (tif : FilePath) → primary_tif c ≡ some tif
    → is_supported_raster c.files tif ≡ false
unfolding supported_tif
no_tif-supported c h = if_supported-none c.files (primary_tif c) h

module _ {M : Type 0} (compute_raster_metrics : FilePath → Files → M) (write : Writer)
    (working_dir : String) where
  -- The preview that is taken or written.
  unfoldable pub preview_of :
      Option FilePath → FilePath → Context → Result StepError (FilePath × Files)
  unfolding write_raster
  preview_of (some png) tif c = ok (png, c.files)
  preview_of none tif c = do
    files ← write_raster write png_map tif (join working_dir "processing_preview.png") c.files
    ok (join working_dir "processing_preview.png", files)

  unfoldable pub outputs_from : Option FilePath → Context → Result StepError (PipelineOutputs M)
  unfolding preview_of
  outputs_from none c = ok (record {
    artifacts = c.artifacts;
    tif_path = none;
    png_path = existing_png c;
    metrics = none;
  })
  outputs_from (some tif) c = do
    preview ← preview_of (existing_png c) tif c
    ok (record {
      artifacts = c.artifacts;
      tif_path = some tif;
      png_path = some preview.0;
      metrics = some (compute_raster_metrics tif preview.1);
    })

  -- The end of `run_processing_pipeline`.
  unfoldable pub pipeline_outputs : Context → Result StepError (PipelineOutputs M)
  unfolding supported_tif outputs_from
  pipeline_outputs c = outputs_from (supported_tif c) c

  -- What is returned: without a raster that opens, no measures and the preview that was exported; with
  -- one, its measures and the preview that was exported, or else the one that is written for it.
  pub data IsOutput (c : Context) (o : PipelineOutputs M) : Type 0 where
    no_raster :
        ((tif : FilePath) → primary_tif c ≡ some tif → is_supported_raster c.files tif ≡ false)
        → o.tif_path ≡ none
        → o.png_path ≡ existing_png c
        → o.metrics ≡ none
        → IsOutput c o
    with_exported :
        (tif png : FilePath)
        → primary_tif c ≡ some tif
        → is_supported_raster c.files tif ≡ true
        → o.tif_path ≡ some tif
        → c.exported_png_path ≡ some png
        → c.files.exists png ≡ true
        → o.png_path ≡ some png
        → o.metrics ≡ some (compute_raster_metrics tif c.files)
        → IsOutput c o
    with_written :
        (tif : FilePath) (files : Files)
        → primary_tif c ≡ some tif
        → is_supported_raster c.files tif ≡ true
        → o.tif_path ≡ some tif
        → ((png : FilePath) → c.exported_png_path ≡ some png → c.files.exists png ≡ false)
        → write_raster write png_map tif (join working_dir "processing_preview.png") c.files
          ≡ ok files
        → o.png_path ≡ some (join working_dir "processing_preview.png")
        → o.metrics ≡ some (compute_raster_metrics tif files)
        → IsOutput c o

  -- When the end of the pipeline returns, its raster is the primary one of the context, which is the
  -- exported one or else the one picked of the references, and which is a supported raster: it is there,
  -- has the ending of a TIFF and opens. There is none only where the context has no primary raster, or
  -- one that is not supported. With a raster the measures
  -- are those of that raster, and the preview is the exported one, if it exists, or else the one that
  -- is written from that raster; without a raster there are no measures, and the preview is the
  -- exported one, if it exists.
  pub pipeline_outputs-IsOutput :
      (c : Context) (o : PipelineOutputs M) → pipeline_outputs c ≡ ok o → IsOutput c o
  unfolding pipeline_outputs outputs_from preview_of
  pipeline_outputs-IsOutput c o h = elim (Option-cases (supported_tif c)) [
    | inl none_there ↦
        let same : outputs_from none c ≡ ok o = rw (pipeline_outputs, none_there) at h in
        subst (IsOutput c) (same_value same)
          (no_raster (no_tif-supported c none_there) refl refl refl)
    | inr (tif, found) ↦
        let (primary, opens) = tif-supported c tif found in
        let h1 : outputs_from (some tif) c ≡ ok o = rw (pipeline_outputs, found) at h in
        elim (Option-cases (existing_png c)) [
          | inr (png, exported) ↦
              let (kept, there) = if_exists-ok c.files c.exported_png_path png exported in
              let returned = rw (outputs_from, preview_of, exported) at h1 in
              subst (IsOutput c) (same_value returned)
                (with_exported tif png primary opens refl kept there refl refl)
          | inl absent ↦
              let h2 = rw (outputs_from, preview_of, absent) at h1 in
              let (preview, returned, previewed) = bind-ok _ _ h2 in
              let (files, same, wrote) = bind-ok _ _ previewed in
              subst (IsOutput c) (same_value returned) (
                with_written tif files primary opens refl
                  (if_exists-none c.files c.exported_png_path absent) wrote
                  (ap (λ (p : FilePath × Files). some p.0) (sym (same_value same)))
                  (ap (λ (p : FilePath × Files). some (compute_raster_metrics tif p.1))
                    (sym (same_value same))))
        ]
  ]

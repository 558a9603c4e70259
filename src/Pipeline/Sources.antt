-- ===== src/Pipeline/Sources.antt =====
-- `_resolve_raster_source` and `_resolve_vector_source` of
-- packages/domain/services/processing_pipeline.py.
use gis_agent.Prelude.{
  String, Bool, true, false, not, ◌&&◌, ◌||◌, Option, none, some, [], ◌∷◌, str_eq, if◌then◌else◌,
}
use gis_agent.Prelude.Result.{Result, ok, err}
use gis_agent.Prelude.Text.{append_text, ends_with, lower, non_empty}
use gis_agent.Prelude.Dict.{Dict, lookup}
use gis_agent.Value.{Value, null, truthy}
use gis_agent.Plan.{OperationNode}
use gis_agent.Pipeline.Files.{
  FilePath, named, printed, path_of, Files, with_file, join, is_supported_raster,
}

-- The `ValueError`s of the two functions; each message names the step.
pub data SourceError : Type 0 where
  no_raster_source no_vector_source : (step_id : String) → SourceError
  invalid_raster : (step_id : String) → FilePath → SourceError

-- `references`: the files that the steps so far have left, under the names of the outputs.
abbrev pub References : Type 0
References = Dict FilePath

abbrev pub has_ending : String → String → FilePath → Bool
has_ending one other (named s) = ends_with (lower s) one || ends_with (lower s) other
has_ending one other (printed value) = false

abbrev pick : (FilePath → Bool) → References → Option FilePath
pick p [] = none
pick p ((key, path) ∷ references) =
    let rest = pick p references in if p path then some path else rest

-- `_pick_primary_raster_reference`
unfoldable pub pick_primary_raster_reference : References → Option FilePath
unfolding lower ends_with
pick_primary_raster_reference = pick (has_ending ".tif" ".tiff")

-- `_pick_primary_vector_reference`
unfoldable pub pick_primary_vector_reference : References → Option FilePath
unfolding lower ends_with
pick_primary_vector_reference = pick (has_ending ".geojson" ".json")

-- `text or default`
abbrev pub or_text : String → String → String
or_text s default = if non_empty s then s else default

-- `str(d.get(key) or "")`
abbrev pub text_at : String → Dict String → String
text_at key d = elim (lookup key d) [ none ↦ "" | some s ↦ s ]

abbrev pub param_at : String → Dict Value → Value
param_at key d = elim (lookup key d) [ none ↦ null | some value ↦ value ]

-- `a or b`
abbrev pub or_value : Value → Value → Value
or_value first second = if truthy first then first else second

-- A candidate for the source, with `source_from_explicit_ref`.
abbrev pub Candidate : Type 0
Candidate = FilePath × Bool

abbrev pub implicit : Option FilePath → Option Candidate
implicit none = none
implicit (some path) = some (path, false)

abbrev pub from_param : Value → Option FilePath → Option Candidate
from_param value primary = if truthy value then some (path_of value, true) else implicit primary

abbrev pub from_reference : Option FilePath → Option Candidate → Option Candidate
from_reference (some path) others = some (path, true)
from_reference none others = others

abbrev pub reference_of : String → References → Option FilePath
reference_of name references = if non_empty name then lookup name references else none

-- `source_path` of `_resolve_raster_source`, before it falls back to a default file.
unfoldable pub raster_candidate : OperationNode → References → Option Candidate
unfolding lookup truthy pick_primary_raster_reference
raster_candidate node references =
    from_reference (reference_of (text_at "raster" node.inputs) references)
      (from_param (param_at "source_path" node.params) (pick_primary_raster_reference references))

-- `source_candidate` of `_resolve_vector_source`.
unfoldable pub vector_candidate : OperationNode → References → Option Candidate
unfolding lookup truthy pick_primary_vector_reference
vector_candidate node references =
    from_reference (reference_of (text_at "upload_id" node.inputs) references) (
      from_param
        (or_value (param_at "source_path" node.params) (
          or_value (param_at "clip_path" node.params)
            (or_value (param_at "aoi_path" node.params) (param_at "vector_path" node.params))))
        (pick_primary_vector_reference references))

-- `strict_source_required`
unfoldable pub is_strict : String → OperationNode → Bool
unfolding lookup
is_strict upload node = non_empty (text_at "upload_id" node.inputs) || str_eq node.op_name upload

abbrev pub Resolved : Type 0
Resolved = Result SourceError (FilePath × Files)

module _ (working_dir : String) (allow_fallback : Bool) where
  -- The end of `_resolve_raster_source`, with `may_fall_back` for what the last `if` asks.
  unfoldable pub checked_raster : Bool → String → FilePath → Files → Resolved
  unfolding is_supported_raster
  checked_raster may_fall_back step path files =
      if is_supported_raster files path
      then ok (path, files)
      else if may_fall_back
      then ok (path, with_file path files)
      else err (invalid_raster step path)

  -- `_resolve_raster_source`
  unfoldable pub resolve_raster_source : OperationNode → References → Files → Resolved
  unfolding raster_candidate is_strict checked_raster
  resolve_raster_source node references files =
      let step = or_text node.step_id "step" in
      let free = allow_fallback && not (is_strict "input.upload_raster" node) in
      elim (raster_candidate node references) [
        | some (path, explicit) ↦ checked_raster (free && not explicit) step path files
        | none ↦
            let default = join working_dir (append_text step "_source.tif") in
            if free
            then checked_raster free step default (with_file default files)
            else err (no_raster_source step)
      ]

  -- The end of `_resolve_vector_source`.
  abbrev pub vector_fallback : Bool → String → Files → Resolved
  vector_fallback may_fall_back step files =
      let default = join working_dir (append_text step "_source.geojson") in
      if may_fall_back then ok (default, with_file default files) else err (no_vector_source step)

  -- `_resolve_vector_source`
  unfoldable pub resolve_vector_source : OperationNode → References → Files → Resolved
  unfolding vector_candidate is_strict
  resolve_vector_source node references files =
      let step = or_text node.step_id "step" in
      let free = allow_fallback && not (is_strict "input.upload_vector" node) in
      elim (vector_candidate node references) [
        | some (path, explicit) ↦
            if files.exists path
            then ok (path, files)
            else vector_fallback (free && not explicit) step files
        | none ↦ vector_fallback free step files
      ]

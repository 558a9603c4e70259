-- ===== src/Pipeline/Defaults.antt =====
-- The default formats of `artifact.export` in packages/domain/services/operation_registry.py, and
-- the export of packages/domain/services/processing_pipeline.py.
use gis_agent.Prelude.{String, none, some, List, [], ◌∷◌, ◌≡◌, refl, sym, ◌∙◌, subst}
use gis_agent.Prelude.Result.{ok, same_value}
use gis_agent.Prelude.Dict.{Dict, lookup}
use gis_agent.Value.{Value, str}
use gis_agent.Plan.{OperationNode}
use gis_agent.Registry.{operation_specs}
use gis_agent.Pipeline.Context.{Artifact, Context}
use gis_agent.Pipeline.Export.{Writer, export, export_formats, format_of}
use gis_agent.Pipeline.Exports.{Exports, exported, export-IsExport}

-- `OPERATION_SPECS[op_name].default_params`
abbrev pub default_params_of : String → Dict Value
unfolding lookup operation_specs
default_params_of op = elim (lookup op operation_specs) [
  | none ↦ []
  | some spec ↦ spec.default_params
]

module _ (write : Writer) (working_dir : String) (node : OperationNode) where
  no_summary :
      {artifacts : List Artifact}
      → ¬ (
          Exports write working_dir node
            (str "geotiff" ∷ str "png_map" ∷ str "summary_md" ∷ [])
            artifacts)
  unfolding format_of
  no_summary (exported _ _ _ _ (exported _ _ _ _ (exported _ _ format e _))) = cc

  asked :
      node.params ≡ default_params_of "artifact.export"
      → export_formats node ≡ ok (str "geotiff" ∷ str "png_map" ∷ str "summary_md" ∷ [])
  unfolding export_formats lookup operation_specs
  asked e = rw e refl

  -- An export whose parameters are the defaults of the registry never returns, whatever there is to
  -- export: the last of its formats is none of the exporter's.
  pub default_export_raises :
      node.params ≡ default_params_of "artifact.export"
      → (c c' : Context) → ¬ (export write working_dir node c ≡ ok c')
  default_export_raises e c c' returned =
      let x = export-IsExport write working_dir node c c' returned in
      let same = same_value (sym x.asked ∙ asked e) in
      no_summary (subst (λ l. Exports write working_dir node l x.artifacts) same x.each)

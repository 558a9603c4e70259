-- ===== src/Builder/Exportable.antt =====
-- The export formats of packages/domain/services/operation_plan_builder.py against the export of
-- packages/domain/services/processing_pipeline.py.
use gis_agent.Prelude.{
  String, Bool, true, false, Option, none, some, List, [], ◌∷◌, map, keep, mem, is_empty, All,
  str_eq, if◌then◌else◌, ◌≡◌, refl, inl, inr, Bool-cases,
}
use gis_agent.Prelude.Sublists.{All-map, all-All, kept}
use gis_agent.Prelude.Dict.{lookup}
use gis_agent.Prelude.Text.{lower}
use gis_agent.Value.{str}
use gis_agent.PlanGuard.Graph.Sets.{mem_of_All}
use gis_agent.Pipeline.Context.{Format}
use gis_agent.Pipeline.Export.{format_of, format_names}
use gis_agent.Builder.Formats.{
  raster_export_formats, vector_export_formats, table_export_formats, normalize_format, or_formats,
  raster_formats, normalize_export_formats,
}

abbrev is_format : Option Format → Bool
is_format none = false
is_format (some format) = true

-- The exporter knows the format.
pub is_exportable : String → Bool
unfolding format_of
is_exportable name = is_format (format_of (str name))

-- Formats that can be exported, at least one of them.
pub record IsExportable (formats : List String) : Type 0 where
  pub some_format : is_empty formats ≡ false
  pub each : All (λ name. is_exportable name ≡ true) formats

module _ (allowed : List String) (good : All (λ name. is_exportable name ≡ true) allowed) where
  kept_formats :
      (preferred : List String)
      → All (λ name. is_exportable name ≡ true) (keep (λ name. mem name allowed) preferred)
  kept_formats preferred =
      All-map (keep (λ name. mem name allowed) preferred)
        (λ name there. mem_of_All is_exportable name allowed good there)
        (kept (λ name. mem name allowed) preferred)

  or-IsExportable :
      (default preferred : List String)
      → IsExportable default
      → IsExportable (or_formats (keep (λ name. mem name allowed) preferred) default)
  or-IsExportable default preferred d =
      elim (Bool-cases (is_empty (keep (λ name. mem name allowed) preferred))) [
        | inl none_there ↦ rw none_there d
        | inr some_there ↦
            rw some_there (record { some_format = some_there; each = kept_formats preferred })
      ]

raster_good : All (λ name. is_exportable name ≡ true) raster_export_formats
unfolding is_exportable format_of
raster_good =
    all-All is_exportable raster_export_formats
      (unfold is_exportable lookup format_names lower in refl)

vector_good : All (λ name. is_exportable name ≡ true) vector_export_formats
vector_good =
    all-All is_exportable vector_export_formats
      (unfold is_exportable lookup format_names lower in refl)

table_good : All (λ name. is_exportable name ≡ true) table_export_formats
table_good =
    all-All is_exportable table_export_formats
      (unfold is_exportable lookup format_names lower in refl)

either-IsExportable :
    (test : Bool) (one other : List String)
    → IsExportable one
    → IsExportable other
    → IsExportable (if test then one else other)
either-IsExportable true one other h k = h
either-IsExportable false one other h k = k

by_default : (name : String) → is_exportable name ≡ true → IsExportable (name ∷ [])
by_default name good = record { some_format = refl; each = (good, tt) }

raster-IsExportable : (preferred : List String) → IsExportable (raster_formats preferred)
unfolding raster_formats
raster-IsExportable preferred =
    let formats = keep (λ name. mem name raster_export_formats) preferred in
    let each = kept_formats raster_export_formats raster_good preferred in
    elim (Bool-cases (is_empty formats)) [
      | inl none_there ↦
          rw none_there
            (record { some_format = refl; each = (raster_good.0, (raster_good.1.1.1.0, tt)) })
      | inr some_there ↦ rw some_there (
          either-IsExportable (mem "geotiff" formats) formats ("geotiff" ∷ formats)
            (record { some_format = some_there; each = each })
            (record { some_format = refl; each = (raster_good.0, each) }))
    ]

-- Whatever output a task prefers, the formats of the export that the builder adds are at least one,
-- and the exporter knows each of them.
pub normalize-IsExportable :
    (primary_type : Option String) (preferred_output : List String)
    → IsExportable (normalize_export_formats primary_type preferred_output)
unfolding normalize_export_formats
normalize-IsExportable none preferred = raster-IsExportable (map normalize_format preferred)
normalize-IsExportable (some type) preferred =
    let wished = map normalize_format preferred in
    either-IsExportable (str_eq type "vector") _ _
      (or-IsExportable vector_export_formats vector_good ("geojson" ∷ []) wished
        (by_default "geojson" vector_good.0))
      (either-IsExportable (str_eq type "table") _ _
        (or-IsExportable table_export_formats table_good ("csv" ∷ []) wished
          (by_default "csv" table_good.0))
        (raster-IsExportable wished))

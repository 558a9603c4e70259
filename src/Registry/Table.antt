-- ===== src/Registry/Table.antt =====
-- `OPERATION_SPECS` of packages/domain/services/operation_registry.py, entry by entry.
use gis_agent.Prelude.{true, false, [], ◌∷◌, ◌++◌}
use gis_agent.Prelude.Int.{pos}
use gis_agent.Prelude.Dict.{Dict}
use gis_agent.Value.{boolean, int, float, str, list, dict, no_items, item, no_fields, entry}
use gis_agent.Registry.Spec.{OperationSpec, make_spec, requires}

abbrev pub input_specs : Dict OperationSpec
input_specs =
    (
      "input.upload_raster",
      requires ("source_path" ∷ []) (
          make_spec "input.upload_raster" (("upload_id", "uploaded_file") ∷ [])
            (("raster", "raster") ∷ []) [] "_op_input_upload_raster"),
    )
    ∷ (
      "input.upload_vector",
      requires ("source_path" ∷ []) (
          make_spec "input.upload_vector" (("upload_id", "uploaded_file") ∷ [])
            (("vector", "vector") ∷ []) [] "_op_input_upload_vector"),
    )
    ∷ []

abbrev pub raster_specs : Dict OperationSpec
raster_specs =
    (
      "raster.clip",
      make_spec "raster.clip" (("raster", "raster") ∷ ("aoi", "vector") ∷ [])
          (("raster", "raster") ∷ []) (("crop", boolean true) ∷ []) "_op_raster_clip",
    )
    ∷ (
      "raster.reproject",
      make_spec "raster.reproject" (("raster", "raster") ∷ []) (("raster", "raster") ∷ [])
          (("target_crs", str "EPSG:4326") ∷ []) "_op_raster_reproject",
    )
    ∷ (
      "raster.resample",
      make_spec "raster.resample" (("raster", "raster") ∷ []) (("raster", "raster") ∷ [])
          (("resolution", int (pos 10)) ∷ []) "_op_raster_resample",
    )
    ∷ (
      "raster.band_math",
      requires ("expression" ∷ []) (
          make_spec "raster.band_math" (("raster", "raster") ∷ []) (("raster", "raster") ∷ []) []
            "_op_raster_band_math"),
    )
    ∷ (
      "raster.zonal_stats",
      make_spec "raster.zonal_stats" (("raster", "raster") ∷ ("zones", "vector") ∷ [])
          (("table", "table") ∷ [])
          (("stats", list (item (str "mean") (item (str "min") (item (str "max") no_items)))) ∷ [])
          "_op_raster_zonal_stats",
    )
    ∷ (
      "raster.terrain_slope",
      make_spec "raster.terrain_slope" (("raster", "raster") ∷ []) (("raster", "raster") ∷ []) []
          "_op_raster_terrain_slope",
    )
    ∷ (
      "raster.terrain_aspect",
      make_spec "raster.terrain_aspect" (("raster", "raster") ∷ []) (("raster", "raster") ∷ []) []
          "_op_raster_terrain_aspect",
    )
    ∷ (
      "raster.hillshade",
      make_spec "raster.hillshade" (("raster", "raster") ∷ []) (("raster", "raster") ∷ [])
          (("azimuth", float (pos 315) 0) ∷ ("altitude", float (pos 45) 0) ∷ [])
          "_op_raster_hillshade",
    )
    ∷ (
      "raster.mosaic",
      make_spec "raster.mosaic" (("rasters", "raster[]") ∷ []) (("raster", "raster") ∷ []) []
          "_op_raster_mosaic",
    )
    ∷ (
      "raster.reclassify",
      make_spec "raster.reclassify" (("raster", "raster") ∷ []) (("raster", "raster") ∷ [])
          ((
            "rules",
            list (
                item
                  (dict (
                    entry "min" (float (pos 0) 0)
                      (entry "max" (float (pos 1) 0) (entry "value" (float (pos 1) 0) no_fields))))
                  no_items),
          )
            ∷ [])
          "_op_raster_reclassify",
    )
    ∷ (
      "raster.mask",
      make_spec "raster.mask" (("raster", "raster") ∷ ("vector", "vector") ∷ [])
          (("raster", "raster") ∷ []) (("invert", boolean false) ∷ []) "_op_raster_mask",
    )
    ∷ (
      "raster.rasterize",
      make_spec "raster.rasterize" (("vector", "vector") ∷ ("raster", "raster") ∷ [])
          (("raster", "raster") ∷ []) (("burn_value", float (pos 1) 0) ∷ []) "_op_raster_rasterize",
    )
    ∷ []

abbrev pub vector_specs : Dict OperationSpec
vector_specs =
    (
      "vector.buffer",
      make_spec "vector.buffer" (("vector", "vector") ∷ []) (("vector", "vector") ∷ [])
          (("distance_m", float (pos 100) 0) ∷ []) "_op_vector_buffer",
    )
    ∷ (
      "vector.clip",
      make_spec "vector.clip" (("vector", "vector") ∷ ("clip_vector", "vector") ∷ [])
          (("vector", "vector") ∷ []) [] "_op_vector_clip",
    )
    ∷ (
      "vector.intersection",
      make_spec "vector.intersection" (("vector", "vector") ∷ ("overlay", "vector") ∷ [])
          (("vector", "vector") ∷ []) [] "_op_vector_intersection",
    )
    ∷ (
      "vector.dissolve",
      make_spec "vector.dissolve" (("vector", "vector") ∷ []) (("vector", "vector") ∷ []) []
          "_op_vector_dissolve",
    )
    ∷ (
      "vector.reproject",
      make_spec "vector.reproject" (("vector", "vector") ∷ []) (("vector", "vector") ∷ [])
          (("target_crs", str "EPSG:4326") ∷ []) "_op_vector_reproject",
    )
    ∷ (
      "vector.union",
      make_spec "vector.union" (("vector", "vector") ∷ ("overlay", "vector") ∷ [])
          (("vector", "vector") ∷ []) [] "_op_vector_union",
    )
    ∷ (
      "vector.erase",
      make_spec "vector.erase" (("vector", "vector") ∷ ("overlay", "vector") ∷ [])
          (("vector", "vector") ∷ []) [] "_op_vector_erase",
    )
    ∷ (
      "vector.simplify",
      make_spec "vector.simplify" (("vector", "vector") ∷ []) (("vector", "vector") ∷ [])
          (("tolerance", float (pos 1) 4) ∷ []) "_op_vector_simplify",
    )
    ∷ (
      "vector.spatial_join",
      make_spec "vector.spatial_join" (("vector", "vector") ∷ ("overlay", "vector") ∷ [])
          (("vector", "vector") ∷ []) (("predicate", str "intersects") ∷ [])
          "_op_vector_spatial_join",
    )
    ∷ (
      "vector.repair",
      make_spec "vector.repair" (("vector", "vector") ∷ []) (("vector", "vector") ∷ []) []
          "_op_vector_repair",
    )
    ∷ []

abbrev pub artifact_specs : Dict OperationSpec
artifact_specs =
    (
      "artifact.export",
      make_spec "artifact.export" (("primary", "any") ∷ []) (("artifact", "artifact") ∷ [])
          ((
            "formats",
            list (item (str "geotiff") (item (str "png_map") (item (str "summary_md") no_items))),
          )
            ∷ [])
          "_op_artifact_export",
    )
    ∷ []

unfoldable pub operation_specs : Dict OperationSpec
operation_specs = input_specs ++ (raster_specs ++ (vector_specs ++ artifact_specs))

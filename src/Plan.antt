-- ===== src/Plan.antt =====
-- packages/schemas/operation_plan.py: plans of operations, and what the schema checks.
use gis_agent.Prelude.{ℕ, String, Bool, ◌&&◌, List, [], ◌∷◌, leb, mem, all, distinct}
use gis_agent.Prelude.Text.{non_empty}
use gis_agent.Prelude.Dict.{Dict}
use gis_agent.Value.{Value}
use gis_agent.Prelude.Int.{ℤ}

-- `AllowedOperationName`
abbrev pub allowed_operation_names : List String
allowed_operation_names =
    "input.upload_raster" ∷ "input.upload_vector" ∷ "raster.clip" ∷ "raster.reproject"
    ∷ "raster.resample" ∷ "raster.band_math" ∷ "raster.zonal_stats" ∷ "raster.terrain_slope"
    ∷ "raster.terrain_aspect" ∷ "raster.hillshade" ∷ "raster.mosaic" ∷ "raster.reclassify"
    ∷ "raster.mask" ∷ "raster.rasterize" ∷ "vector.buffer" ∷ "vector.clip" ∷ "vector.intersection"
    ∷ "vector.dissolve" ∷ "vector.reproject" ∷ "vector.union" ∷ "vector.erase" ∷ "vector.simplify"
    ∷ "vector.spatial_join" ∷ "vector.repair" ∷ "artifact.export" ∷ []

-- `OperationPlanStatus`
pub data PlanStatus : Type 0 where
  draft validated approved rejected : PlanStatus

pub record OperationNode : Type 0 where
  pub step_id : String
  pub op_name : String
  pub depends_on : List String
  pub inputs : Dict String
  pub params : Dict Value
  pub outputs : Dict String
  pub retry_policy : Dict ℤ

pub record OperationPlan : Type 0 where
  pub version : ℕ
  pub status : PlanStatus
  pub missing_fields : List String
  pub nodes : List OperationNode

abbrev pub step_ids : List OperationNode → List String
step_ids [] = []
step_ids (n ∷ ns) = n.step_id ∷ step_ids ns

-- The field constraints of `OperationNode`.
unfoldable pub node_fits_schema : OperationNode → Bool
node_fits_schema n = non_empty n.step_id && mem n.op_name allowed_operation_names

-- The field constraints of `OperationPlan` with `validate_unique_step_ids`.
unfoldable pub plan_fits_schema : OperationPlan → Bool
unfolding node_fits_schema distinct
plan_fits_schema p = leb 1 p.version && all node_fits_schema p.nodes && distinct (step_ids p.nodes)

-- ===== src/ToolRegistry.antt =====
-- packages/domain/services/tool_registry.py: the tools behind the steps of a task. The contract of a
-- tool, which no operation reads, is left out.
use gis_agent.Prelude.{String, Option, none, some, List, [], ◌∷◌}
use gis_agent.Prelude.Dict.{Dict, lookup, insert}

pub record ToolDefinition : Type 0 where
  pub step_name : String
  pub tool_name : String
  pub title : String
  pub purpose : String
  pub reasoning : String
  pub depends_on : List String

-- `TOOL_STEP_SEQUENCE`
unfoldable pub tool_step_sequence : List String
tool_step_sequence =
    "plan_task" ∷ "normalize_aoi" ∷ "search_candidates" ∷ "recommend_dataset"
    ∷ "run_processing_pipeline" ∷ "generate_outputs" ∷ []

-- `TOOL_DEFINITIONS`
unfoldable pub tool_definitions : Dict ToolDefinition
tool_definitions =
    (
      "plan_task",
      record {
        step_name = "plan_task";
        tool_name = "planner.build";
        title = "规划任务";
        purpose = "把自然语言需求转成可执行的 GIS 工具计划。";
        reasoning = "先显式规划，后续执行和解释才有统一依据。";
        depends_on = [];
      },
    )
    ∷ (
      "normalize_aoi",
      record {
        step_name = "normalize_aoi";
        tool_name = "aoi.normalize";
        title = "标准化研究区";
        purpose = "把 bbox、文件边界或名称输入统一成可执行 AOI。";
        reasoning = "AOI 必须先稳定，后续目录搜索和裁剪才可靠。";
        depends_on = "plan_task" ∷ [];
      },
    )
    ∷ (
      "search_candidates",
      record {
        step_name = "search_candidates";
        tool_name = "catalog.search";
        title = "搜索候选数据";
        purpose = "针对 AOI 和时间窗检索 Sentinel、Landsat 等候选集。";
        reasoning = "先拿到候选目录摘要，后面才能做质量判断和推荐。";
        depends_on = "normalize_aoi" ∷ [];
      },
    )
    ∷ (
      "recommend_dataset",
      record {
        step_name = "recommend_dataset";
        tool_name = "recommendation.rank";
        title = "推荐数据源";
        purpose = "综合用户偏好和候选质量，输出主备方案排序。";
        reasoning = "推荐层负责把目录事实转成可解释的执行选择。";
        depends_on = "search_candidates" ∷ [];
      },
    )
    ∷ (
      "run_processing_pipeline",
      record {
        step_name = "run_processing_pipeline";
        tool_name = "processing.run";
        title = "执行通用处理";
        purpose = "执行操作计划中的栅格/矢量处理步骤。";
        reasoning = "处理逻辑由操作注册表统一调度，避免硬编码单一 NDVI 流程。";
        depends_on = "recommend_dataset" ∷ [];
      },
    )
    ∷ (
      "generate_outputs",
      record {
        step_name = "generate_outputs";
        tool_name = "artifacts.publish";
        title = "发布结果";
        purpose = "生成 PNG、GeoTIFF 和说明文本，并发布到工作台。";
        reasoning = "结果必须可下载、可预览、可解释，才算完成任务。";
        depends_on = "run_processing_pipeline" ∷ [];
      },
    )
    ∷ []

-- `get_tool_definition`
unfoldable pub get_tool_definition : String → Option ToolDefinition
unfolding lookup tool_definitions
get_tool_definition step_name = lookup step_name tool_definitions

abbrev with_definition : Option ToolDefinition → List ToolDefinition → List ToolDefinition
with_definition none definitions = definitions
with_definition (some definition) definitions = definition ∷ definitions

-- The definitions of some steps.
abbrev pub definitions_of : List String → List ToolDefinition
definitions_of [] = []
definitions_of (step_name ∷ step_names) =
    with_definition (get_tool_definition step_name) (definitions_of step_names)

-- `list_tool_definitions`
unfoldable pub list_tool_definitions : List ToolDefinition
unfolding tool_step_sequence get_tool_definition
list_tool_definitions = definitions_of tool_step_sequence

-- `{definition.step_name: definition for definition in list_tool_definitions()}`
abbrev by_step_name : List ToolDefinition → Dict ToolDefinition → Dict ToolDefinition
by_step_name [] d = d
by_step_name (definition ∷ definitions) d =
    by_step_name definitions (insert definition.step_name definition d)

unfoldable pub definitions_by_name : Dict ToolDefinition
unfolding insert list_tool_definitions
definitions_by_name = by_step_name list_tool_definitions []

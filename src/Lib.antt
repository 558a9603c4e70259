-- ===== src/Lib.antt =====
-- GIS agent: the parts of the Python backend (packages/domain and packages/schemas) that decide
-- what a task may do, modelled and verified.
--
-- Parts, and the files that model them:
--   Registry: packages/domain/services/operation_registry.py, the table of GIS operations.
--   Plan: packages/schemas/operation_plan.py, operation plans and what their schema checks.
--   PlanGuard: packages/domain/services/plan_guard.py. PlanGuard/Graph holds `_detect_cycle` and
--     `_topological_sort`, PlanGuard/Paths, Inputs and Fallback the checks of references and
--     parameters, PlanGuard/Chain the loops of `_validate_io_chain` and the guard as a whole.
--   Task: the tables of a task, its steps and its events in packages/domain/models.py.
--   TaskState: packages/domain/services/task_state.py and task_events.py, the operations that change
--     the status of a task and of its steps and that write and read the log. TaskState/Moves holds
--     what one operation does, Rows what a reload does, and History the operations in a row.
--   PlanJson: packages/domain/services/plan_json_helpers.py, what is written to a task's plan column.
--   Lifecycle: the edit, the approval and the rejection of a plan in
--     packages/domain/services/task_lifecycle.py. They put PlanGuard, PlanJson and TaskState
--     together; the preflight of a plan's inputs is an argument, which Pipeline/Preflight fills, as is
--     the clock.
--   DefaultPlan: packages/domain/services/operation_plan_defaults.py.
--   Analysis: the types of analysis of packages/schemas/analysis.py.
--   ResponsePolicy: packages/domain/services/response_policy.py, the answer to a message. The parent
--     holds the data and the fields, ResponsePolicy/Preference the preference and the risk, Decide
--     the decision, Cases its cases.
--   Pipeline: packages/domain/services/processing_pipeline.py. Pipeline/Schedule holds the loop over
--     the nodes of a plan, with what is done with a node as an argument, Executed the executions it
--     is held against, Sources the resolution of sources and Preflight the preflight of the inputs;
--     Run holds the dispatcher and the events, Export the export and Outputs what is returned.
--   Builder: packages/domain/services/operation_plan_builder.py, the plan for the operations that a
--     task asks for. Builder/Request holds the requests and the overrides, Formats the export formats,
--     Nodes the nodes, Decimal the numbers of the steps.
--   Revisions: packages/domain/services/task_revisions.py, the revisions of the specification of a
--     task, over the rows of one session. Revisions/Rows holds the counts of rows, Consistent and
--     History the operations in a row, Activated what an activation leaves.
--   TaskGraph: packages/domain/services/graph/state.py, routes.py and builder.py, the graph of the
--     nodes of a task and its runs, with what a node returns or raises as an argument. TaskGraph/Ends holds how
--     a run ends.
--   ToolRegistry: packages/domain/services/tool_registry.py, the tools behind the steps of a task.
--   Planner: packages/domain/services/planner.py, the plan of the steps of a task. Planner/Steps holds
--     the steps, Sound what holds of them, Planned the plan as a whole; the answers of the language
--     model are an argument.
--   Recommendation: packages/domain/services/recommendation.py, the data sets of a task.
--     Recommendation/Sorted and Picked hold the lemmas on the candidates, Chosen the choice.
--   Tests: runs at concrete inputs.
--
-- Conventions: a `dict` is an association list in insertion order (Prelude/Dict), a `set` that is
-- only searched is a list, an exception is `err` of a result (Prelude/Result), a text is a native
-- text and Python's string methods are in Prelude/Text; `str.lower` is exact for the comparisons
-- with ASCII words that the program makes.
--
-- Fuel: the recursion of `_walk` and the loop of `_topological_sort` take fuel, one more than the
-- number of steps. Each nested walk puts a new step on the trail, and each round of the sort places
-- a new one. A run of the graph of a task takes eight, one for each step and one for the final node.
-- The loop of the pipeline takes one more than the number of nodes: a round that does not end the
-- loop executes a node. The loops over the answers of a language model recur on the retries left.
--
-- Not modelled: the natural language side (parser, understanding, intents, language model), what a
-- GIS operation computes with rasterio, numpy and shapely, what the nodes of
-- packages/domain/services/graph do with a task, session memory, the handler of corrections, the
-- search of the catalog, files and storage, and the HTTP, worker and database layers. Prompts and
-- texts for the user are left out, also where the decisions around them are modelled.
-- Of the lifecycle, the creation and the rerun of a task and the reading side are left out, and of an
-- approval what the worker does with the task that is handed over. A session holds one task.
mod Prelude
pub mod Value
pub mod Registry
pub mod Plan
pub mod PlanGuard
pub mod Task
pub mod TaskState
pub mod PlanJson
pub mod Lifecycle
pub mod DefaultPlan
pub mod Analysis
pub mod ResponsePolicy
pub mod Pipeline
pub mod Builder
pub mod Revisions
pub mod TaskGraph
pub mod ToolRegistry
pub mod Planner
pub mod Recommendation
mod Tests

-- ===== src/Pipeline.antt =====
-- packages/domain/services/processing_pipeline.py: the loop over the nodes of a plan, and what it
-- does with a node.
pub mod Nodes
pub mod Schedule
pub mod Executed
pub mod Rounds
pub mod Order
pub mod Files
pub mod Sources
pub mod Preflight
pub mod Ready
pub mod Approved
pub mod Context
pub mod Export
pub mod Exports
pub mod Defaults
pub mod Run
pub mod Log
pub mod Branches
pub mod Outputs

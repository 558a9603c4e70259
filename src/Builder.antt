-- ===== src/Builder.antt =====
-- packages/domain/services/operation_plan_builder.py: the plan for the operations that a task asks
-- for.
pub mod Decimal
pub mod Request
pub mod Formats
pub mod Nodes
pub mod Chained
pub mod Loop
pub mod Built
pub mod Exportable

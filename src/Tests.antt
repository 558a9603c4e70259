-- ===== src/Tests.antt =====
-- Concrete inputs: tests of the definitions, and the theorems at inputs that meet their hypotheses.
mod Guard
mod Pipelines
mod Revised
mod Builds
mod Graphs
mod Plannings
mod Recommendations
mod Tasks
mod Plans
mod Policy

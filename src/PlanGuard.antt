-- ===== src/PlanGuard.antt =====
-- packages/domain/services/plan_guard.py: the guard that every operation plan passes before it is
-- shown, edited or approved.
pub mod Errors
pub mod Graph
pub mod Paths
pub mod Inputs
pub mod Fallback
pub mod Chain
pub mod Build
pub mod Rules
mod Serving
pub mod Accepted
pub mod Again
pub mod Quiet
pub mod Raised

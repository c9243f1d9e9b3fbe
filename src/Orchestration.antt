-- ===== src/Orchestration.antt =====
-- src/orchestration: planning, scheduling and evaluation of executions.
pub mod Types
pub mod Scheduler
pub mod Events
pub mod Policy
pub mod Variation
pub mod Spec
pub mod Scoring
pub mod Strategy
pub mod Store
pub mod Reconcile
pub mod Service
pub mod Json
pub mod MessageBox
pub mod Examples

-- ===== src/Contract.antt =====
-- src/contract: the types and rules of the runtime contract between the control plane and a runtime.
pub mod State
pub mod Event
pub mod Policy
pub mod Error
pub mod Api
pub mod Compat
pub mod Examples

-- ===== src/Runtime.antt =====
-- src/runtime: the runtimes behind the contract.
pub mod Mock

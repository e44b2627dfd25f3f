-- ===== src/Manager.antt =====
-- internal/manager: the state machine of a store.
pub mod Base
pub mod Wait
pub mod Jobs
pub mod Serving
pub mod Reconcile
pub mod Resources

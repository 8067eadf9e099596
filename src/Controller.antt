-- ===== src/Controller.antt =====
-- The environment controller: internal/controller.
pub mod Types
pub mod Status
pub mod Limits
pub mod Quota
pub mod Oldest
pub mod Victims
pub mod Admission
pub mod Phases
pub mod EnvVars
pub mod Merged
mod Tests

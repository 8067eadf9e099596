-- ===== src/Meter.antt =====
-- internal/server/llm_meter.go: the budgets of agent tasks.
pub mod Task
pub mod Count
pub mod Handler
pub mod Serve
pub mod Saved
pub mod Safety
mod Tests

-- ===== src/Orchestration.antt =====
-- internal/app/orchestration: sub-agents, the tasks that are dispatched to them, and their health.
pub mod Tasks
pub mod Dispatch
pub mod Settling
pub mod Health
pub mod Scheduling

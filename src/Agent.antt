-- ===== src/Agent.antt =====
-- internal/agent: the data that a bot's CLI session works on, the session, and the manager of
-- all sessions.
pub mod Types
pub mod Session
pub mod Manager
pub mod Progress
pub mod Drivers
pub mod Claude
pub mod Codex
pub mod Opencode

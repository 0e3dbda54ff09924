-- ===== src/Bot.antt =====
-- internal/app/bot: what happens to a bot's messages, its connection, and the service over the tables.
pub mod Messages
pub mod Metadata
pub mod Orchestrator
pub mod Connections
pub mod Service
pub mod Resolver
pub mod Simulator

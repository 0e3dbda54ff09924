-- ===== src/Bot/Resolver.antt =====
-- internal/app/bot/cli_resolver.go: from the row of a bot to the specification of its session.
pub mod Defs
pub mod Rows
pub mod Resolving

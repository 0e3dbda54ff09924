-- ===== src/Bot/Connections.antt =====
-- internal/app/bot/connection_manager.go: at most one runtime for a bot. A runtime handle is known by a
-- number; a nil handle, by which `Start` reserves the bot, is `none`.
pub mod Defs
pub mod Starting

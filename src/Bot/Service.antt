-- ===== src/Bot/Service.antt =====
-- internal/app/bot/service.go and internal/app/mcpserver/service.go over the tables of
-- internal/store/repositories.
pub mod World
pub mod Bots
pub mod Bindings
pub mod Accounts
pub mod Users
pub mod Servers
pub mod Defs
pub mod Login
pub mod Flow
pub mod Deletion
pub mod Confirming
pub mod Events
pub mod Attached
pub mod Again
pub mod Relation

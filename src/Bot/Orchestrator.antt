-- ===== src/Bot/Orchestrator.antt =====
-- internal/app/bot/message_orchestrator.go. A section under `o.mu` is one function on the state; the
-- goroutines are what may call them, in any order. A `*botState` is known by a number, its identity.
-- A channel is the list of what it holds, with its capacity.
pub mod Defs
pub mod Delivery
pub mod Events
pub mod Dedup
pub mod Soundness
pub mod Queues
pub mod Handling
pub mod Turns
pub mod Stopping

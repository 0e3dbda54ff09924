-- ===== src/Agent/Session.antt =====
-- internal/agent/session.go. The turn mutex `mu` is the field `locked`, since a turn holds it from
-- its begin to its end; a section under `schedMu` is one function. A runtime is known by a number,
-- its handle, and so is a push sink.
pub mod Defs
pub mod Tasks
pub mod Turns
pub mod Closing
pub mod Names

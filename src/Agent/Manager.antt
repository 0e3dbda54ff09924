-- ===== src/Agent/Manager.antt =====
-- internal/agent/manager.go. A `*Session` is an address in a heap, so that two pointers to one
-- session can be told from two sessions that are alike.
pub mod Defs
pub mod Keeping
pub mod Sharing
pub mod Replacement

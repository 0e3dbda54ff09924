-- ===== src/Agent/Codex.antt =====
-- internal/agent/codex/driver_acp.go: one long-lived process of codex, to which a turn is a call of
-- JSON-RPC, and which tells the text of an answer in pieces.
pub mod Defs
pub mod Loop
pub mod Text
pub mod Full

-- ===== src/Agent/Claude.antt =====
-- internal/agent/claude/driver_acp.go: one long-lived process of Claude Code, to which a turn is a line
-- on its input, and which answers by lines of JSON on its output.
pub mod Defs
pub mod Loop
pub mod Breaking
pub mod Turns

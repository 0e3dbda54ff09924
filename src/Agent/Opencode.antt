-- ===== src/Agent/Opencode.antt =====
-- internal/agent/opencode/driver_acp.go: one long-lived process of opencode. A goroutine sends the
-- prompt of a turn, while the reader takes the text of the answer from the updates of the session.
pub mod Defs
pub mod Sender
pub mod Loop
pub mod Updates
pub mod Attempts
pub mod Stages
pub mod Recovery
pub mod Tools
pub mod Text

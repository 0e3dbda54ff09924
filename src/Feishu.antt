-- ===== src/Feishu.antt =====
-- internal/channel/feishu: the card that traces a turn in a chat (progress.go), the runtime of a bot
-- (runtime.go, registry.go) and its replies (reply_gateway.go, api.go).
pub mod Card
pub mod Trace
pub mod Flushing
pub mod Finishing
pub mod Runtime
pub mod Api
pub mod Binding
pub mod Targets
pub mod Answers
pub mod Secrets

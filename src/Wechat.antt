-- ===== src/Wechat.antt =====
-- internal/channel/wechat: the login of an account (provider.go and the results of client.go), the
-- messages that are read and sent (client.go), the loop that polls them (runtime.go), and the replies
-- (reply_target.go, reply_gateway.go). HTTP and JSON are parameters.
pub mod Login
pub mod Client
pub mod Reply
pub mod Runtime
pub mod Polling
pub mod Targets
pub mod Answers
pub mod Simulated

-- ===== src/Examples.antt =====
-- Runs on concrete data, one module for each part of the program.
mod Messages
mod Turns
mod Sessions
mod Agents
mod Services
mod Bots
mod Runtimes
mod Resolving
mod Codex
mod Opencode
mod Mcps
mod Wechat
mod Feishu

-- ===== src/Mcps.antt =====
-- mcps: the programs that give agents the tools of another system. Mcps/A2a models mcps/a2a/a2a.go,
-- Mcps/Boo models mcps/boo/boo.go.
pub mod Lines
pub mod A2a
pub mod Boo

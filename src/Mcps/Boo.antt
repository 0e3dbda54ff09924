-- ===== src/Mcps/Boo.antt =====
-- mcps/boo/boo.go: the tools over the terminal program boo. A tool builds a command line, or refuses
-- its input, runs it and reads the exit code. The program and JSON are parameters.
pub mod Args
pub mod Tools
pub mod Lines

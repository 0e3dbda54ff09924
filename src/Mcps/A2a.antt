-- ===== src/Mcps/A2a.antt =====
-- mcps/a2a/a2a.go: the sources of a configuration, the servers that they stand for at the moment of a
-- call, and the tools that list them and send them a prompt. JSON, HTTP, the files and the program boo
-- are parameters; calls of the last two change a world of which nothing is assumed.
pub mod Defs
pub mod Client
pub mod Boo
pub mod Dispatch
pub mod Servers
pub mod Terminal

-- ===== src/Lib.antt =====
-- A model of the core of myclaw, a server that connects chat bots to command line agents.
--
-- The parts. A channel (WeChat, Feishu, HTTP) delivers a message to the message orchestrator, which
-- drops duplicates, queues the message for its bot and runs one turn after the other. A turn asks the
-- session manager for the bot's session, and the session runs its CLI through a driver. Sessions also
-- run scheduled prompts, whose answers are pushed back through the orchestrator. The connection manager
-- starts the runtimes of the channels. Orchestrating bots dispatch tasks to other agents through tools.
--
-- The files.
--   Prelude      names, tests on numbers, lists, Go's int and strings.TrimSpace
--   GoMap        Go's maps behind their laws; clients do not see the representation
--   Domain       internal/domain: entities.go, status.go, errors.go
--   Channel      internal/channel: provider.go, multi_provider.go, reply_gateway.go, progress.go
--   Agent        internal/agent: types.go, driver.go, progress.go; Agent/Session models session.go,
--                Agent/Manager manager.go, and Agent/Claude, Agent/Codex and Agent/Opencode the
--                driver_acp.go of claude, codex and opencode
--   Bot          internal/app/bot: Bot/Orchestrator models message_orchestrator.go, Bot/Connections
--                connection_manager.go, Bot/Resolver cli_resolver.go and Bot/Service service.go with
--                internal/app/mcpserver/service.go and the repositories of internal/store that they
--                use, and Bot/Simulator message_simulator.go
--   Orchestration internal/app/orchestration: task_store.go, mcp.go, runner.go, health.go, registry.go,
--                schedule_mcp.go
--   Hook         internal/hook/manager.go: webhooks, which send a prompt to a bot
--   Feishu       internal/channel/feishu: progress.go (the card that traces a turn), runtime.go,
--                registry.go, reply_gateway.go, api.go, provider.go
--   HttpChannel  internal/channel/httpchan: receiver.go, reply_gateway.go
--   Wechat       internal/channel/wechat: client.go, provider.go, runtime.go, reply_gateway.go,
--                reply_target.go
--   Mcps         mcps/a2a/a2a.go and mcps/boo/boo.go
--   Examples     runs on concrete data
-- A definition has the name of the Go function in this language's spelling, or a comment that says
-- which function it is.
--
-- How the code is modelled. A section under a mutex is one function from state to state. Between two
-- sections, and while an external call runs, other goroutines act: they are an argument, a function on
-- the state, or the sections are events of a sequence in any order (Bot/Orchestrator/Events). External
-- calls (CLI runtimes, repositories, reply gateways, clocks, random ids) are arguments, and what is
-- sent out comes back as a list of effects or as a result. The services over the tables are actions: a
-- statement of the database is one step, which may fail at any place (`Env`), and what was written
-- before an error stays written. A pointer is an identity number where the code compares it
-- (*botState), and an address in a heap where it is shared (*Session). In the drivers and in the trace
-- card what the reader, the loop and the callers do is a sequence of events in any order.
--   Times are numbers of nanoseconds, and a difference of times stops at 0; the code compares
-- differences with positive durations only, for which a negative one and 0 are the same. Errors
-- are kept as far as the code tells them apart. The order in which Go goes through a map is left open
-- by Go and is that of the entries here. `decimal` has fuel n + 1 for the digits of n, which has at
-- most that many. Texts that Go writes with %q have plain quotes.
--   In the manager the close of a session is not disturbed by other goroutines, and a replacement has
-- its address before its runtime starts; nobody else can know it then.
--
-- Not modelled: contexts and deadlines but for the choice of a turn's timeout and the end of a turn
-- by its context, log lines, JSON-RPC, the start of processes, the requests of the clients of
-- WeChat and Feishu, the connection of Feishu and what is read from its events, the HTTP API, SQL
-- and the rows of the database, configuration and start-up: these are input and output or calls of
-- libraries, or routing without a state of its own.
mod Prelude
pub mod GoMap
pub mod Agent
pub mod Domain
pub mod Bot
pub mod Orchestration
mod Examples
pub mod Channel
pub mod Hook
pub mod Feishu
pub mod HttpChannel
pub mod Wechat
pub mod Mcps

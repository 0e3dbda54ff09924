-- ===== src/Bot/Resolver/Defs.antt =====
-- What `Resolve` reads and calls: MCP entries and the file of the prompt. The repositories, the
-- file system, JSON, URLs and quoting are parameters; log lines are left out.
use Prim.Native.String
use channel_plugin.Prelude.{
  String, Bool, true, false, Option, none, some, List, [], ◌∷◌, ◌++◌, ◌==◌, if◌then◌else◌,
}
use channel_plugin.Prelude.Int.{ℤ}
use channel_plugin.Prelude.Text.{is_blank}
use channel_plugin.GoMap
use channel_plugin.GoMap.{GoMap}
use channel_plugin.Domain.{Bot, AgentCapability, McpServer, StoreError, Fetched, got, missed}
use channel_plugin.Agent.Types.{Spec}

pub data ResolveError : Type 0 where
  config_missing unavailable unsupported_mode : ResolveError
  store_failed : StoreError → ResolveError
  io_failed : String → ResolveError

pub data Resolved : Type 0 where
  resolved : Spec → Resolved
  refused : ResolveError → Resolved

-- `mcpEntry`; `args` is nil where it is `none`.
pub record McpEntry : Type 0 where
  pub name : String
  pub server_type : String
  pub url : String
  pub command : String
  pub args : List String

-- What is read: `sessions` and `servers` are `none` where the repository is nil. `servers` answers the
-- enabled servers of a bot.
pub record Lookups : Type 0 where
  pub bot_by_id : String → Fetched Bot
  pub capability_by_id : String → Fetched AgentCapability
  pub sessions : Option (String → String → Fetched String)
  pub servers : Option (String → Fetched (List McpServer))

-- `BotCLIResolverConfig`, with the directory under the workspace root as a function of the bot's id,
-- `none` where there is no root.
pub record Config : Type 0 where
  pub timeout : ℤ
  pub workspace_of : Option (String → String)
  pub sqlite_path : String
  pub orchestrator_timeout : ℤ
  pub mcp_url : String
  pub orchestrator_prompt : String

-- The value of a server in the JSON of `--mcp-config`.
pub data ServerConfig : Type 0 where
  http_config : (url : String) → ServerConfig
  stdio_config : (command : String) (args : List String) → ServerConfig

-- `mkdir`, `write` and `remove` are the errors of the file system at a path; a file that is not there
-- is no error of `remove`.
pub record Platform : Type 0 where
  pub mkdir : String → Option String
  pub write : String → Option String
  pub remove : String → Option String
  pub join : String → String → String
  pub quote : String → String
  pub strings_json : List String → String
  pub config_json : GoMap ServerConfig → String
  pub with_bot_id : String → String → String

infixr 6 ◌^◌
abbrev pub ◌^◌ : String → String → String
a ^ b = Prim.Native.String.◌++◌ a b

unfoldable pub doc_file : String → String
doc_file cli_key = if cli_key == "claude" then "CLAUDE.md" else "AGENTS.md"

-- The entries of the servers, as `collectMCPServers` copies them.
unfoldable pub entries_of : List McpServer → List McpEntry
entries_of [] = []
entries_of (s ∷ ss) =
    (record {
      name = s.name;
      server_type = s.server_type;
      url = s.url;
      command = s.command;
      args = s.args;
    })
    ∷ entries_of ss

unfoldable pub server_entries : Option (String → Fetched (List McpServer)) → String → List McpEntry
server_entries none bot_id = []
server_entries (some list) bot_id = elim (list bot_id) [
  | missed e ↦ []
  | got servers ↦ entries_of servers
]

-- The configuration that an entry stands for; entries of another type are skipped.
unfoldable pub config_of : McpEntry → Option ServerConfig
config_of e =
    if e.server_type == "http"
    then some (http_config e.url)
    else if e.server_type == "stdio"
    then some (stdio_config e.command e.args)
    else none

-- the map that `mcpConfigJSON` fills, in the order of the entries
unfoldable pub fill_config : List McpEntry → GoMap ServerConfig → GoMap ServerConfig
fill_config [] m = m
fill_config (e ∷ es) m =
    fill_config es (elim (config_of e) [ none ↦ m | some c ↦ GoMap.put m e.name c ])

unfoldable pub has_config : List McpEntry → Bool
has_config [] = false
has_config (e ∷ es) =
    let others = has_config es in elim (config_of e) [ none ↦ others | some c ↦ true ]

module _ (p : Platform) where
  -- `mcpConfigJSON`
  unfoldable pub mcp_config_json : List McpEntry → Option String
  mcp_config_json entries =
      if has_config entries then some (p.config_json (fill_config entries GoMap.empty)) else none

  unfoldable pub codex_args_of : McpEntry → List String
  codex_args_of e = elim (config_of e) [
    | none ↦ []
    | some c ↦ elim c [
      | http_config url ↦ "-c" ∷ ("mcp_servers." ^ e.name ^ ".url=" ^ p.quote url) ∷ []
      | stdio_config command args ↦
          "-c"
          ∷ ("mcp_servers." ^ e.name ^ ".command=" ^ p.quote command)
          ∷ "-c"
          ∷ ("mcp_servers." ^ e.name ^ ".args=" ^ p.strings_json args)
          ∷ []
    ]
  ]

  -- `codexMCPArgs`
  unfoldable pub codex_mcp_args : List McpEntry → List String
  codex_mcp_args [] = []
  codex_mcp_args (e ∷ es) = codex_args_of e ++ codex_mcp_args es

  unfoldable pub builtin_entry : Config → String → List McpEntry
  builtin_entry c bot_id =
      if c.mcp_url == ""
      then []
      else (record {
        name = "myclaw";
        server_type = "http";
        url = p.with_bot_id c.mcp_url bot_id;
        command = "";
        args = [];
      })
        ∷ []

  -- `collectMCPServers`
  unfoldable pub collect_mcp_servers : Config → Lookups → String → List McpEntry
  collect_mcp_servers c l bot_id = builtin_entry c bot_id ++ server_entries l.servers bot_id

  -- `writeSystemPromptDoc` on the files by their paths: the error, if any, and the files.
  unfoldable pub write_system_prompt_doc :
      GoMap String → String → String → String → Option String × GoMap String
  write_system_prompt_doc files work_dir cli_key prompt =
      let path = p.join work_dir (doc_file cli_key) in
      if is_blank prompt
      then elim (p.remove path) [
        | some e ↦ (some e, files)
        | none ↦ (none, GoMap.delete files path)
      ]
      else elim (p.write path) [
        | some e ↦ (some e, files)
        | none ↦ (none, GoMap.put files path prompt)
      ]

  -- the part of `Resolve` that makes the workspace ready
  unfoldable pub prepare_work_dir :
      GoMap String → String → String → String → Option String × GoMap String
  prepare_work_dir files work_dir cli_key prompt =
      if work_dir == "" then (none, files) else elim (p.mkdir work_dir) [
        | some e ↦ (some e, files)
        | none ↦ write_system_prompt_doc files work_dir cli_key prompt
      ]

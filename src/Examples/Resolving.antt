-- ===== src/Examples/Resolving.antt =====
-- The resolver of internal/app/bot/cli_resolver.go on a bot with a workspace.
use Prim.Native.String
use channel_plugin.Prelude.{refl, true, false, none, some, [], ◌∷◌}
use channel_plugin.Prelude.Int.{pos}
use channel_plugin.Prelude.Text.{is_blank, trim_space}
use channel_plugin.GoMap.{empty}
use channel_plugin.Domain.{Bot, AgentCapability, McpServer, got}
use channel_plugin.Bot.Resolver.Defs.{
  Platform, Config, Lookups, Resolved, resolved, prepare_work_dir, write_system_prompt_doc,
  doc_file, fill_config, collect_mcp_servers, http_config, stdio_config,
}
use channel_plugin.Bot.Resolver.Rows.{resolve, resolve_rows, check_rows, spec_of, work_dir_of}
use channel_plugin.Agent.Types.{Spec}
use channel_plugin.Bot.Resolver.Defs
use channel_plugin.Bot.Resolver.Rows
use channel_plugin.Bot.Resolver.Resolving.{ResolvedFor, resolve_lem}

abbrev platform : Platform
platform = record {
  mkdir = λ path. none;
  write = λ path. none;
  remove = λ path. none;
  join = λ dir file. Prim.Native.String.◌++◌ dir (Prim.Native.String.◌++◌ "/" file);
  quote = λ text. text;
  strings_json = λ texts. "[]";
  config_json = λ m. "{}";
  with_bot_id = λ base id. base;
}

abbrev config : Config
config = record {
  timeout = pos 60;
  workspace_of = none;
  sqlite_path = "db";
  orchestrator_timeout = pos 0;
  mcp_url = "http://localhost/mcp";
  orchestrator_prompt = "";
}

abbrev bot : Bot
bot = record {
  id = "b";
  user_id = "u";
  name = "helper";
  type = "channel";
  channel_type = "http";
  channel_account_id = "";
  connection_status = "connected";
  connection_error = "";
  agent_capability_id = "cap";
  agent_mode = "claude-acp";
  role = "";
  cli_alias = "";
  workspace = "/w";
  system_prompt = "Be brief.";
  agent_env = [];
}

abbrev capability : AgentCapability
capability = record {
  key = "claude";
  command = "claude";
  args = [];
  supported_modes = "claude-acp" ∷ [];
  available = true;
}

-- a server that has the name of the one of myclaw
abbrev namesake : McpServer
namesake = record {
  id = "s";
  name = "myclaw";
  server_type = "stdio";
  url = "";
  command = "other";
  args = [];
  enabled = true;
}

abbrev lookups : Lookups
lookups = record {
  bot_by_id = λ id. got bot;
  capability_by_id = λ id. got capability;
  sessions = none;
  servers = some (λ id. got (namesake ∷ []));
}

abbrev spec : Spec
spec = record {
  bot_id = "b";
  bot_name = "helper";
  type = "claude-acp";
  command = "claude";
  args = some ("--mcp-config" ∷ "{}" ∷ []);
  work_dir = "/w";
  sqlite_path = "db";
  env = none;
  timeout = pos 60;
  queue_size = pos 0;
  orchestrator = false;
  real_cli = false;
  resume_session_id = "";
}

resolve_lem_example :
    (found : Bot) × ((c : AgentCapability) × ResolvedFor platform config lookups empty "b" found c
        spec)
unfolding resolve resolve_rows check_rows prepare_work_dir write_system_prompt_doc spec_of
    work_dir_of doc_file is_blank trim_space Rows.mcp_args Defs.mcp_config_json Defs.has_config
    Defs.config_of Rows.prompt_args Rows.env_of Rows.resume_id Defs.server_entries Defs.entries_of
    Defs.builtin_entry collect_mcp_servers
resolve_lem_example = resolve_lem platform config lookups empty "b" {spec = spec} refl

-- ===== src/Bot/Resolver/Rows.antt =====
-- From the rows of a bot and its agent to the specification: `Resolve`.
use channel_plugin.Prelude.{
  String, Bool, false, not, ◌&&◌, ◌||◌, Option, none, some, List, [], ◌∷◌, ◌++◌, ◌==◌,
  if◌then◌else◌,
}
use channel_plugin.Prelude.Int.{lt_ℤ, pos}
use channel_plugin.Prelude.Text.{trim_space, is_blank}
use channel_plugin.GoMap.{GoMap}
use channel_plugin.Domain.{
  Bot, AgentCapability, not_found, failure, Fetched, got, missed, role_orchestrator,
}
use channel_plugin.Agent.Types.{Spec, copy_slice}
use channel_plugin.Bot.Resolver.Defs.{
  ResolveError, config_missing, unavailable, unsupported_mode, store_failed, io_failed, Resolved,
  resolved, refused, Lookups, Config, Platform, mcp_config_json, codex_mcp_args,
  collect_mcp_servers, prepare_work_dir,
}

abbrev pub contains : String → List String → Bool
contains x [] = false
contains x (y ∷ ys) = let others = contains x ys in y == x || others

-- The checks of `Resolve` on the two rows: the error, if any.
unfoldable pub check_rows : Bot → AgentCapability → Option ResolveError
check_rows bot capability =
    if not (contains bot.agent_mode capability.supported_modes)
    then some unsupported_mode
    else if is_blank bot.cli_alias && not capability.available
    then some unavailable
    else if is_blank bot.cli_alias && capability.command == ""
    then some config_missing
    else none

unfoldable pub work_dir_of : Config → String → Bot → String
work_dir_of c bot_id bot =
    let own = trim_space bot.workspace in
    if own == "" then (elim c.workspace_of [ none ↦ "" | some f ↦ f bot_id ]) else own

-- an empty map is left out
unfoldable pub env_of : List (String × String) → Option (List (String × String))
env_of [] = none
env_of (e ∷ es) = some (e ∷ es)

-- Any error of the lookup leaves the id empty.
unfoldable pub resume_id : Option (String → String → Fetched String) → String → String → String
resume_id none bot_id cli_key = ""
resume_id (some get) bot_id cli_key = elim (get bot_id cli_key) [ got id ↦ id | missed e ↦ "" ]

module _ (p : Platform) (c : Config) (l : Lookups) where
  unfoldable pub mcp_args : String → String → List String
  mcp_args bot_id cli_key =
      let entries = collect_mcp_servers p c l bot_id in
      if cli_key == "codex"
      then codex_mcp_args p entries
      else elim (mcp_config_json p entries) [ none ↦ [] | some cfg ↦ "--mcp-config" ∷ cfg ∷ [] ]

  unfoldable pub prompt_args : Bot → List String
  prompt_args bot =
      if bot.role == role_orchestrator && not (c.orchestrator_prompt == "")
      then "--append-system-prompt" ∷ c.orchestrator_prompt ∷ []
      else []

  -- the specification for the two rows
  unfoldable pub spec_of : String → Bot → AgentCapability → Spec
  spec_of bot_id bot capability = record {
    bot_id = bot_id;
    bot_name = bot.name;
    type = bot.agent_mode;
    command = if is_blank bot.cli_alias then capability.command else trim_space bot.cli_alias;
    args = copy_slice (capability.args ++ mcp_args bot_id capability.key ++ prompt_args bot);
    work_dir = work_dir_of c bot_id bot;
    sqlite_path = c.sqlite_path;
    env = env_of bot.agent_env;
    timeout =
        if bot.role == role_orchestrator && lt_ℤ (pos 0) c.orchestrator_timeout
        then c.orchestrator_timeout
        else c.timeout;
    queue_size = pos 0;
    orchestrator = bot.role == role_orchestrator;
    real_cli = not (is_blank bot.cli_alias);
    resume_session_id = resume_id l.sessions bot_id capability.key;
  }

  -- `Resolve` behind the lookups
  unfoldable pub resolve_rows :
      GoMap String → String → Bot → AgentCapability → Resolved × GoMap String
  resolve_rows files bot_id bot capability = elim (check_rows bot capability) [
    | some e ↦ (refused e, files)
    | none ↦
        let (failed, files') =
          prepare_work_dir p files (work_dir_of c bot_id bot) capability.key bot.system_prompt in
        elim failed [
          | some e ↦ (refused (io_failed e), files')
          | none ↦ (resolved (spec_of bot_id bot capability), files')
        ]
  ]

  -- `Resolve`
  unfoldable pub resolve : GoMap String → String → Resolved × GoMap String
  resolve files bot_id = elim (l.bot_by_id bot_id) [
    | missed e ↦ (refused (store_failed e), files)
    | got bot ↦
        if bot.agent_capability_id == "" || bot.agent_mode == ""
        then (refused config_missing, files)
        else elim (l.capability_by_id bot.agent_capability_id) [
          | got capability ↦ resolve_rows files bot_id bot capability
          | missed e ↦ elim e [
            | not_found ↦ (refused config_missing, files)
            | failure m ↦ (refused (store_failed (failure m)), files)
          ]
        ]
  ]

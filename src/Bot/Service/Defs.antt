-- ===== src/Bot/Service/Defs.antt =====
-- internal/app/bot/service.go, without the login flow: creation, deletion, listing and the
-- configuration of a bot's agent.
use channel_plugin.Prelude.{String, List, map, ◌==◌, ◌||◌, if◌then◌else◌}
use channel_plugin.Prelude.Text.{trim_space}
use channel_plugin.Domain.{Bot, McpServer, status_login_required, type_channel, type_hook}
use channel_plugin.Bot.Service.World.{
  Env, Action, ◌>>=◌, ◌>>◌, pure, gets, raise_if, invalid_arg, traverse,
}
use channel_plugin.Bot.Service.Bots
use channel_plugin.Bot.Service.Bindings
use channel_plugin.Bot.Service.Users
use channel_plugin.Bot.Service.Servers.{list_by_bot, set_bot_servers}

pub record CreateBotInput : Type 0 where
  pub external_user_id : String
  pub name : String
  pub type : String
  pub role : String
  pub channel_type : String
  pub agent_capability_id : String
  pub agent_mode : String
  pub system_prompt : String
  pub agent_env : List (String × String)

pub record CreateBotOutput : Type 0 where
  pub bot_id : String
  pub name : String
  pub type : String
  pub role : String
  pub channel_type : String
  pub connection_status : String
  pub channel_account_id : String
  pub agent_capability_id : String
  pub agent_mode : String
  pub system_prompt : String
  pub agent_env : List (String × String)

pub record ConfigureBotAgentInput : Type 0 where
  pub bot_id : String
  pub agent_capability_id : String
  pub agent_mode : String
  pub cli_alias : String
  pub mcp_server_ids : List String
  pub system_prompt : String
  pub agent_env : List (String × String)

pub record BotListItem : Type 0 where
  pub bot_id : String
  pub name : String
  pub type : String
  pub role : String
  pub channel_type : String
  pub connection_status : String
  pub channel_account_id : String
  pub agent_capability_id : String
  pub agent_mode : String
  pub cli_alias : String
  pub mcp_server_ids : List String
  pub system_prompt : String
  pub agent_env : List (String × String)

-- the row that `CreateBot` inserts, for the user's id and the new id
unfoldable pub new_bot : (String → String) → CreateBotInput → String → String → Bot
new_bot workspace input user_id id =
    let type = if input.type == "" then type_channel else input.type in
    record {
      id = id;
      user_id = user_id;
      name = input.name;
      type = type;
      channel_type = input.channel_type;
      channel_account_id = "";
      connection_status = if type == type_hook then "" else status_login_required;
      connection_error = "";
      agent_capability_id = input.agent_capability_id;
      agent_mode = input.agent_mode;
      role = input.role;
      cli_alias = "";
      workspace = workspace id;
      system_prompt = input.system_prompt;
      agent_env = input.agent_env;
    }

unfoldable pub created : Bot → CreateBotOutput
created bot = record {
  bot_id = bot.id;
  name = bot.name;
  type = bot.type;
  role = bot.role;
  channel_type = bot.channel_type;
  connection_status = bot.connection_status;
  channel_account_id = bot.channel_account_id;
  agent_capability_id = bot.agent_capability_id;
  agent_mode = bot.agent_mode;
  system_prompt = bot.system_prompt;
  agent_env = bot.agent_env;
}

unfoldable pub list_item : Bot → List String → BotListItem
list_item bot ids = record {
  bot_id = bot.id;
  name = bot.name;
  type = bot.type;
  role = bot.role;
  channel_type = bot.channel_type;
  connection_status = bot.connection_status;
  channel_account_id = bot.channel_account_id;
  agent_capability_id = bot.agent_capability_id;
  agent_mode = bot.agent_mode;
  cli_alias = bot.cli_alias;
  mcp_server_ids = ids;
  system_prompt = bot.system_prompt;
  agent_env = bot.agent_env;
}

-- the row that `ConfigureBotAgent` writes
unfoldable pub configured : ConfigureBotAgentInput → Bot → Bot
configured input bot = record bot {
  agent_capability_id = input.agent_capability_id;
  agent_mode = input.agent_mode;
  cli_alias = trim_space input.cli_alias;
  system_prompt = trim_space input.system_prompt;
  agent_env = input.agent_env;
}

module _ (env : Env) where
  -- `CreateBot`; `workspace` is the directory under the workspace root, or `""` where none is set.
  unfoldable pub create_bot : (String → String) → CreateBotInput → Action CreateBotOutput
  create_bot workspace input = do
    raise_if (input.external_user_id == "" || input.name == "") invalid_arg
    user_id ← Users.find_or_create_by_external_user_id env input.external_user_id
    id ← gets (λ w. env.new_id "bot" w.calls)
    bot ← Bots.create env (new_bot workspace input user_id id)
    pure (created bot)

  -- `DeleteBot`
  unfoldable pub delete_bot : String → Action (Unit {0})
  delete_bot bot_id = do
    raise_if (bot_id == "") invalid_arg
    Bots.get_by_id env bot_id
    Bindings.delete_by_bot_id env bot_id
    Bots.delete_by_id env bot_id

  -- `GetBotWorkspace`
  unfoldable pub get_bot_workspace : String → Action String
  get_bot_workspace bot_id = do b ← Bots.get_by_id env bot_id; pure b.workspace

  -- `sorted` and `newest_first` are orders of the database.
  module _ (sorted : List McpServer → List McpServer) (newest_first : List Bot → List Bot) where
    -- `attachedServerIDs`
    unfoldable pub attached_server_ids : String → Action (List String)
    attached_server_ids bot_id = do
      servers ← list_by_bot env sorted bot_id
      pure (map (λ s. s.id) servers)

    -- `ListBots`
    unfoldable pub list_bots : String → Action (List BotListItem)
    list_bots external_user_id = do
      raise_if (external_user_id == "") invalid_arg
      user_id ← Users.find_or_create_by_external_user_id env external_user_id
      bots ← Bots.list_by_user_id env user_id
      traverse (λ bot. do ids ← attached_server_ids bot.id; pure (list_item bot ids))
          (newest_first bots)

    -- `ConfigureBotAgent`; its item leaves the role out.
    unfoldable pub configure_bot_agent : ConfigureBotAgentInput → Action BotListItem
    configure_bot_agent input = do
      raise_if (input.bot_id == "" || input.agent_capability_id == "" || input.agent_mode == "")
          invalid_arg
      bot ← Bots.get_by_id env input.bot_id
      row ← Bots.update env (configured input bot)
      set_bot_servers env sorted row.id input.mcp_server_ids
      ids ← attached_server_ids row.id
      pure (record (list_item row ids) { role = "" })

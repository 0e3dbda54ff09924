-- ===== src/Examples/Bots.antt =====
-- The services over the tables, and the resolver, on concrete rows.
use channel_plugin.Prelude.{
  ℕ, String, ◌≡◌, ◌≢◌, refl, true, false, Option, none, some, List, [], ◌∷◌, arith, ◌⊎◌,
}
use channel_plugin.GoMap.{get, put, empty, get-put}
use channel_plugin.Channel.{RefreshBindingResult}
use channel_plugin.Domain.{Bot, ChannelBinding, McpServer, status_connected, status_error}
use channel_plugin.Bot.Connections.Defs.{Services, StartError, active, connected}
use channel_plugin.Bot.Service.World.{World, Env, Action, ok, err, other, invalid_arg}
use channel_plugin.Bot.Service.Bots
use channel_plugin.Bot.Service.Bindings
use channel_plugin.Bot.Service.Accounts.{upsert, insert_or_refresh, same_account}
use channel_plugin.Bot.Service.Servers.{set_bot_servers}
use channel_plugin.Bot.Service.Defs.{delete_bot}
use channel_plugin.Bot.Service.Login.{Collaborators, bound_bot}
use channel_plugin.Bot.Service.Flow.{bind_account, confirm}
use channel_plugin.Bot.Service.Again.{manager, confirm_again}
use channel_plugin.Bot.Service.Events.{on_state, deleted_returns}
use channel_plugin.Bot.Service.Attached.{set_bot_servers_lem, times, attached_to}
use channel_plugin.Bot.Service.Relation.{attachments_refine, has_row, replaces, implementation}

abbrev up : Env
up = record { fault = λ n. none; new_id = λ prefix n. prefix; now = λ n. 7 }

abbrev bot : Bot
bot = record {
  id = "b";
  user_id = "u";
  name = "helper";
  type = "channel";
  channel_type = "wechat";
  channel_account_id = "";
  connection_status = "login_required";
  connection_error = "";
  agent_capability_id = "cap";
  agent_mode = "claude-acp";
  role = "";
  cli_alias = "";
  workspace = "/w";
  system_prompt = "Be brief.";
  agent_env = [];
}

abbrev binding : ChannelBinding
binding = record {
  id = "bind";
  bot_id = "b";
  user_id = "u";
  channel_type = "wechat";
  status = "qr_ready";
  provider_binding_ref = "ref";
  qr_code_payload = "qr";
  expires_at = none;
  error_message = "";
  channel_account_id = "";
  finished_at = none;
}

abbrev world : World
world = record {
  users = empty;
  bots = put empty "b" bot;
  bindings = put empty "bind" binding;
  accounts = [];
  servers = [];
  attached = ("c", "s") ∷ [];
  handles = empty;
  calls = 0;
}

abbrev answer : String → RefreshBindingResult
answer status = record {
  provider_status = status;
  qr_code_payload = "qr";
  expires_at = 0;
  account_uid = "uid";
  display_name = "Ann";
  avatar_url = "";
  credential_payload = 1 ∷ [];
  credential_version = 1;
  error_message = "";
}

-- the bot's provider, in whose answers the login has the given status
abbrev collaborators : String → Option (String → Action (Unit {0})) → Collaborators
collaborators status runtimes = record {
  creates = λ req. err invalid_arg;
  refreshes = λ req. ok (answer status);
  encrypt = λ payload. ok payload;
  runtimes = runtimes;
  error_text = λ e. "failed";
}

-- a manager whose table has a runtime of the bot
abbrev services : Services
services = record { repositories = none; decrypt = none; start_runtime = λ req. some 5 }

abbrev running : World
running = record world { handles = put empty "b" (some 4) }

abbrev start_text : StartError → String
start_text e = "runtime already started"

is_running : active running.handles "b" ≡ true
unfolding active
is_running = rw (get-put {V = Option ℕ} empty "b" "b" (some 4), active) refl

abbrev again : Collaborators
again = collaborators "confirmed" (some (manager services (λ h. h) start_text))

confirm_again_example :
    let (r, w') = confirm up again (answer "confirmed") bot binding running in
    (r ≡ err (other "runtime already started"))
    × (get w'.bots "b"
        ≡ some (record (bound_bot "acct" bot) {
          connection_status = status_error;
          connection_error = "failed";
        }))
    × (w'.handles ≡ running.handles)
unfolding bind_account upsert insert_or_refresh same_account Bots.update bound_bot
confirm_again_example =
    confirm_again up again services (λ h. h) start_text (answer "confirmed") bot binding running
      {a = record {
        id = "acct";
        user_id = "u";
        channel_type = "wechat";
        account_uid = "uid";
        display_name = "Ann";
        avatar_url = "";
        credential_ciphertext = 1 ∷ [];
        credential_version = 1;
        last_bound_at = some 7;
      }}
      (λ n. refl) refl refl is_running

deletes : ((delete_bot up "b" world).0 ≡ ok tt) × ((delete_bot up "b" world).1.calls ≡ 3)
unfolding delete_bot Bots.get_by_id Bots.delete_by_id Bindings.delete_by_bot_id
deletes = ground (arith, get-put empty "b" "b" bot)

deleted_returns_example :
    (get (delete_bot up "b" world).1.bots "b" ≡ none)
    × (get (on_state up bot connected (delete_bot up "b" world).1).bots "b"
        ≡ some (record bot { connection_status = status_connected; connection_error = "" }))
deleted_returns_example = deleted_returns up bot world deletes.0 refl

abbrev as_is : List McpServer → List McpServer
as_is servers = servers

set_bot_servers_lem_example :
    let (r, w') = set_bot_servers up as_is "b" [] world in
    (w'.bots ≡ world.bots)
    × (((r ≡ ok tt) × (times "s" (attached_to "c" w'.attached) ≡ 1))
        ⊎ ((r ≢ ok tt) × (w'.attached ≡ world.attached)))
set_bot_servers_lem_example = set_bot_servers_lem up as_is "b" [] world "c" "s"

attachments_refine_example :
    let (r, w') = implementation up as_is (replaces "b" ("s" ∷ [])) world in
    ((r ≡ ok tt) × (has_row w'.attached "b" "s" ≡ true))
    ⊎ ((r ≢ ok tt) × (has_row w'.attached "b" "s" ≡ false))
attachments_refine_example = attachments_refine up as_is (replaces "b" ("s" ∷ [])) world "b" "s"

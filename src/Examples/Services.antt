-- ===== src/Examples/Services.antt =====
-- The connections of internal/app/bot/connection_manager.go and the tasks and agents of
-- internal/app/orchestration on concrete data.
use channel_plugin.Prelude.{String, ◌≡◌, refl, true, Option, some, [], ◌∷◌}
use channel_plugin.GoMap.{get, put, empty, get-put}
use channel_plugin.Domain.{Bot, RegisteredAgent, kind_remote, healthy}
use channel_plugin.Orchestration.Tasks.{Task, completed, terminal, get_task}
use channel_plugin.Orchestration.Tasks.Lifecycle.{fails, cancels, calls, settled_forever}
use channel_plugin.Orchestration.Dispatch.{RunOutcome, answered, dispatch}
use channel_plugin.Orchestration.Settling.{dispatch_settles}

abbrev bot : Bot
bot = record {
  id = "bot";
  user_id = "u1";
  name = "helper";
  type = "subagent";
  channel_type = "wechat";
  channel_account_id = "acc1";
  connection_status = "connected";
  connection_error = "";
  agent_capability_id = "cap1";
  agent_mode = "claude";
  role = "";
  cli_alias = "";
  workspace = "";
  system_prompt = "";
  agent_env = [];
}

-- Tasks.
abbrev done : Task
done = record {
  id = "t1";
  agent_name = "helper";
  prompt = "sum up";
  state = completed;
  result = "a summary";
  error = "";
  created_at = 1;
  updated_at = 2;
}

settled_forever_example :
    get (calls (put empty "t1" done) (fails "t1" 5 "late" ∷ cancels "t1" 6 ∷ [])) "t1" ≡ some done
unfolding terminal
settled_forever_example =
    settled_forever (put empty "t1" done) (fails "t1" 5 "late" ∷ cancels "t1" 6 ∷ []) "t1" done tt
      (get-put empty "t1" "t1" done) refl

abbrev agent : RegisteredAgent
agent = record {
  id = "a1";
  name = "helper";
  description = "a helper";
  kind = kind_remote;
  bot_id = "";
  endpoint = "http://localhost:1";
  auth_token = "";
  health = healthy;
  last_heartbeat = some 3;
}

abbrev runner : RegisteredAgent → String → Option RunOutcome
runner a prompt = some (answered "a summary")

dispatch_settles_example :
    (t : Task) × (get_task
        (dispatch runner empty agent "sum up" "t1" 4 [] (cancels "t1" 4 ∷ []))
        "t1"
      ≡ some t)
    × (terminal t.state ≡ true)
    × (t.agent_name ≡ "helper")
    × (t.prompt ≡ "sum up")
dispatch_settles_example =
    dispatch_settles runner empty agent "sum up" "t1" 4 [] (cancels "t1" 4 ∷ []) refl tt tt

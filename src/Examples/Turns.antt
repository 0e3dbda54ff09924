-- ===== src/Examples/Turns.antt =====
-- Turns of internal/app/bot/message_orchestrator.go on concrete messages.
use channel_plugin.Prelude.{◌+◌, ◌-◌, ◌≡◌, refl, true, false, none, some, [], ◌∷◌}
use channel_plugin.Prelude.Int.{pos}
use channel_plugin.GoMap.{get, put, empty, get-put}
use channel_plugin.Agent.Types.{Spec, other}
use channel_plugin.Agent.Session.Defs.{RunResult}
use channel_plugin.Bot.Messages.{InboundMessage, no_target, target_of}
use channel_plugin.Bot.Orchestrator.Defs.{
  Orchestrator, BotState, Seen, new_state, is_message_in_progress, active_count,
}
use channel_plugin.Bot.Orchestrator.Events.{run, starts}
use channel_plugin.Bot.Orchestrator.Delivery.{accept, execute_and_deliver, DeliveryItem, no_session}
use channel_plugin.Bot.Orchestrator.Turns.{
  deliver_effects, turn_balanced, replies, finalized, stored, answer, counts,
}

abbrev hello : InboundMessage
hello = record {
  bot_id = "bot";
  message_id = "1";
  from = "ann";
  text = "hello";
  reply_target = no_target;
}

abbrev second : InboundMessage
second = record hello { message_id = "2" }

abbrev spec : Spec
spec = record {
  bot_id = "bot";
  bot_name = "helper";
  type = "claude";
  command = "claude";
  args = none;
  work_dir = "/work";
  sqlite_path = "";
  env = none;
  timeout = pos 60;
  queue_size = pos 4;
  orchestrator = true;
  real_cli = false;
  resume_session_id = "";
}

abbrev bot : BotState
bot = new_state 0

abbrev entry : Seen
entry = record { seen_at = 5; in_progress = true }

abbrev in_turn : Orchestrator
in_turn = record {
  bots = put empty "bot" bot;
  seen = put empty "bot:1" entry;
  last_seen_cleanup = some 0;
  next_id = 1;
}

abbrev item : DeliveryItem
item = record { msg = hello; spec = spec; sess = true }

abbrev done : RunResult
done = record {
  response = record {
    text = "hi";
    runtime_type = "claude";
    exit_code = 0;
    raw_output = "";
    session_id = "s1";
  };
  error = none;
}

abbrev failed : RunResult
failed = record {
  response = record {
    text = "";
    runtime_type = "";
    exit_code = 0;
    raw_output = "";
    session_id = "";
  };
  error = some (other "exit 1");
}

known : get in_turn.bots "bot" ≡ some bot
known = get-put empty "bot" "bot" bot

counted : counts in_turn hello ≡ true
counted = unfold is_message_in_progress in rw (get-put empty "bot:1" "bot:1" entry) refl

deliver_effects_example :
    (replies (execute_and_deliver true false in_turn 9 item failed).1
      ≡ (target_of hello, answer failed) ∷ [])
    × (finalized (execute_and_deliver true false in_turn 9 item failed).1 ≡ 1)
    × (stored (execute_and_deliver true false in_turn 9 item failed).1 ≡ 0)
deliver_effects_example = deliver_effects true false in_turn 9 item failed

turn_balanced_example :
    let o' = (accept in_turn 9 hello (some spec) no_session).0 in
    let between = run o' (starts second ∷ []) in
    (active_count o' "bot" ≡ active_count in_turn "bot" + 1)
    × (active_count (execute_and_deliver true false between 20 item done).0 "bot"
        ≡ active_count between "bot" - 1)
    × (active_count (execute_and_deliver true false o' 20 item done).0 "bot"
        ≡ active_count in_turn "bot")
turn_balanced_example =
    turn_balanced in_turn 9 20 hello bot no_session known counted spec true true false done
      (starts second ∷ []) (tt, tt)

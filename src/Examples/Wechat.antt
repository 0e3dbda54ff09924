-- ===== src/Examples/Wechat.antt =====
-- The runtime and the replies of WeChat on concrete messages.
use channel_plugin.Prelude.{ℕ, suc, true, none, some, List, [], ◌∷◌, ◌++◌, ◌≡◌, refl}
use channel_plugin.Prelude.Int.{pos}
use channel_plugin.Prelude.Text.{trim_space, is_blank}
use channel_plugin.Agent.Types.{Response}
use channel_plugin.GoMap
use channel_plugin.Domain.{Bot, ChannelAccount, got}
use channel_plugin.Bot.Messages.{InboundMessage, target_of, message_of}
use channel_plugin.Wechat.Client.{Message, SendMessageOptions, Called, done}
use channel_plugin.Wechat.Reply.{
  ReplyError, rejected, sent, wechat_reply, fields, wechat_target, target_metadata, payload_fields,
  build_reply_target,
}
use channel_plugin.Wechat.Runtime.{
  Account, message_event, stopped, Poller, first_poll, Round, found_done, answered, poll_failed,
  poll_round, poll_loop, advance, next_poll_timeout,
}
use channel_plugin.Wechat.Polling.{stop_in_poll_untold, states_of}
use channel_plugin.Wechat.Answers.{message_answered}
use channel_plugin.Wechat.Simulated.{simulated_unanswered}
use channel_plugin.Bot.Simulator.{
  MessageSimulator, SimulateMessageInput, credentials, build_target, with_account, with_bot,
  simulate, handled, simulated_message,
}

abbrev account : Account
account = record {
  bot_id = "b";
  channel_type = "wechat";
  account_uid = "u";
  base_url = "http://service";
  bot_token = "secret";
  wechat_uin = "7";
  has_on_state = true;
  has_on_event = true;
}

abbrev hello : Message
hello = record { msg_id = "1"; from = "ann"; text = "hello"; context_token = "ctx" }

abbrev one_poll : List Round
one_poll = answered (record { messages = hello ∷ []; cursor = "c1"; next_timeout = pos 0 }) ∷ []

abbrev after_poll : Poller
after_poll = record { cursor = "c1"; poll_timeout = pos 35000 }

goes_on : (poll_loop (λ s. s) account one_poll first_poll).1 ≡ some after_poll
unfolding poll_loop poll_round advance next_poll_timeout
goes_on = refl

stop_in_poll_untold_example :
    (states_of (poll_loop (λ s. s) account (one_poll ++ found_done "canceled" ∷ []) first_poll).0
      ≡ stopped "canceled" ∷ [])
    × (states_of
          (poll_loop (λ s. s) account (one_poll ++ poll_failed "canceled" true ∷ []) first_poll).0
        ≡ [])
    × ((poll_loop (λ s. s) account (one_poll ++ poll_failed "canceled" true ∷ []) first_poll).1
        ≡ none)
stop_in_poll_untold_example =
    stop_in_poll_untold (λ s. s) account one_poll [] first_poll after_poll "canceled" "canceled"
      refl goes_on

abbrev says : Response
says = record { text = "hi "; runtime_type = ""; exit_code = 0; raw_output = ""; session_id = "" }

-- a client that counts what it sends
abbrev client : SendMessageOptions → ℕ → Called (Unit {0}) × ℕ
client opts n = (done tt, suc n)

message_answered_example :
    wechat_reply client (target_of (message_of (message_event account hello))) says 0 ≡ (
      sent
          (record {
            base_url = "http://service";
            token = "secret";
            wechat_uin = "7";
            to_user_id = "ann";
            text = "hi";
            context_token = "ctx";
          })
          (done tt),
      1,
    )
unfolding is_blank trim_space
message_answered_example =
    message_answered account hello client says 0 refl refl refl refl refl refl

abbrev a_bot : Bot
a_bot = record {
  id = "b";
  user_id = "u";
  name = "helper";
  type = "channel";
  channel_type = "wechat";
  channel_account_id = "acc";
  connection_status = "";
  connection_error = "";
  agent_capability_id = "";
  agent_mode = "";
  role = "";
  cli_alias = "";
  workspace = "";
  system_prompt = "";
  agent_env = [];
}

abbrev an_account : ChannelAccount
an_account = record {
  id = "acc";
  user_id = "u";
  channel_type = "wechat";
  account_uid = "uid";
  display_name = "";
  avatar_url = "";
  credential_ciphertext = [];
  credential_version = 1;
  last_bound_at = none;
}

abbrev simulator : MessageSimulator
simulator = record {
  bots = λ id. got a_bot;
  accounts = λ id. got an_account;
  decrypt = none;
  orchestrator = true;
  decode = λ bytes. fields GoMap.empty;
  random_uin = "7";
  new_message_id = "m1";
}

abbrev made_up : SimulateMessageInput
made_up = record {
  bot_id = "b";
  from = "ann";
  text = "hello";
  message_id = "";
  recipient_id = "ann";
}

abbrev made_message : InboundMessage
made_message =
    simulated_message simulator made_up
      (wechat_target "ann" (target_metadata "uid" "7" GoMap.empty))

made : simulate simulator made_up ≡ handled made_message
unfolding simulate with_bot with_account credentials build_target build_reply_target payload_fields
    is_blank trim_space
made = refl

simulated_unanswered_example :
    (e : ReplyError) × (wechat_reply client (target_of made_message) says 0 ≡ (rejected e, 0))
simulated_unanswered_example =
    simulated_unanswered simulator made_up made_message client says 0 made
      (unfold is_blank trim_space in refl)

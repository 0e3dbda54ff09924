-- ===== src/Bot/Simulator.antt =====
-- internal/app/bot/message_simulator.go: a message that is made up for a bot, as if a user had sent it.
-- The repositories, the cipher and the decoder of credentials are parameters.
use channel_plugin.Prelude.{
  ℕ, String, Bool, not, ◌||◌, Option, none, some, List, ◌==◌, if◌then◌else◌,
}
use channel_plugin.Prelude.Text.{trim_space, is_blank}
use channel_plugin.Domain.{Bot, ChannelAccount, StoreError, Fetched, got, missed}
use channel_plugin.Bot.Messages.{ReplyTarget, InboundMessage}
use channel_plugin.Wechat.Reply.{Payload, build_reply_target}

pub record SimulateMessageInput : Type 0 where
  pub bot_id : String
  pub from : String
  pub text : String
  pub message_id : String
  pub recipient_id : String

-- `decrypt` is `none` where the cipher is nil, and its answer is `none` for an error; `orchestrator` is
-- whether there is one.
pub record MessageSimulator : Type 0 where
  pub bots : String → Fetched Bot
  pub accounts : String → Fetched ChannelAccount
  pub decrypt : Option (List ℕ → Option (List ℕ))
  pub orchestrator : Bool
  pub decode : List ℕ → Payload
  pub random_uin : String
  pub new_message_id : String

pub data SimulateError : Type 0 where
  input_required orchestrator_required account_missing decrypt_failed unsupported_channel :
      SimulateError
  bad_credentials : SimulateError
  store_failed : StoreError → SimulateError

-- The message that `HandleMessage` is called with, which also holds what is answered.
pub data Simulated : Type 0 where
  handled : InboundMessage → Simulated
  refused : SimulateError → Simulated

unfoldable pub credentials : Option (List ℕ → Option (List ℕ)) → List ℕ → Option (List ℕ)
credentials none c = some c
credentials (some decrypt) c = decrypt c

pub data BuiltTarget : Type 0 where
  target_is : ReplyTarget → BuiltTarget
  no_target : SimulateError → BuiltTarget

abbrev pub of_wechat : Option ReplyTarget → BuiltTarget
of_wechat none = no_target bad_credentials
of_wechat (some t) = target_is t

-- `buildReplyTarget`
unfoldable pub build_target :
    MessageSimulator → (channel_type recipient_id account_uid : String) → List ℕ → BuiltTarget
build_target s channel_type recipient_id account_uid payload =
    if channel_type == "wechat"
    then of_wechat (build_reply_target s.decode s.random_uin recipient_id account_uid payload)
    else no_target unsupported_channel

unfoldable pub simulated_message :
    MessageSimulator → SimulateMessageInput → ReplyTarget → InboundMessage
simulated_message s x target = record {
  bot_id = trim_space x.bot_id;
  message_id = if is_blank x.message_id then s.new_message_id else trim_space x.message_id;
  from = trim_space x.from;
  text = x.text;
  reply_target = target;
}

unfoldable pub with_account :
    MessageSimulator → SimulateMessageInput → Bot → ChannelAccount → Simulated
with_account s x bot account = elim (credentials s.decrypt account.credential_ciphertext) [
  | none ↦ refused decrypt_failed
  | some payload ↦
      elim (build_target s bot.channel_type (trim_space x.recipient_id) account.account_uid
        payload) [ target_is t ↦ handled (simulated_message s x t) | no_target e ↦ refused e ]
]

unfoldable pub with_bot : MessageSimulator → SimulateMessageInput → Bot → Simulated
with_bot s x bot =
    if bot.channel_account_id == ""
    then refused account_missing
    else elim (s.accounts bot.channel_account_id) [
      | missed e ↦ refused (store_failed e)
      | got account ↦ with_account s x bot account
    ]

-- `Simulate`
unfoldable pub simulate : MessageSimulator → SimulateMessageInput → Simulated
simulate s x =
    if is_blank x.bot_id || is_blank x.from || is_blank x.recipient_id || is_blank x.text
    then refused input_required
    else if not s.orchestrator
    then refused orchestrator_required
    else elim (s.bots (trim_space x.bot_id)) [
      | missed e ↦ refused (store_failed e)
      | got bot ↦ with_bot s x bot
    ]

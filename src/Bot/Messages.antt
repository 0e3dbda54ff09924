-- ===== src/Bot/Messages.antt =====
-- The messages of internal/app/bot/message_orchestrator.go, the reply targets and events of
-- internal/channel/provider.go, and the fixed texts and times.
use Prim.Native.String
use channel_plugin.Prelude.{ℕ, ◌*◌, String, none, some, ◌==◌, if◌then◌else◌}
use channel_plugin.GoMap
use channel_plugin.GoMap.{GoMap}

pub record ReplyTarget : Type 0 where
  pub channel_type : String
  pub recipient_id : String
  pub metadata : GoMap String

-- The zero value; the map is nil, which reads as an empty one.
abbrev pub no_target : ReplyTarget
no_target = record { channel_type = ""; recipient_id = ""; metadata = GoMap.empty }

-- `MetadataValue`: a missing key reads as "".
unfoldable pub metadata_value : ReplyTarget → String → String
metadata_value t key = elim (GoMap.get t.metadata key) [ none ↦ "" | some v ↦ v ]

-- `ReceivedAt` is never set, and the context `Ctx` carries deadlines alone: both are left out.
pub record InboundMessage : Type 0 where
  pub bot_id : String
  pub message_id : String
  pub from : String
  pub text : String
  pub reply_target : ReplyTarget

-- `Raw` is left out: nothing reads it.
pub record RuntimeEvent : Type 0 where
  pub bot_id : String
  pub channel_type : String
  pub message_id : String
  pub from : String
  pub text : String
  pub reply_target : ReplyTarget

-- the message that `HandleEvent` makes of an event
unfoldable pub message_of : RuntimeEvent → InboundMessage
message_of ev = record {
  bot_id = ev.bot_id;
  message_id = ev.message_id;
  from = ev.from;
  text = ev.text;
  reply_target = ev.reply_target;
}

-- Where an answer goes: the sender, if the target names nobody.
abbrev pub target_of : InboundMessage → ReplyTarget
target_of msg =
    if msg.reply_target.recipient_id == ""
    then record (msg.reply_target) { recipient_id = msg.from }
    else msg.reply_target

-- `BotID + ":" + MessageID`
abbrev pub seen_key : InboundMessage → String
seen_key msg = String.◌++◌ msg.bot_id (String.◌++◌ ":" msg.message_id)

abbrev pub busy_reply : String
busy_reply = "当前请求较多，请稍后再试。"

abbrev pub timeout_reply : String
timeout_reply = "处理超时，请稍后重试。"

abbrev pub failed_reply : String
failed_reply = "处理失败，请稍后重试。"

abbrev pub ack_reply : String
ack_reply = "收到，正在处理…"

-- Times are nanoseconds since an epoch, and durations nanoseconds.
second : ℕ
second = 1000000000

unfoldable pub seen_message_ttl : ℕ
unfolding second
seen_message_ttl = 600 * second

unfoldable pub cleanup_interval : ℕ
unfolding second
cleanup_interval = 60 * second

abbrev pub default_queue_size : ℕ
default_queue_size = 1

-- ===== src/Feishu/Targets.antt =====
-- The targets of the messages that the runtime of a bot hands on.
use channel_plugin.Prelude.{
  String, true, false, some, [], ◌==◌, arith, ◌≡◌, ◌≢◌, refl, ap, ◌∙◌, eq_iff, if◌then◌else◌,
  Bool-cases, inl, inr,
}
use channel_plugin.Prelude.Text.{trim_space}
use channel_plugin.GoMap
use channel_plugin.GoMap.{GoMap, get-put, get-delete}
use channel_plugin.Bot.Messages.{ReplyTarget, RuntimeEvent, metadata_value, message_of, target_of}
use channel_plugin.Bot.Metadata.{value, value-put}
use channel_plugin.Channel.{StartRuntimeRequest}
use channel_plugin.Feishu.Runtime.{
  Credentials, FeishuMessage, feishu_metadata, feishu_event, on_feishu_message,
}
use channel_plugin.Feishu.Api.{SendParams, sender_mention, reply_chat, reply_params}

module _ (bot_id : String) (m : FeishuMessage) where
  abbrev with_bot_id : GoMap String
  with_bot_id = GoMap.put GoMap.empty "bot_id" bot_id

  abbrev with_chat_id : GoMap String
  with_chat_id = GoMap.put with_bot_id "chat_id" m.chat_id

  abbrev with_chat_type : GoMap String
  with_chat_type = GoMap.put with_chat_id "chat_type" m.chat_type

  abbrev with_message_id : GoMap String
  with_message_id = GoMap.put with_chat_type "message_id" m.message_id

  feishu_metadata_lem :
      (value (feishu_metadata bot_id m) "bot_id" ≡ bot_id)
      × (value (feishu_metadata bot_id m) "chat_id" ≡ m.chat_id)
      × (value (feishu_metadata bot_id m) "chat_type" ≡ m.chat_type)
      × (value (feishu_metadata bot_id m) "message_id" ≡ m.message_id)
      × (value (feishu_metadata bot_id m) "sender_open_id" ≡ m.sender_open_id)
  unfolding feishu_metadata
  feishu_metadata_lem = (
    value-put with_message_id "sender_open_id" "bot_id" m.sender_open_id
        ∙ value-put with_chat_type "message_id" "bot_id" m.message_id
        ∙ value-put with_chat_id "chat_type" "bot_id" m.chat_type
        ∙ value-put with_bot_id "chat_id" "bot_id" m.chat_id
        ∙ value-put GoMap.empty "bot_id" "bot_id" bot_id,
    value-put with_message_id "sender_open_id" "chat_id" m.sender_open_id
        ∙ value-put with_chat_type "message_id" "chat_id" m.message_id
        ∙ value-put with_chat_id "chat_type" "chat_id" m.chat_type
        ∙ value-put with_bot_id "chat_id" "chat_id" m.chat_id,
    value-put with_message_id "sender_open_id" "chat_type" m.sender_open_id
        ∙ value-put with_chat_type "message_id" "chat_type" m.message_id
        ∙ value-put with_chat_id "chat_type" "chat_type" m.chat_type,
    value-put with_message_id "sender_open_id" "message_id" m.sender_open_id
        ∙ value-put with_chat_type "message_id" "message_id" m.message_id,
    value-put with_message_id "sender_open_id" "sender_open_id" m.sender_open_id,
  )

-- What an answer to a message is sent with: to the chat, and in a group as a reply to the message that
-- mentions its sender.
abbrev pub answer_params : FeishuMessage → String → SendParams
answer_params m text =
    if m.chat_type == "group"
    then record {
      chat_id = trim_space m.chat_id;
      text = text;
      reply_message_id = trim_space m.message_id;
      mentions = sender_mention (trim_space m.sender_open_id);
    }
    else record {
      chat_id = trim_space m.chat_id;
      text = text;
      reply_message_id = "";
      mentions = [];
    }

same_either : (s : String) → ◌≡◌ {A = String} (if s == "" then s else s) s
same_either s = elim (Bool-cases (s == "")) [ inl e ↦ simp e refl | inr e ↦ simp e refl ]

module _ (req : StartRuntimeRequest) (m : FeishuMessage) where
  abbrev pub target : ReplyTarget
  unfolding feishu_event
  target = (feishu_event req m).reply_target

  pub target_lem :
      (metadata_value target "bot_id" ≡ req.bot_id)
      × (metadata_value target "chat_id" ≡ m.chat_id)
      × (metadata_value target "chat_type" ≡ m.chat_type)
      × (metadata_value target "message_id" ≡ m.message_id)
      × (metadata_value target "sender_open_id" ≡ m.sender_open_id)
  unfolding metadata_value feishu_event
  target_lem = feishu_metadata_lem req.bot_id m

  reply_chat_lem : reply_chat target ≡ trim_space m.chat_id
  unfolding reply_chat feishu_event
  reply_chat_lem = let (b, c, t, i, s) = target_lem in rw c (same_either (trim_space m.chat_id))

  pub reply_params_lem : (text : String) → reply_params target text ≡ answer_params m text
  unfolding reply_params
  reply_params_lem text = let (b, c, t, i, s) = target_lem in rw (t, i, s, reply_chat_lem) refl

pub not_empty : (s : String) → s ≢ "" → (s == "") ≡ false
not_empty s h = ground (arith, eq_iff s "")

event_is :
    (req : StartRuntimeRequest) (c : Credentials) (m : FeishuMessage) {ev : RuntimeEvent}
    → on_feishu_message true req c m ≡ some ev
    → ev ≡ feishu_event req m
unfolding on_feishu_message
event_is req c m h = ground arith

pub target_of_event :
    (req : StartRuntimeRequest) (c : Credentials) (m : FeishuMessage) {ev : RuntimeEvent}
    → on_feishu_message true req c m ≡ some ev
    → m.chat_id ≢ ""
    → target_of (message_of ev) ≡ target req m
unfolding message_of feishu_event
target_of_event req c m {ev} h chat =
    ap (λ e. target_of (message_of e)) (event_is req c m h)
    ∙ ground (arith, eq_iff m.chat_id "", chat)

-- ===== src/Wechat/Reply.antt =====
-- Reply targets of WeChat and the replies to them.
use channel_plugin.Prelude.{ℕ, String, Option, none, some, List, [], ◌∷◌, ◌==◌, if◌then◌else◌}
use channel_plugin.Prelude.Text.{trim_space, is_blank}
use channel_plugin.GoMap
use channel_plugin.GoMap.{GoMap}
use channel_plugin.Bot.Messages.{ReplyTarget, metadata_value}
use channel_plugin.Agent.Types.{Response}
use channel_plugin.Wechat.Client.{SendMessageOptions, Called, done, failed}

-- A decoded payload of credentials: an error, `null`, or the fields that are texts.
pub data Payload : Type 0 where
  undecodable null_payload : Payload
  fields : GoMap String → Payload

-- `payload[key].(string)`, "" where that is no text
unfoldable pub text_field : GoMap String → String → String
text_field m key = elim (GoMap.get m key) [ none ↦ "" | some v ↦ v ]

-- the metadata of a target, by the fields of the credentials
unfoldable pub target_metadata : (account_uid random_uin : String) → GoMap String → GoMap String
target_metadata account_uid random_uin m =
    let uin = text_field m "wechat_uin" in
    GoMap.put
      (GoMap.put
        (GoMap.put (GoMap.put GoMap.empty "account_uid" account_uid) "base_url"
          (text_field m "baseurl"))
        "token" (text_field m "bot_token"))
      "wechat_uin" (if uin == "" then random_uin else uin)

unfoldable pub wechat_target : String → GoMap String → ReplyTarget
wechat_target recipient_id metadata = record {
  channel_type = "wechat";
  recipient_id = recipient_id;
  metadata = metadata;
}

-- the fields that `BuildReplyTarget` reads; an empty payload is not decoded
unfoldable pub payload_fields : (List ℕ → Payload) → List ℕ → Option (GoMap String)
payload_fields decode [] = some GoMap.empty
payload_fields decode (b ∷ bs) = elim (decode (b ∷ bs)) [
  | undecodable ↦ none
  | null_payload ↦ some GoMap.empty
  | fields m ↦ some m
]

-- `BuildReplyTarget`; `none` is an error
unfoldable pub build_reply_target :
    (List ℕ → Payload)
    → (random_uin recipient_id account_uid : String) → List ℕ
    → Option ReplyTarget
build_reply_target decode random_uin recipient_id account_uid payload =
    elim (payload_fields decode payload) [
      | none ↦ none
      | some m ↦ some (wechat_target recipient_id (target_metadata account_uid random_uin m))
    ]

pub data ReplyError : Type 0 where
  missing_recipient missing_base_url missing_token missing_wechat_uin missing_context_token :
      ReplyError
  send_failed : String → ReplyError

-- `validateReplyTarget`
unfoldable pub validate_reply_target : ReplyTarget → Option ReplyError
validate_reply_target t =
    if is_blank t.recipient_id
    then some missing_recipient
    else if is_blank (metadata_value t "base_url")
    then some missing_base_url
    else if is_blank (metadata_value t "token")
    then some missing_token
    else if is_blank (metadata_value t "wechat_uin")
    then some missing_wechat_uin
    else if is_blank (metadata_value t "context_token")
    then some missing_context_token
    else none

unfoldable pub send_options : ReplyTarget → String → SendMessageOptions
send_options t text = record {
  base_url = trim_space (metadata_value t "base_url");
  token = trim_space (metadata_value t "token");
  wechat_uin = trim_space (metadata_value t "wechat_uin");
  to_user_id = trim_space t.recipient_id;
  text = text;
  context_token = trim_space (metadata_value t "context_token");
}

-- What a reply comes to: nothing to say, an error before anything is sent, or the error of the client,
-- if any, at what was sent.
pub data Replied : Type 0 where
  silent : Replied
  rejected : ReplyError → Replied
  sent : SendMessageOptions → Called (Unit {0}) → Replied

-- `Reply`
unfoldable pub wechat_reply :
    {W : Type 0}
    → (SendMessageOptions → W → Called (Unit {0}) × W)
    → ReplyTarget
    → Response
    → W
    → Replied × W
wechat_reply send t resp w =
    let text = trim_space resp.text in
    if text == "" then (silent, w) else elim (validate_reply_target t) [
      | some e ↦ (rejected e, w)
      | none ↦ let (r, w') = send (send_options t text) w in (sent (send_options t text) r, w')
    ]

-- the error that `Reply` returns
unfoldable pub reply_error : Replied → Option ReplyError
reply_error silent = none
reply_error (rejected e) = some e
reply_error (sent opts (done _)) = none
reply_error (sent opts (failed e)) = some (send_failed e)

-- ===== src/Wechat/Answers.antt =====
-- The answers to messages of users.
use channel_plugin.Prelude.{
  String, true, false, not, ◌==◌, arith, ◌≡◌, refl, ap, ◌∙◌, eq_iff, Bool-cases, inl, inr,
}
use channel_plugin.Prelude.Text.{trim_space, is_blank}
use channel_plugin.Bot.Messages.{ReplyTarget, metadata_value, message_of, target_of}
use channel_plugin.Agent.Types.{Response}
use channel_plugin.Wechat.Client.{Message, SendMessageOptions, Called}
use channel_plugin.Wechat.Reply.{validate_reply_target, send_options, Replied, sent, wechat_reply}
use channel_plugin.Wechat.Runtime.{Account, message_target, message_event}
use channel_plugin.Wechat.Targets.{with_context_lem, blank_empty}

-- the values of the target of a message that has a context token
message_target_lem :
    (a : Account) (m : Message)
    → not (m.context_token == "") ≡ true
    → (metadata_value (message_target a m) "base_url" ≡ a.base_url)
      × (metadata_value (message_target a m) "token" ≡ a.bot_token)
      × (metadata_value (message_target a m) "wechat_uin" ≡ a.wechat_uin)
      × (metadata_value (message_target a m) "context_token" ≡ m.context_token)
unfolding metadata_value message_target
message_target_lem a m h = elim (Bool-cases (m.context_token == "")) [
  | inl e ↦ ground (arith, e)
  | inr e ↦
      rw e (with_context_lem a.account_uid a.base_url a.bot_token a.wechat_uin m.context_token)
]

not_blank : (s : String) → is_blank s ≡ false → not (s == "") ≡ true
not_blank s h = ground (arith, blank_empty, eq_iff s "")

target_of_event :
    (a : Account) (m : Message)
    → not (m.from == "") ≡ true
    → target_of (message_of (message_event a m)) ≡ message_target a m
unfolding message_of message_event message_target
target_of_event a m h = elim (Bool-cases (m.from == "")) [
  | inl e ↦ ground (arith, e)
  | inr e ↦ simp e refl
]

abbrev delivered {ℓ} :
    {W : Type ℓ}
    → (SendMessageOptions → W → Called (Unit {0}) × W)
    → SendMessageOptions
    → W
    → Replied × W
delivered send opts w = (sent opts (send opts w).0, (send opts w).1)

reply_delivered :
    {W : Type 0} (t : ReplyTarget) (send : SendMessageOptions → W → Called (Unit {0}) × W)
    (resp : Response) (w : W)
    → is_blank resp.text ≡ false
    → is_blank t.recipient_id ≡ false
    → is_blank (metadata_value t "base_url") ≡ false
    → is_blank (metadata_value t "token") ≡ false
    → is_blank (metadata_value t "wechat_uin") ≡ false
    → is_blank (metadata_value t "context_token") ≡ false
    → wechat_reply send t resp w ≡ delivered send (send_options t (trim_space resp.text)) w
unfolding wechat_reply is_blank validate_reply_target
reply_delivered t send resp w a b c d e f = rw (a, b, c, d, e, f) refl

recipient_same : (a : Account) (m : Message) → (message_target a m).recipient_id ≡ m.from
unfolding message_target
recipient_same a m = refl

recipient :
    (a : Account) (m : Message)
    → is_blank m.from ≡ false
    → is_blank (message_target a m).recipient_id ≡ false
recipient a m h = rw (recipient_same a m) h

-- A reply that says something to a message with a sender and a context token, of an account with an
-- address, a token and a number: it is sent to the sender, with the values of the account and the
-- context token of the message, all trimmed.
pub message_answered :
    {W : Type 0} (a : Account) (m : Message) (send : SendMessageOptions → W → Called (Unit {0}) × W)
    (resp : Response) (w : W)
    → is_blank resp.text ≡ false
    → is_blank m.from ≡ false
    → is_blank m.context_token ≡ false
    → is_blank a.base_url ≡ false
    → is_blank a.bot_token ≡ false
    → is_blank a.wechat_uin ≡ false
    → let opts : SendMessageOptions = record {
      base_url = trim_space a.base_url;
      token = trim_space a.bot_token;
      wechat_uin = trim_space a.wechat_uin;
      to_user_id = trim_space m.from;
      text = trim_space resp.text;
      context_token = trim_space m.context_token;
    } in
      wechat_reply send (target_of (message_of (message_event a m))) resp w
      ≡ (sent opts (send opts w).0, (send opts w).1)
unfolding send_options
message_answered a m send resp w t f c b k u =
    let to = message_target a m in
    let (url, token, uin, context) = message_target_lem a m (not_blank m.context_token c) in
    ap (λ x. wechat_reply send x resp w) (target_of_event a m (not_blank m.from f))
    ∙ reply_delivered to send resp w t (recipient a m f) (ap is_blank url ∙ b)
        (ap is_blank token ∙ k) (ap is_blank uin ∙ u) (ap is_blank context ∙ c)
    ∙ ap (λ o. delivered send o w) (rw (url, token, uin, context, recipient_same a m) refl)

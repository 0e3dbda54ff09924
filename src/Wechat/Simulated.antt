-- ===== src/Wechat/Simulated.antt =====
-- The answers to messages that are made up.
use channel_plugin.Prelude.{
  ℕ, String, false, none, some, List, ◌==◌, arith, ◌≡◌, ◌≢◌, refl, ◌∙◌, if◌then◌else◌, Option-cases,
  inl, inr,
}
use channel_plugin.Prelude.Text.{trim_space, is_blank}
use channel_plugin.GoMap.{GoMap}
use channel_plugin.Bot.Messages.{ReplyTarget, InboundMessage, metadata_value, target_of}
use channel_plugin.Agent.Types.{Response}
use channel_plugin.Domain.{Bot, ChannelAccount, Fetched, got, missed}
use channel_plugin.Wechat.Client.{SendMessageOptions, Called}
use channel_plugin.Wechat.Reply.{
  Payload, target_metadata, wechat_target, payload_fields, text_field, build_reply_target,
  ReplyError, validate_reply_target, rejected, wechat_reply,
}
use channel_plugin.Bot.Simulator.{
  SimulateMessageInput, MessageSimulator, handled, BuiltTarget, target_is, no_target, build_target,
  simulated_message, credentials, with_account, with_bot, simulate,
}
use channel_plugin.Wechat.Targets.{entries_lem, blank_empty, target_of_value}

refuses : (t : ReplyTarget) → metadata_value t "context_token" ≡ "" → validate_reply_target t ≢ none
unfolding validate_reply_target
refuses t h = ground (arith, blank_empty)

validate_no_context :
    (t : ReplyTarget)
    → metadata_value t "context_token" ≡ ""
    → (e : ReplyError) × (validate_reply_target t ≡ some e)
validate_no_context t h = elim (Option-cases (validate_reply_target t)) [
  | inl n ↦ absurd (refuses t h n)
  | inr (e, s) ↦ (e, s)
]

abbrev NoContext : ReplyTarget → Type 0
NoContext t = metadata_value t "context_token" ≡ ""

target-NoContext :
    (recipient_id account_uid random_uin : String) (m : GoMap String)
    → NoContext (wechat_target recipient_id (target_metadata account_uid random_uin m))
unfolding metadata_value wechat_target target_metadata
target-NoContext recipient_id account_uid random_uin m =
    let uin = text_field m "wechat_uin" in
    (entries_lem account_uid (text_field m "baseurl") (text_field m "bot_token")
      (if uin == "" then random_uin else uin)).3

built-NoContext :
    (decode : List ℕ → Payload) (random_uin recipient_id account_uid : String) (payload : List ℕ)
    (t : ReplyTarget)
    → build_reply_target decode random_uin recipient_id account_uid payload ≡ some t
    → NoContext t
unfolding build_reply_target
built-NoContext decode random_uin recipient_id account_uid payload t h =
    elim (Option-cases (payload_fields decode payload)) [
      | inl n ↦ ground (arith, n)
      | inr (m, e) ↦ ground (arith, e, target-NoContext recipient_id account_uid random_uin m)
    ]

target_is-NoContext :
    (s : MessageSimulator) (channel_type recipient_id account_uid : String) (payload : List ℕ)
    (t : ReplyTarget)
    → build_target s channel_type recipient_id account_uid payload ≡ target_is t
    → NoContext t
unfolding build_target
target_is-NoContext s channel_type recipient_id account_uid payload t h =
    elim (Option-cases
      (build_reply_target s.decode s.random_uin recipient_id account_uid payload)) [
        | inl n ↦ ground (arith, n)
        | inr (t', e) ↦
            ground (
              arith,
              e,
              built-NoContext s.decode s.random_uin recipient_id account_uid payload t' e,
            )
      ]

account-NoContext :
    (s : MessageSimulator) (x : SimulateMessageInput) (bot : Bot) (account : ChannelAccount)
    (msg : InboundMessage)
    → with_account s x bot account ≡ handled msg
    → NoContext msg.reply_target
unfolding with_account simulated_message
account-NoContext s x bot account msg h =
    elim (Option-cases (credentials s.decrypt account.credential_ciphertext)) [
      | inl n ↦ ground (arith, n)
      | inr (payload, e) ↦
          by_target
            (build_target s bot.channel_type (trim_space x.recipient_id) account.account_uid
              payload)
            refl e
    ]
  where
    by_target :
        {payload : List ℕ} (b : BuiltTarget)
        → build_target s bot.channel_type (trim_space x.recipient_id) account.account_uid payload
          ≡ b
        → credentials s.decrypt account.credential_ciphertext ≡ some payload
        → NoContext msg.reply_target
    by_target {payload} (target_is t) b e = ground (
      arith,
      target_is-NoContext s bot.channel_type (trim_space x.recipient_id) account.account_uid payload
          t b,
    )
    by_target (no_target why) b e = ground arith

simulated-NoContext :
    (s : MessageSimulator) (x : SimulateMessageInput) (msg : InboundMessage)
    → simulate s x ≡ handled msg
    → NoContext msg.reply_target
unfolding simulate with_bot
simulated-NoContext s x msg h = by_bot (s.bots (trim_space x.bot_id)) refl
  where
    by_bot : (f : Fetched Bot) → s.bots (trim_space x.bot_id) ≡ f → NoContext msg.reply_target
    by_bot (missed e) b = ground arith
    by_bot (got bot) b = by_account (s.accounts bot.channel_account_id) refl
      where
        by_account :
            (f : Fetched ChannelAccount)
            → s.accounts bot.channel_account_id ≡ f
            → NoContext msg.reply_target
        by_account (missed e) a = ground arith
        by_account (got account) a = ground (arith, account-NoContext s x bot account msg)

-- A made-up message that is handed to the orchestrator never gets its answer: a reply to its target
-- that says something is refused before anything is sent.
pub simulated_unanswered :
    {W : Type 0} (s : MessageSimulator) (x : SimulateMessageInput) (msg : InboundMessage)
    (send : SendMessageOptions → W → Called (Unit {0}) × W) (resp : Response) (w : W)
    → simulate s x ≡ handled msg
    → is_blank resp.text ≡ false
    → (e : ReplyError) × (wechat_reply send (target_of msg) resp w ≡ (rejected e, w))
unfolding wechat_reply is_blank
simulated_unanswered s x msg send resp w h t =
    let none_there : NoContext (target_of msg) =
      target_of_value msg "context_token" ∙ simulated-NoContext s x msg h in
    let (e, r) = validate_no_context (target_of msg) none_there in (e, ground (arith, t, r))

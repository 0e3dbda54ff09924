-- ===== src/Feishu/Answers.antt =====
-- The answers to the messages that the runtime of a bot hands on.
use channel_plugin.Prelude.{
  ℕ, String, Bool, true, false, Option, none, some, List, arith, ◌≡◌, ◌≢◌, refl, ap, ◌∙◌, eq_refl,
}
use channel_plugin.Prelude.Text.{trim_space, is_blank}
use channel_plugin.GoMap.{GoMap, get-put, get-delete}
use channel_plugin.Bot.Messages.{RuntimeEvent, message_of, target_of}
use channel_plugin.Channel.{StartRuntimeRequest}
use channel_plugin.Agent.Types.{Response}
use channel_plugin.Feishu.Runtime.{
  Credentials, FeishuMessage, Registry, register_credentials, unregister_credentials,
  lookup_credentials, on_feishu_message, FeishuStart, FeishuState, running, bad_payload, no_app,
  dial_fails, start_with, start_feishu_runtime, runtime_ends,
}
use channel_plugin.Feishu.Api.{
  Lark, LarkClient, send_text, not_active, sends, reply_by, feishu_reply,
}
use channel_plugin.Feishu.Targets.{
  answer_params, target, target_of_event, target_lem, reply_params_lem, not_empty,
}

start_registers :
    (decode : List ℕ → Option Credentials) (dial : Credentials → Option String) (told : Bool)
    (req : StartRuntimeRequest) (r r' : Registry) (c : Credentials) (states : List FeishuState)
    → start_feishu_runtime decode dial told req r ≡ (running c, (states, r'))
    → r' ≡ register_credentials req.bot_id c r
unfolding start_feishu_runtime
start_registers decode dial told req r r' c states h =
    by_start (start_with decode dial (decode req.credential_payload)) refl
  where
    by_start :
        (s : FeishuStart)
        → start_with decode dial (decode req.credential_payload) ≡ s
        → r' ≡ register_credentials req.bot_id c r
    by_start bad_payload s = ground arith
    by_start no_app s = ground arith
    by_start (dial_fails e) s = ground arith
    by_start (running c') s = ground (arith, s)

-- whether a bot is started does not depend on the registry
start_again :
    (decode : List ℕ → Option Credentials) (dial : Credentials → Option String) (told : Bool)
    (req : StartRuntimeRequest) (r r' : Registry) (c : Credentials)
    → (start_feishu_runtime decode dial told req r).0 ≡ running c
    → start_feishu_runtime decode dial told req r' ≡ (
      running c,
      (
        (start_feishu_runtime decode dial told req r').1.0,
        (start_feishu_runtime decode dial told req r').1.1,
      ),
    )
unfolding start_feishu_runtime
start_again decode dial told req r r' c h =
    by_start (start_with decode dial (decode req.credential_payload)) refl
  where
    by_start :
        (s : FeishuStart)
        → start_with decode dial (decode req.credential_payload) ≡ s
        → start_feishu_runtime decode dial told req r' ≡ (
          running c,
          (
            (start_feishu_runtime decode dial told req r').1.0,
            (start_feishu_runtime decode dial told req r').1.1,
          ),
        )
    by_start bad_payload s = ground arith
    by_start no_app s = ground arith
    by_start (dial_fails e) s = ground arith
    by_start (running c') s = ground (arith, s)

module _ {W : Type 0} (api : Lark W) (clients : GoMap LarkClient) (w : W) where
  -- a reply that says something to the target of a message, by the credentials of the bot
  reply_by_lookup :
      (req : StartRuntimeRequest) (m : FeishuMessage) (r : Registry) (resp : Response)
      → trim_space req.bot_id ≡ req.bot_id
      → req.bot_id ≢ ""
      → is_blank resp.text ≡ false
      → feishu_reply api r (target req m) resp clients w
        ≡ reply_by api r
            (lookup_credentials r req.bot_id)
            (answer_params m (trim_space resp.text))
            clients
            w
  unfolding feishu_reply is_blank
  reply_by_lookup req m r resp same full said =
      let (b, c, t, i, s) = target_lem req m in
      rw (b, same, said, not_empty req.bot_id full, reply_params_lem req m (trim_space resp.text))
        refl

module _ {W : Type 0} (api : Lark W) where
  -- After `StartRuntime` has succeeded for a bot with an id that trimming keeps: a reply that says
  -- something to a message that the runtime hands on, from a chat with an id, is sent with the
  -- credentials of the bot to that chat, its text trimmed; in a group it answers the message and
  -- mentions the sender, if they have an id.
  pub feishu_answered :
      (decode : List ℕ → Option Credentials) (dial : Credentials → Option String) (told : Bool)
      (req : StartRuntimeRequest) (r r' : Registry) (c : Credentials) (states : List FeishuState)
      (m : FeishuMessage) (ev : RuntimeEvent) (resp : Response) (clients : GoMap LarkClient) (w : W)
      → start_feishu_runtime decode dial told req r ≡ (running c, (states, r'))
      → on_feishu_message true req c m ≡ some ev
      → trim_space req.bot_id ≡ req.bot_id
      → req.bot_id ≢ ""
      → m.chat_id ≢ ""
      → is_blank resp.text ≡ false
      → let p = answer_params m (trim_space resp.text) in
        let (err, after) = send_text api c p clients w in
        feishu_reply api r' (target_of (message_of ev)) resp clients w ≡ (sends c p err, after)
  unfolding lookup_credentials register_credentials reply_by
  feishu_answered decode dial told req r r' c states m ev resp clients w h e same full chat said =
      let there : lookup_credentials r' req.bot_id ≡ some c =
        ap (λ x. lookup_credentials x req.bot_id)
          (start_registers decode dial told req r r' c states h)
        ∙ ground (arith, get-put r.creds req.bot_id req.bot_id c, eq_refl req.bot_id) in
      ap (λ t. feishu_reply api r' t resp clients w) (target_of_event req c m e chat)
      ∙ reply_by_lookup api clients w req m r' resp same full said
      ∙ ap (λ f. reply_by api r' f (answer_params m (trim_space resp.text)) clients w) there

  -- A runtime of a bot ends, and the bot is started again with success: a reply that says something to
  -- a message that the new runtime hands on, from a chat with an id and for a bot with an id that
  -- trimming keeps, is sent with the credentials of the bot where it was started after the end of the
  -- goroutine; but where it was started in between, once the end had been told and before the bot was
  -- unregistered, the reply is refused, since the bot is not active, and nothing is sent.
  pub restart_unanswered :
      (decode : List ℕ → Option Credentials) (dial : Credentials → Option String) (told : Bool)
      (req : StartRuntimeRequest) (r : Registry) (c : Credentials) (m : FeishuMessage)
      (ev : RuntimeEvent) (resp : Response) (clients : GoMap LarkClient) (w : W)
      (ctx_err start_err : Option String)
      → (start_feishu_runtime decode dial told req r).0 ≡ running c
      → on_feishu_message true req c m ≡ some ev
      → trim_space req.bot_id ≡ req.bot_id
      → req.bot_id ≢ ""
      → m.chat_id ≢ ""
      → is_blank resp.text ≡ false
      → let start : Registry → Registry = λ x. (start_feishu_runtime decode dial told req x).1.1 in
        let after = start (runtime_ends told ctx_err start_err req.bot_id (λ x. x) r).1 in
        let within = (runtime_ends told ctx_err start_err req.bot_id start r).1 in
        let p = answer_params m (trim_space resp.text) in
        let (err, rest) = send_text api c p clients w in
        (feishu_reply api after (target_of (message_of ev)) resp clients w ≡ (sends c p err, rest))
        × (feishu_reply api within (target_of (message_of ev)) resp clients w
            ≡ (not_active, (clients, w)))
  unfolding lookup_credentials unregister_credentials reply_by runtime_ends
  restart_unanswered decode dial told req r c m ev resp clients w ctx_err start_err h e same full
        chat said =
      let gone = unregister_credentials req.bot_id r in
      let within =
        unregister_credentials req.bot_id (start_feishu_runtime decode dial told req r).1.1 in
      let missing : lookup_credentials within req.bot_id ≡ none = ground (
        arith,
        get-delete (start_feishu_runtime decode dial told req r).1.1.creds req.bot_id req.bot_id,
        eq_refl req.bot_id,
      ) in
      (
        feishu_answered decode dial told req gone
            (start_feishu_runtime decode dial told req gone).1.1 c
            (start_feishu_runtime decode dial told req gone).1.0 m ev resp clients w
            (start_again decode dial told req r gone c h) e same full chat said,
        ap (λ t. feishu_reply api within t resp clients w) (target_of_event req c m e chat)
            ∙ reply_by_lookup api clients w req m within resp same full said
            ∙ ap (λ f. reply_by api within f (answer_params m (trim_space resp.text)) clients w)
                missing,
      )

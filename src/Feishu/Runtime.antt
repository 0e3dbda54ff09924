-- ===== src/Feishu/Runtime.antt =====
-- internal/channel/feishu/types.go, registry.go and runtime.go: the credentials of the bots that run, the
-- runtime of a bot, and the messages that it hands on. JSON and the dialer are parameters.
use channel_plugin.Prelude.{
  ℕ, String, Bool, true, false, ◌||◌, Option, none, some, List, [], ◌∷◌, ◌==◌, if◌then◌else◌,
}
use channel_plugin.GoMap
use channel_plugin.GoMap.{GoMap}
use channel_plugin.Bot.Messages.{RuntimeEvent}
use channel_plugin.Channel.{StartRuntimeRequest}

pub record Credentials : Type 0 where
  pub app_id : String
  pub app_secret : String
  pub bot_open_id : String

-- `InboundMessage` of this package
pub record FeishuMessage : Type 0 where
  pub message_id : String
  pub chat_id : String
  pub chat_type : String
  pub sender_open_id : String
  pub text : String
  pub mentioned_open_ids : List String

pub record Registry : Type 0 where
  pub creds : GoMap Credentials

unfoldable pub register_credentials : String → Credentials → Registry → Registry
register_credentials bot_id c r = record r { creds = GoMap.put r.creds bot_id c }

unfoldable pub unregister_credentials : String → Registry → Registry
unregister_credentials bot_id r = record r { creds = GoMap.delete r.creds bot_id }

unfoldable pub lookup_credentials : Registry → String → Option Credentials
lookup_credentials r bot_id = GoMap.get r.creds bot_id

unfoldable pub mentioned : String → List String → Bool
mentioned id [] = false
mentioned id (x ∷ xs) = let rest = mentioned id xs in x == id || rest

unfoldable pub should_handle : FeishuMessage → String → Bool
should_handle m bot_open_id =
    if m.text == ""
    then false
    else if m.chat_type == "p2p"
    then true
    else if bot_open_id == ""
    then false
    else mentioned bot_open_id m.mentioned_open_ids

unfoldable pub feishu_metadata : String → FeishuMessage → GoMap String
feishu_metadata bot_id m =
    GoMap.put
      (GoMap.put
        (GoMap.put (GoMap.put (GoMap.put GoMap.empty "bot_id" bot_id) "chat_id" m.chat_id)
          "chat_type" m.chat_type)
        "message_id" m.message_id)
      "sender_open_id" m.sender_open_id

unfoldable pub feishu_event : StartRuntimeRequest → FeishuMessage → RuntimeEvent
feishu_event req m = record {
  bot_id = req.bot_id;
  channel_type = req.channel_type;
  message_id = m.message_id;
  from = m.sender_open_id;
  text = m.text;
  reply_target = record {
    channel_type = req.channel_type;
    recipient_id = m.chat_id;
    metadata = feishu_metadata req.bot_id m;
  };
}

-- The event that a message is handed on as, by `onMessage`; `OnEvent` may be nil.
unfoldable pub on_feishu_message :
    (has_on_event : Bool) → StartRuntimeRequest → Credentials → FeishuMessage → Option RuntimeEvent
on_feishu_message has_on_event req c m =
    if should_handle m c.bot_open_id
    then (if has_on_event then some (feishu_event req m) else none)
    else none

-- What `StartRuntime` comes to: an error, or the credentials that its connection has.
pub data FeishuStart : Type 0 where
  bad_payload no_app : FeishuStart
  dial_fails : String → FeishuStart
  running : Credentials → FeishuStart

-- `RuntimeState`, as far as this runtime tells one
pub data FeishuState : Type 0 where
  now_connected : FeishuState
  now_stopped : (reason : String) → FeishuState
  now_failed : (err : Option String) → FeishuState

unfoldable pub tell : (has_on_state : Bool) → FeishuState → List FeishuState
tell true s = s ∷ []
tell false s = []

module _ (decode : List ℕ → Option Credentials) (dial : Credentials → Option String) where
  -- what is started, by the decoded credentials; `dial` answers with its error
  unfoldable pub start_with : Option Credentials → FeishuStart
  start_with none = bad_payload
  start_with (some c) =
      if c.app_id == "" || c.app_secret == ""
      then no_app
      else elim (dial c) [ some e ↦ dial_fails e | none ↦ running c ]

  -- `StartRuntime` up to its goroutine: what it returns, what `OnState` is told, and the registry.
  unfoldable pub start_feishu_runtime :
      (has_on_state : Bool)
      → StartRuntimeRequest
      → Registry
      → FeishuStart × (List FeishuState × Registry)
  start_feishu_runtime has_on_state req r = elim (start_with (decode req.credential_payload)) [
    | bad_payload ↦ (bad_payload, ([], r))
    | no_app ↦ (no_app, ([], r))
    | dial_fails e ↦ (dial_fails e, ([], r))
    | running c ↦
        (running c, (tell has_on_state now_connected, register_credentials req.bot_id c r))
  ]

-- what the goroutine tells when its connection has ended, by the error of its context and that of
-- `Start`
unfoldable pub end_state : (ctx_err start_err : Option String) → FeishuState
end_state (some reason) start_err = now_stopped reason
end_state none start_err = now_failed start_err

-- The end of the goroutine: what it tells, and the registry. It unregisters the bot after it has told
-- its state, and `between` is what others do to the registry in between.
unfoldable pub runtime_ends :
    (has_on_state : Bool)
    → (ctx_err start_err : Option String) → String
    → (Registry → Registry)
    → Registry
    → List FeishuState × Registry
runtime_ends has_on_state ctx_err start_err bot_id between r =
    (tell has_on_state (end_state ctx_err start_err), unregister_credentials bot_id (between r))

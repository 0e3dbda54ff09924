-- ===== src/Examples/Feishu.antt =====
-- The runtime and the replies of Feishu on concrete messages.
use channel_plugin.Prelude.{
  ℕ, String, true, false, Option, none, some, List, [], ◌∷◌, ◌≡◌, ◌≢◌, refl, arith, ap, ◌==◌, ◌&&◌,
  if◌then◌else◌, eq_iff,
}
use channel_plugin.Prelude.Text.{trim_space, is_blank}
use channel_plugin.GoMap
use channel_plugin.GoMap.{GoMap, get-put}
use channel_plugin.Bot.Messages.{target_of, message_of}
use channel_plugin.Channel.{StartRuntimeRequest, RefreshBindingRequest, RefreshBindingResult}
use channel_plugin.Agent.Types.{Response}
use channel_plugin.Feishu.Runtime.{
  Credentials, FeishuMessage, Registry, register_credentials, feishu_event, on_feishu_message,
  should_handle, mentioned, running, now_connected, tell, start_with, start_feishu_runtime,
  runtime_ends,
}
use channel_plugin.Feishu.Api.{
  Lark, LarkClient, LarkRequest, reply_to, text_message, SendParams, accepted, not_active, sends,
  sender_mention, send_text, feishu_reply, send_by, send_as_text, send_lark, build_text_content,
  with_mentions, at_tags, request_of, error_of,
}
use channel_plugin.Feishu.Targets.{answer_params}
use channel_plugin.Feishu.Binding.{
  Validated, valid, confirmed, refresh_feishu_binding, with_app, confirmed_binding, config_value,
  StartsFor, bound_starts,
}
use channel_plugin.Feishu.Answers.{feishu_answered, restart_unanswered}
use channel_plugin.Feishu.Secrets.{first_secret_kept}

-- a service that notes the requests
abbrev noting : Lark (List (LarkClient × LarkRequest))
noting = record {
  encode_text = λ s. s;
  encode_card = λ s. s;
  is_rich_markdown = λ s. false;
  post = λ c r w. (accepted, (c, r) ∷ w);
}

abbrev app : Credentials
app = record { app_id = "app"; app_secret = "first"; bot_open_id = "bot" }

abbrev rotated : Credentials
rotated = record { app_id = "app"; app_secret = "second"; bot_open_id = "bot" }

abbrev request : StartRuntimeRequest
request = record {
  bot_id = "b";
  channel_type = "feishu";
  account_uid = "app";
  credential_payload = 1 ∷ [];
  credential_version = 1;
}

abbrev question : FeishuMessage
question = record {
  message_id = "m";
  chat_id = "c";
  chat_type = "group";
  sender_open_id = "ann";
  text = "hello";
  mentioned_open_ids = "bot" ∷ [];
}

abbrev answer : Response
answer = record { text = "hi"; session_id = ""; raw_output = ""; exit_code = 0; runtime_type = "" }

abbrev none_running : Registry
none_running = record { creds = GoMap.empty }

abbrev decoded : List ℕ → Option Credentials
decoded payload = some app

abbrev dials : Credentials → Option String
dials c = none

abbrev one_running : Registry
one_running = register_credentials "b" app none_running

started_example :
    start_feishu_runtime decoded dials true request none_running
    ≡ (running app, (now_connected ∷ [], one_running))
unfolding start_feishu_runtime start_with tell
started_example = refl

handed_on : on_feishu_message true request app question ≡ some (feishu_event request question)
unfolding on_feishu_message should_handle mentioned
handed_on = refl

says : is_blank "hi" ≡ false
unfolding is_blank trim_space
says = refl

trimmed : trim_space "b" ≡ "b"
unfolding trim_space
trimmed = refl

b_full : ◌≢◌ {A = String} "b" ""
b_full = ground (arith, eq_iff "b" "")

c_full : ◌≢◌ {A = String} "c" ""
c_full = ground (arith, eq_iff "c" "")

feishu_answered_example :
    let p = answer_params question (trim_space "hi") in
    let (err, after) = send_text noting app p GoMap.empty [] in
    feishu_reply noting one_running
      (target_of (message_of (feishu_event request question)))
      answer
      GoMap.empty
      []
    ≡ (sends app p err, after)
feishu_answered_example =
    feishu_answered noting decoded dials true request none_running one_running app
      (now_connected ∷ []) question (feishu_event request question) answer GoMap.empty []
      started_example handed_on trimmed b_full c_full says

restart_unanswered_example :
    let start : Registry → Registry =
      λ x. (start_feishu_runtime decoded dials true request x).1.1 in
    let after = start (runtime_ends true none (some "lost") "b" (λ x. x) none_running).1 in
    let within = (runtime_ends true none (some "lost") "b" start none_running).1 in
    let p = answer_params question (trim_space "hi") in
    let (err, rest) = send_text noting app p GoMap.empty [] in
    (feishu_reply noting after
        (target_of (message_of (feishu_event request question)))
        answer
        GoMap.empty
        []
      ≡ (sends app p err, rest))
    × (feishu_reply noting within
          (target_of (message_of (feishu_event request question)))
          answer
          GoMap.empty
          []
        ≡ (not_active, (GoMap.empty, [])))
restart_unanswered_example =
    restart_unanswered noting decoded dials true request none_running app question
      (feishu_event request question) answer GoMap.empty [] none (some "lost")
      (ap (λ x. x.0) started_example) handed_on trimmed b_full c_full says

abbrev greeting : SendParams
greeting = record { chat_id = "c"; text = "hi"; reply_message_id = ""; mentions = [] }

first_secret_kept_example :
    let (err, (clients, after)) = send_text noting app greeting GoMap.empty [] in
    send_text noting rotated greeting clients [] ≡ send_text noting app greeting clients []
first_secret_kept_example =
    first_secret_kept noting app rotated greeting greeting GoMap.empty [] [] refl

abbrev client : LarkClient
client = record { app_id = "app"; app_secret = "first" }

-- a reply in a group
answers_in_group :
    send_by noting client (answer_params question "hi") []
    ≡ (none, (client, reply_to "m" text_message "<at user_id=\"ann\"></at> hi") ∷ [])
unfolding send_by send_as_text send_lark build_text_content with_mentions at_tags request_of
    sender_mention trim_space error_of
answers_in_group = refl

-- an encoding of one app alone
abbrev encodes : Credentials → List ℕ
encodes c =
    if c.app_id == "app" && c.app_secret == "first" && c.bot_open_id == "bot" then 1 ∷ [] else []

abbrev validates : String → String → Validated
validates app_id app_secret = valid (record { app_name = "App"; bot_open_id = "bot" })

abbrev binding_request : RefreshBindingRequest
binding_request = record {
  provider_binding_ref = "";
  channel_type = "feishu";
  config = GoMap.put (GoMap.put GoMap.empty "app_id" "app") "app_secret" "first";
}

abbrev bound : RefreshBindingResult
bound = record {
  provider_status = "confirmed";
  qr_code_payload = "";
  expires_at = 0;
  account_uid = "app";
  display_name = "App";
  avatar_url = "";
  credential_payload = 1 ∷ [];
  credential_version = 1;
  error_message = "";
}

encodes_app : (c : Credentials) → encodes c ≡ 1 ∷ [] → decoded (1 ∷ []) ≡ some c
encodes_app c h =
    ground (arith, eq_iff c.app_id "app", eq_iff c.app_secret "first", eq_iff c.bot_open_id "bot")

app_secret_lem : config_value binding_request.config "app_secret" ≡ "first"
unfolding config_value
app_secret_lem =
    let m : GoMap String = GoMap.put GoMap.empty "app_id" "app" in
    rw (get-put m "app_secret" "app_secret" "first", config_value) refl

app_id_lem : config_value binding_request.config "app_id" ≡ "app"
unfolding config_value
app_id_lem =
    let m : GoMap String = GoMap.put GoMap.empty "app_id" "app" in
    rw
      (
        get-put m "app_secret" "app_id" "first",
        get-put {V = String} GoMap.empty "app_id" "app_id" "app",
        config_value,
      )
      refl

refreshed : refresh_feishu_binding encodes validates binding_request ≡ confirmed bound
unfolding refresh_feishu_binding with_app confirmed_binding trim_space
refreshed = rw (app_id_lem, app_secret_lem) refl

bound_starts_example :
    StartsFor "app" (start_feishu_runtime decoded dials true request none_running).0
bound_starts_example =
    bound_starts encodes decoded validates dials true binding_request bound request none_running
      encodes_app refreshed refl

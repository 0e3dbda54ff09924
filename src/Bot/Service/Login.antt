-- ===== src/Bot/Service/Login.antt =====
-- internal/app/bot/service.go: what the login flow works with, and the rows that it writes.
use channel_plugin.Prelude.{
  ℕ, String, Bool, List, Option, none, some, ◌==◌, ◌||◌, if◌then◌else◌, nat_eq,
}
use channel_plugin.Channel.{
  CreateBindingRequest, CreateBindingResult, RefreshBindingRequest, RefreshBindingResult,
}
use channel_plugin.Domain.{
  Bot, ChannelBinding, ChannelAccount, binding_pending, binding_qr_ready, status_connecting,
  status_error,
}
use channel_plugin.Bot.Service.World.{Action, Failure, Result, ok, err}

-- The collaborators; an error is its text. `start` is `Start` of the connection manager with all that
-- other goroutines do before it returns, the callbacks of the runtime among them; `runtimes` is
-- `none` where the service has no manager.
pub record Collaborators : Type 0 where
  pub creates : CreateBindingRequest → Result CreateBindingResult
  pub refreshes : RefreshBindingRequest → Result RefreshBindingResult
  pub encrypt : List ℕ → Result (List ℕ)
  pub runtimes : Option (String → Action (Unit {0}))
  -- `Error()`
  pub error_text : Failure → String

pub record RefreshBotLoginOutput : Type 0 where
  pub bot_id : String
  pub binding_id : String
  pub status : String
  pub qr_code_payload : String
  pub qr_share_url : String
  pub expires_at : Option ℕ
  pub channel_account_id : String
  pub connection_status : String

pub record StartBotLoginOutput : Type 0 where
  pub bot_id : String
  pub binding_id : String
  pub status : String
  pub qr_code_payload : String
  pub qr_share_url : String
  pub expires_at : Option ℕ
  pub connection_status : String
  pub channel_account_id : String

-- The binding after the provider's answer; the zero time is 0.
unfoldable pub answered_binding : RefreshBindingResult → ChannelBinding → ChannelBinding
answered_binding result binding = record binding {
  status = result.provider_status;
  qr_code_payload = result.qr_code_payload;
  expires_at = if nat_eq result.expires_at 0 then binding.expires_at else some result.expires_at;
  error_message = result.error_message;
}

unfoldable pub bound_bot : String → Bot → Bot
bound_bot account_id bot = record bot {
  channel_account_id = account_id;
  connection_status = status_connecting;
  connection_error = "";
}

unfoldable pub bound_binding : String → ℕ → ChannelBinding → ChannelBinding
bound_binding account_id now binding = record binding {
  channel_account_id = account_id;
  finished_at = some now;
}

-- the row of a bot whose login failed or expired
unfoldable pub failed_bot : RefreshBindingResult → Bot → Bot
failed_bot result bot = record bot {
  connection_status = status_error;
  connection_error =
      if result.error_message == "" then result.provider_status else result.error_message;
}

-- `completedLogin` of a confirmed login, as `StartLogin` passes it on
unfoldable pub completed : Bot → ChannelBinding → StartBotLoginOutput
completed bot binding = record {
  bot_id = bot.id;
  binding_id = binding.id;
  status = binding.status;
  qr_code_payload = "";
  qr_share_url = "";
  expires_at = none;
  connection_status = bot.connection_status;
  channel_account_id = bot.channel_account_id;
}

-- the binding that `Update` answers, or the empty one with which it fails
unfoldable pub unconfirmed : Bot → Result ChannelBinding → Result StartBotLoginOutput
unconfirmed bot (ok binding) = ok (record {
  bot_id = bot.id;
  binding_id = binding.id;
  status = binding.status;
  qr_code_payload = "";
  qr_share_url = "";
  expires_at = none;
  connection_status = "";
  channel_account_id = "";
})
unconfirmed bot (err e) = ok (record {
  bot_id = bot.id;
  binding_id = "";
  status = "";
  qr_code_payload = "";
  qr_share_url = "";
  expires_at = none;
  connection_status = "";
  channel_account_id = "";
})

unfoldable pub pending_binding : String → Bot → ChannelBinding
pending_binding id bot = record {
  id = id;
  bot_id = bot.id;
  user_id = bot.user_id;
  channel_type = bot.channel_type;
  status = binding_pending;
  provider_binding_ref = "";
  qr_code_payload = "";
  expires_at = none;
  error_message = "";
  channel_account_id = "";
  finished_at = none;
}

unfoldable pub ready_binding : CreateBindingResult → ChannelBinding → ChannelBinding
ready_binding result binding = record binding {
  status = binding_qr_ready;
  provider_binding_ref = result.provider_binding_ref;
  qr_code_payload = result.qr_code_payload;
  expires_at = some result.expires_at;
}

unfoldable pub awaiting : Bot → CreateBindingResult → ChannelBinding → StartBotLoginOutput
awaiting bot result binding = record {
  bot_id = bot.id;
  binding_id = binding.id;
  status = binding.status;
  qr_code_payload = binding.qr_code_payload;
  qr_share_url = result.qr_share_url;
  expires_at = binding.expires_at;
  connection_status = "";
  channel_account_id = "";
}

-- `isAutoConfirmChannel`
unfoldable pub auto_confirm : String → Bool
auto_confirm channel_type = channel_type == "http" || channel_type == "feishu"

abbrev pub account_of : RefreshBindingResult → Bot → List ℕ → String → ℕ → ChannelAccount
account_of result bot ciphertext id now = record {
  id = id;
  user_id = bot.user_id;
  channel_type = bot.channel_type;
  account_uid = result.account_uid;
  display_name = result.display_name;
  avatar_url = result.avatar_url;
  credential_ciphertext = ciphertext;
  credential_version = result.credential_version;
  last_bound_at = some now;
}

abbrev pub of_result : {A : Type 0} → Result A → Action A
of_result r w = (r, w)

-- ===== src/Domain.antt =====
-- internal/domain: the entities, statuses and errors that the other parts share. Times of creation
-- and change are left out: nothing that is modelled reads them.
use channel_plugin.Prelude.{ℕ, String, Bool, Option, List}

pub record Bot : Type 0 where
  pub id : String
  pub user_id : String
  pub name : String
  pub type : String
  pub channel_type : String
  pub channel_account_id : String
  pub connection_status : String
  pub connection_error : String
  pub agent_capability_id : String
  pub agent_mode : String
  pub role : String
  pub cli_alias : String
  pub workspace : String
  pub system_prompt : String
  -- in key order; a nil map is empty
  pub agent_env : List (String × String)

-- Moments are nanoseconds, and a nil pointer to one is `none`.
pub record ChannelAccount : Type 0 where
  pub id : String
  pub user_id : String
  pub channel_type : String
  pub account_uid : String
  pub display_name : String
  pub avatar_url : String
  pub credential_ciphertext : List ℕ
  pub credential_version : ℕ
  pub last_bound_at : Option ℕ

pub record ChannelBinding : Type 0 where
  pub id : String
  pub bot_id : String
  pub user_id : String
  pub channel_type : String
  pub status : String
  pub provider_binding_ref : String
  pub qr_code_payload : String
  pub expires_at : Option ℕ
  pub error_message : String
  pub channel_account_id : String
  pub finished_at : Option ℕ

pub record McpServer : Type 0 where
  pub id : String
  pub name : String
  pub server_type : String
  pub url : String
  pub command : String
  pub args : List String
  pub enabled : Bool

pub record AgentCapability : Type 0 where
  pub key : String
  pub command : String
  pub args : List String
  pub supported_modes : List String
  pub available : Bool

-- `LastHeartbeat` is a time in nanoseconds, or nil.
pub record RegisteredAgent : Type 0 where
  pub id : String
  pub name : String
  pub description : String
  pub kind : String
  pub bot_id : String
  pub endpoint : String
  pub auth_token : String
  pub health : String
  pub last_heartbeat : Option ℕ

-- The errors of the repositories, as far as the program asks (`errors.Is(err, ErrNotFound)`).
pub data StoreError : Type 0 where
  not_found : StoreError
  failure : String → StoreError

-- What a repository's call returns.
pub data Fetched {ℓ} (A : Type ℓ) : Type ℓ where
  got : A → Fetched A
  missed : StoreError → Fetched A

abbrev pub binding_pending : String
binding_pending = "pending"

abbrev pub binding_qr_ready : String
binding_qr_ready = "qr_ready"

abbrev pub binding_confirmed : String
binding_confirmed = "confirmed"

abbrev pub binding_failed : String
binding_failed = "failed"

abbrev pub binding_expired : String
binding_expired = "expired"

abbrev pub status_connecting : String
status_connecting = "connecting"

abbrev pub type_channel : String
type_channel = "channel"

abbrev pub type_hook : String
type_hook = "hook"

abbrev pub status_login_required : String
status_login_required = "login_required"

abbrev pub status_connected : String
status_connected = "connected"

abbrev pub status_error : String
status_error = "error"

abbrev pub type_subagent : String
type_subagent = "subagent"

abbrev pub role_orchestrator : String
role_orchestrator = "orchestrator"

abbrev pub kind_local : String
kind_local = "local"

abbrev pub kind_remote : String
kind_remote = "remote"

abbrev pub healthy : String
healthy = "healthy"

abbrev pub unhealthy : String
unhealthy = "unhealthy"

-- ===== src/Feishu/Binding.antt =====
-- internal/channel/feishu/provider.go: the binding of an app. `ValidateApp` of the API and JSON are
-- parameters.
use channel_plugin.Prelude.{
  ℕ, String, Bool, false, ◌||◌, Option, none, some, List, [], ◌==◌, arith, ◌≡◌, refl, sym, ap, ◌∙◌,
  ◌⊎◌, inl, inr, if◌then◌else◌, Bool-cases, Option-cases,
}
use channel_plugin.Prelude.Text.{trim_space}
use channel_plugin.GoMap
use channel_plugin.GoMap.{GoMap}
use channel_plugin.Channel.{RefreshBindingRequest, RefreshBindingResult, StartRuntimeRequest}
use channel_plugin.Feishu.Runtime.{
  Credentials, Registry, FeishuStart, running, dial_fails, start_with, start_feishu_runtime,
  bad_payload, no_app, FeishuState, tell, now_connected, register_credentials,
}

pub record AppInfo : Type 0 where
  pub app_name : String
  pub bot_open_id : String

pub data Validated : Type 0 where
  valid : AppInfo → Validated
  invalid : String → Validated

-- What `RefreshBinding` answers.
pub data FeishuBinding : Type 0 where
  app_required : FeishuBinding
  invalid_app : String → FeishuBinding
  confirmed : RefreshBindingResult → FeishuBinding

-- `req.Config[key]`: a missing key reads as "".
unfoldable pub config_value : GoMap String → String → String
config_value config key = elim (GoMap.get config key) [ none ↦ "" | some v ↦ v ]

module _ (encode : Credentials → List ℕ) (validate : String → String → Validated) where
  unfoldable pub confirmed_binding : (app_id app_secret : String) → AppInfo → RefreshBindingResult
  confirmed_binding app_id app_secret info = record {
    provider_status = "confirmed";
    qr_code_payload = "";
    expires_at = 0;
    account_uid = app_id;
    display_name = info.app_name;
    avatar_url = "";
    credential_payload =
        encode
          (record { app_id = app_id; app_secret = app_secret; bot_open_id = info.bot_open_id });
    credential_version = 1;
    error_message = "";
  }

  unfoldable pub with_app : (app_id app_secret : String) → FeishuBinding
  with_app app_id app_secret = elim (validate app_id app_secret) [
    | invalid e ↦ invalid_app e
    | valid info ↦ confirmed (confirmed_binding app_id app_secret info)
  ]

  -- `RefreshBinding`
  unfoldable pub refresh_feishu_binding : RefreshBindingRequest → FeishuBinding
  refresh_feishu_binding req =
      let app_id = trim_space (config_value req.config "app_id") in
      let app_secret = trim_space (config_value req.config "app_secret") in
      if app_id == "" || app_secret == "" then app_required else with_app app_id app_secret

-- What a runtime may come to that is started with the credentials of an app: an error of the dialer, or
-- a connection of the app.
abbrev pub StartsFor : String → FeishuStart → Type 0
StartsFor app_id started =
    ((e : String) × (started ≡ dial_fails e))
    ⊎ ((c : Credentials) × (started ≡ running c) × (c.app_id ≡ app_id))

module _ (decode : List ℕ → Option Credentials) (dial : Credentials → Option String) where
  start_with_full :
      (c : Credentials)
      → (c.app_id == "" || c.app_secret == "") ≡ false
      → StartsFor c.app_id (start_with decode dial (some c))
  unfolding start_with
  start_with_full c full = elim (Option-cases (dial c)) [
    | inl n ↦ rw (full, n) (inr (c, refl, refl))
    | inr (e, d) ↦ rw (full, d) (inl (e, refl))
  ]

  start_result :
      (told : Bool) (req : StartRuntimeRequest) (r : Registry)
      → (start_feishu_runtime decode dial told req r).0
        ≡ start_with decode dial (decode req.credential_payload)
  unfolding start_feishu_runtime
  start_result told req r = by_start (start_with decode dial (decode req.credential_payload))
    where
      by_start :
          (s : FeishuStart)
          → (elim s as (λ x. FeishuStart × (List FeishuState × Registry)) [
            | bad_payload ↦ (bad_payload, ([], r))
            | no_app ↦ (no_app, ([], r))
            | dial_fails e ↦ (dial_fails e, ([], r))
            | running c ↦
                (running c, (tell told now_connected, register_credentials req.bot_id c r))
          ]).0
            ≡ s
      by_start bad_payload = refl
      by_start no_app = refl
      by_start (dial_fails e) = refl
      by_start (running c) = refl

module _ (encode : Credentials → List ℕ) (validate : String → String → Validated) where
  with_app_confirms :
      (app_id app_secret : String) (result : RefreshBindingResult)
      → with_app encode validate app_id app_secret ≡ confirmed result
      → (info : AppInfo) × (result ≡ confirmed_binding encode validate app_id app_secret info)
  unfolding with_app
  with_app_confirms app_id app_secret result h = by_app (validate app_id app_secret) refl
    where
      by_app :
          (v : Validated)
          → validate app_id app_secret ≡ v
          → (info : AppInfo) × (result ≡ confirmed_binding encode validate app_id app_secret info)
      by_app (invalid e) v = ground (arith, v)
      by_app (valid info) v = (info, ground (arith, v))

-- the app of a binding that is confirmed, whose id and secret are not empty
refresh_confirms :
    (encode : Credentials → List ℕ) (validate : String → String → Validated)
    (req : RefreshBindingRequest) (result : RefreshBindingResult)
    → refresh_feishu_binding encode validate req ≡ confirmed result
    → (c : Credentials) × (result.credential_payload ≡ encode c)
      × (c.app_id ≡ result.account_uid)
      × ((c.app_id == "" || c.app_secret == "") ≡ false)
unfolding refresh_feishu_binding confirmed_binding
refresh_confirms encode validate req result h =
    let app_id = trim_space (config_value req.config "app_id") in
    let app_secret = trim_space (config_value req.config "app_secret") in
    elim (Bool-cases (app_id == "" || app_secret == "")) [
      | inl e ↦ ground (arith, e)
      | inr e ↦
          let bound : with_app encode validate app_id app_secret ≡ confirmed result =
            ground (arith, e) in
          let (info, same) = with_app_confirms encode validate app_id app_secret result bound in
          let c : Credentials = record {
            app_id = app_id;
            app_secret = app_secret;
            bot_open_id = info.bot_open_id;
          } in
          (c, ap (λ x. x.credential_payload) same, sym (ap (λ x. x.account_uid) same), e)
    ]

-- Where JSON reads the credentials of a binding that `RefreshBinding` confirmed as those that it has
-- written: a runtime that is started with them fails at most at the dialer; else it runs, for the app
-- that is the binding's account.
pub bound_starts :
    (encode : Credentials → List ℕ) (decode : List ℕ → Option Credentials)
    (validate : String → String → Validated) (dial : Credentials → Option String) (told : Bool)
    (req : RefreshBindingRequest) (result : RefreshBindingResult) (start : StartRuntimeRequest)
    (r : Registry)
    → ((c : Credentials)
        → encode c ≡ result.credential_payload
        → decode result.credential_payload ≡ some c)
    → refresh_feishu_binding encode validate req ≡ confirmed result
    → start.credential_payload ≡ result.credential_payload
    → StartsFor result.account_uid (start_feishu_runtime decode dial told start r).0
bound_starts encode decode validate dial told req result start r reads h same =
    let (c, payload, app, full) = refresh_confirms encode validate req result h in
    let credentials : decode start.credential_payload ≡ some c =
      ap decode same ∙ reads c (sym payload) in
    rw (start_result decode dial told start r, credentials, sym app)
      (start_with_full decode dial c full)

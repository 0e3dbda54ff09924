-- ===== src/Wechat/Login.antt =====
-- The answers about a login. A result that holds another one in its `data` is the list of the levels,
-- the outer one first. A time that is zero is `none`.
use channel_plugin.Prelude.{
  ℕ, ◌+◌, String, Option, none, some, List, [], ◌∷◌, ◌==◌, arith, ◌≡◌, not, ◌&&◌, if◌then◌else◌,
  nat_eq,
}
use channel_plugin.Channel.{CreateBindingResult, RefreshBindingResult}

-- the fields of `CreateSessionResult` but for `data`
pub record CreateSessionResult : Type 0 where
  pub qr_code : String
  pub qr_code_url : String
  pub qr_code_img_content : String
  pub qr_base64 : String
  pub ticket : String
  pub url : String
  pub expires_at : Option ℕ

abbrev pub or_text : String → String → String
or_text a b = if a == "" then b else a

abbrev pub or_time : Option ℕ → Option ℕ → Option ℕ
or_time none b = b
or_time (some t) b = some t

-- the last `if` of `normalized`
unfoldable pub with_base64 : CreateSessionResult → CreateSessionResult
with_base64 r =
    if not (r.qr_base64 == "") && r.qr_code_url == ""
    then record r { qr_code_url = r.qr_base64 }
    else r

unfoldable pub filled : CreateSessionResult → CreateSessionResult → CreateSessionResult
filled r inner = record {
  qr_code = or_text r.qr_code inner.qr_code;
  qr_code_url = or_text r.qr_code_url inner.qr_code_url;
  qr_code_img_content = or_text r.qr_code_img_content inner.qr_code_img_content;
  qr_base64 = or_text r.qr_base64 inner.qr_base64;
  ticket = or_text r.ticket inner.ticket;
  url = or_text r.url inner.url;
  expires_at = or_time r.expires_at inner.expires_at;
}

-- `normalized` of a result and the levels within
unfoldable pub normalized : CreateSessionResult → List CreateSessionResult → CreateSessionResult
normalized r [] = with_base64 r
normalized r (inner ∷ rest) = with_base64 (filled r (normalized inner rest))

unfoldable pub provider_ref : CreateSessionResult → String
provider_ref r = if not (r.qr_code == "") then r.qr_code else r.ticket

unfoldable pub create_qr_payload : CreateSessionResult → String
create_qr_payload r =
    if not (r.qr_code == "")
    then r.qr_code
    else if not (r.ticket == "")
    then r.ticket
    else if not (r.qr_code_url == "")
    then r.qr_code_url
    else if not (r.url == "")
    then r.url
    else r.qr_code_img_content

unfoldable pub qr_share_url : CreateSessionResult → String
qr_share_url r =
    if not (r.qr_code_img_content == "")
    then r.qr_code_img_content
    else if not (r.qr_code_url == "")
    then r.qr_code_url
    else r.url

-- five minutes in nanoseconds
abbrev pub login_time : ℕ
login_time = 300000000000

unfoldable pub normalized_expiry : ℕ → Option ℕ → ℕ
normalized_expiry now none = now + login_time
normalized_expiry now (some t) = t

-- `createBindingQRCodePayload`; `render` draws a code, and `none` is its error.
unfoldable pub create_binding_qr_code_payload :
    (String → Option String) → CreateSessionResult → Option String
create_binding_qr_code_payload render r =
    if not (r.qr_code_img_content == "")
    then render r.qr_code_img_content
    else if not (r.qr_code_url == "")
    then some r.qr_code_url
    else if not (r.url == "")
    then some r.url
    else some (create_qr_payload r)

-- `CreateBinding`: `create` is the call of the service, with its answer decoded; `none` is an error.
unfoldable pub create_wechat_binding :
    (String → Option (CreateSessionResult × List CreateSessionResult))
    → (String → Option String)
    → ℕ
    → String
    → Option CreateBindingResult
create_wechat_binding create render now binding_id = elim (create binding_id) [
  | none ↦ none
  | some (outer, inner) ↦
      let r = normalized outer inner in
      elim (create_binding_qr_code_payload render r) [
        | none ↦ none
        | some payload ↦ some (record {
          provider_binding_ref = provider_ref r;
          qr_code_payload = payload;
          qr_share_url = qr_share_url r;
          expires_at = normalized_expiry now r.expires_at;
        })
      ]
]

pub record GetSessionResult : Type 0 where
  pub status : String
  pub qr_code : String
  pub qr_code_url : String
  pub expires_at : Option ℕ
  pub open_id : String
  pub nickname : String
  pub avatar_url : String
  pub base_url : String
  pub bot_token : String
  pub ilink_bot_id : String
  pub ilink_user_id : String
  pub credential_payload : List ℕ
  pub credential_version : ℕ
  pub error_message : String

unfoldable pub session_qr_payload : GetSessionResult → String
session_qr_payload r = or_text r.qr_code_url r.qr_code

unfoldable pub account_uid : GetSessionResult → String
account_uid r = or_text r.ilink_user_id r.open_id

unfoldable pub normalized_status : GetSessionResult → String
normalized_status r =
    if r.status == "wait" then "qr_ready" else if r.status == "scaned" then "qr_ready" else r.status

-- `marshal` writes the fields of a result that has no payload as JSON.
unfoldable pub normalized_credential_payload :
    (GetSessionResult → List ℕ) → GetSessionResult → List ℕ
normalized_credential_payload marshal r = elim r.credential_payload [
  | [] ↦ marshal r
  | b ∷ bs ↦ b ∷ bs
]

unfoldable pub normalized_credential_version : GetSessionResult → ℕ
normalized_credential_version r = if nat_eq r.credential_version 0 then 1 else r.credential_version

-- `RefreshBinding`
unfoldable pub refresh_wechat_binding :
    (String → Option GetSessionResult)
    → (GetSessionResult → List ℕ)
    → ℕ
    → String
    → Option RefreshBindingResult
refresh_wechat_binding get marshal now provider_binding_ref = elim (get provider_binding_ref) [
  | none ↦ none
  | some r ↦ some (record {
    provider_status = normalized_status r;
    qr_code_payload = session_qr_payload r;
    expires_at = normalized_expiry now r.expires_at;
    account_uid = account_uid r;
    display_name = r.nickname;
    avatar_url = r.avatar_url;
    credential_payload = normalized_credential_payload marshal r;
    credential_version = normalized_credential_version r;
    error_message = r.error_message;
  })
]

-- The first text of the levels that is not empty.
abbrev pub first_level :
    (CreateSessionResult → String) → CreateSessionResult → List CreateSessionResult → String
first_level f r [] = f r
first_level f r (inner ∷ rest) = or_text (f r) (first_level f inner rest)

-- The code and the ticket of a login are those of the first level that has one, at any depth.
pub normalized_first :
    (r : CreateSessionResult) (rest : List CreateSessionResult)
    → ((normalized r rest).qr_code ≡ first_level (λ x. x.qr_code) r rest)
      × ((normalized r rest).ticket ≡ first_level (λ x. x.ticket) r rest)
unfolding normalized with_base64 filled
normalized_first r [] = ground arith
normalized_first r (inner ∷ rest) = ground (arith, normalized_first inner rest)

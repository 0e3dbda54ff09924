-- ===== src/Wechat/Targets.antt =====
-- What the targets of replies hold.
use channel_plugin.Prelude.{String, true, ◌==◌, ◌≡◌, refl, ◌∙◌, Bool-cases, inl, inr}
use channel_plugin.Prelude.Text.{trim_space, is_blank}
use channel_plugin.GoMap
use channel_plugin.GoMap.{GoMap, get-put, get-empty}
use channel_plugin.Bot.Messages.{InboundMessage, metadata_value, target_of}
use channel_plugin.Bot.Metadata.{value, value-put, value-empty}

-- the four entries that every target of WeChat has
abbrev pub entries : (uid url token uin : String) → GoMap String
entries uid url token uin =
    GoMap.put
      (GoMap.put (GoMap.put (GoMap.put GoMap.empty "account_uid" uid) "base_url" url) "token" token)
      "wechat_uin" uin

module _ (uid url token uin : String) where
  abbrev with_uid : GoMap String
  with_uid = GoMap.put GoMap.empty "account_uid" uid

  abbrev with_url : GoMap String
  with_url = GoMap.put with_uid "base_url" url

  abbrev with_token : GoMap String
  with_token = GoMap.put with_url "token" token

  pub entries_lem :
      (value (entries uid url token uin) "base_url" ≡ url)
      × (value (entries uid url token uin) "token" ≡ token)
      × (value (entries uid url token uin) "wechat_uin" ≡ uin)
      × (value (entries uid url token uin) "context_token" ≡ "")
  entries_lem = (
    value-put with_token "wechat_uin" "base_url" uin
        ∙ value-put with_url "token" "base_url" token
        ∙ value-put with_uid "base_url" "base_url" url,
    value-put with_token "wechat_uin" "token" uin ∙ value-put with_url "token" "token" token,
    value-put with_token "wechat_uin" "wechat_uin" uin,
    value-put with_token "wechat_uin" "context_token" uin
        ∙ value-put with_url "token" "context_token" token
        ∙ value-put with_uid "base_url" "context_token" url
        ∙ value-put GoMap.empty "account_uid" "context_token" uid
        ∙ value-empty "context_token",
  )

  pub with_context_lem :
      (context : String)
      → (value (GoMap.put (entries uid url token uin) "context_token" context) "base_url" ≡ url)
        × (value (GoMap.put (entries uid url token uin) "context_token" context) "token" ≡ token)
        × (value (GoMap.put (entries uid url token uin) "context_token" context) "wechat_uin" ≡ uin)
        × (value (GoMap.put (entries uid url token uin) "context_token" context) "context_token"
            ≡ context)
  with_context_lem context = (
    value-put (entries uid url token uin) "context_token" "base_url" context ∙ entries_lem.0,
    value-put (entries uid url token uin) "context_token" "token" context ∙ entries_lem.1,
    value-put (entries uid url token uin) "context_token" "wechat_uin" context ∙ entries_lem.2,
    value-put (entries uid url token uin) "context_token" "context_token" context,
  )

pub blank_empty : is_blank "" ≡ true
unfolding is_blank trim_space
blank_empty = refl

pub target_of_value :
    (msg : InboundMessage) (key : String)
    → metadata_value (target_of msg) key ≡ metadata_value msg.reply_target key
unfolding metadata_value
target_of_value msg key = elim (Bool-cases (msg.reply_target.recipient_id == "")) [
  | inl e ↦ rw e refl
  | inr e ↦ rw e refl
]

-- ===== src/Bot/Service/Accounts.antt =====
-- internal/store/repositories/channel_account_repository.go. At most one account of a user, a channel type and an outer account.
use channel_plugin.Prelude.{Bool, String, none, some, ◌∷◌, map, ◌==◌, ◌&&◌, if◌then◌else◌}
use channel_plugin.Domain.{ChannelAccount}
use channel_plugin.Bot.Service.World.{
  World, Env, Action, ◌>>◌, Result, ok, err, store, found, first, unique, statement,
}

-- the columns of the unique index
unfoldable pub same_account : ChannelAccount → ChannelAccount → Bool
same_account a b =
    a.user_id == b.user_id && a.channel_type == b.channel_type && a.account_uid == b.account_uid

-- `DO UPDATE SET`
unfoldable pub refreshed : ChannelAccount → ChannelAccount → ChannelAccount
refreshed a old = record old {
  display_name = a.display_name;
  avatar_url = a.avatar_url;
  credential_ciphertext = a.credential_ciphertext;
  credential_version = a.credential_version;
  last_bound_at = a.last_bound_at;
}

module _ (env : Env) where
  -- `INSERT ... ON CONFLICT`
  unfoldable pub insert_or_refresh : ChannelAccount → World → Result (Unit {0}) × World
  insert_or_refresh a w = elim (first (same_account a) w.accounts) [
    | some old ↦ (
      ok tt,
      record w { accounts = map (λ o. if same_account a o then refreshed a o else o) w.accounts },
    )
    | none ↦ elim (first (λ o. o.id == a.id) w.accounts) [
      | some other ↦ (err (store unique), w)
      | none ↦ (ok tt, record w { accounts = a ∷ w.accounts })
    ]
  ]

  -- The row is read again, since its id is that of the row that was there.
  unfoldable pub upsert : ChannelAccount → Action ChannelAccount
  upsert a = do
    statement env (insert_or_refresh a)
    statement env (λ w. (found (first (same_account a) w.accounts), w))

  unfoldable pub get_by_id : String → Action ChannelAccount
  get_by_id id = statement env (λ w. (found (first (λ a. a.id == id) w.accounts), w))

-- ===== src/Bot/Service/Bots.antt =====
-- internal/store/repositories/bot_repository.go. gorm's `Save`, which `Update` calls, also writes a row that is not there.
use channel_plugin.Prelude.{String, none, some, List, ◌==◌, ◌≡◌, arith, eq_refl}
use channel_plugin.GoMap
use channel_plugin.GoMap.{get, get-put}
use channel_plugin.Domain.{Bot, not_found}
use channel_plugin.Bot.Service.World.{
  World, Env, Action, ok, err, store, found, unique, select, statement,
}

module _ (env : Env) where
  unfoldable pub create : Bot → Action Bot
  create bot = statement env (λ w. elim (GoMap.get w.bots bot.id) [
    | none ↦ (ok bot, record w { bots = GoMap.put w.bots bot.id bot })
    | some old ↦ (err (store unique), w)
  ])

  unfoldable pub get_by_id : String → Action Bot
  get_by_id id = statement env (λ w. (found (GoMap.get w.bots id), w))

  unfoldable pub list_by_user_id : String → Action (List Bot)
  list_by_user_id user =
      statement env (λ w. (ok (select (λ b. b.user_id == user) (GoMap.values w.bots)), w))

  unfoldable pub update : Bot → Action Bot
  update bot = statement env (λ w. (ok bot, record w { bots = GoMap.put w.bots bot.id bot }))

  unfoldable pub delete_by_id : String → Action (Unit {0})
  delete_by_id id = statement env (λ w. elim (GoMap.get w.bots id) [
    | none ↦ (err (store not_found), w)
    | some old ↦ (ok tt, record w { bots = GoMap.delete w.bots id })
  ])

  -- After an `Update` that succeeds, the row is the given one.
  pub get-update :
      (bot : Bot) (w : World) {b : Bot}
      → (update bot w).0 ≡ ok b
      → (b ≡ bot) × (get (update bot w).1.bots bot.id ≡ some bot)
  unfolding update
  get-update bot w h = ground (arith, get-put w.bots bot.id bot.id bot, eq_refl bot.id)

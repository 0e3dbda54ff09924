-- ===== src/Bot/Service/Users.antt =====
-- internal/store/repositories/user_repository.go. The ids of users by their ids outside.
use channel_plugin.Prelude.{String, none, some}
use channel_plugin.GoMap
use channel_plugin.Bot.Service.World.{Env, Action, ◌>>=◌, pure, gets, ok, statement}

module _ (env : Env) where
  -- the id of the user
  unfoldable pub find_or_create_by_external_user_id : String → Action String
  find_or_create_by_external_user_id external = do
    known ← statement env (λ w. (ok (GoMap.get w.users external), w))
    elim known [
      | some id ↦ pure id
      | none ↦ do
        id ← gets (λ w. env.new_id "usr" w.calls)
        statement env (λ w. (ok id, record w { users = GoMap.put w.users external id }))
    ]

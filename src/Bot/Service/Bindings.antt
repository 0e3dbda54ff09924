-- ===== src/Bot/Service/Bindings.antt =====
-- internal/store/repositories/channel_binding_repository.go. The table of bindings; `Save` writes a row that is not there.
use channel_plugin.Prelude.{String, none, some, ◌==◌, ◌≡◌, arith, eq_refl}
use channel_plugin.GoMap
use channel_plugin.GoMap.{get, get-put}
use channel_plugin.Domain.{ChannelBinding}
use channel_plugin.Bot.Service.World.{World, Env, Action, ok, err, store, found, unique, statement}

module _ (env : Env) where
  -- `Create` leaves `FinishedAt` out.
  unfoldable pub create : ChannelBinding → Action ChannelBinding
  create binding =
      let row = record binding { finished_at = none } in
      statement env (λ w. elim (GoMap.get w.bindings row.id) [
        | none ↦ (ok row, record w { bindings = GoMap.put w.bindings row.id row })
        | some old ↦ (err (store unique), w)
      ])

  unfoldable pub get_by_id : String → Action ChannelBinding
  get_by_id id = statement env (λ w. (found (GoMap.get w.bindings id), w))

  unfoldable pub update : ChannelBinding → Action ChannelBinding
  update binding =
      statement env
        (λ w. (ok binding, record w { bindings = GoMap.put w.bindings binding.id binding }))

  unfoldable pub delete_by_bot_id : String → Action (Unit {0})
  delete_by_bot_id bot_id =
      statement env (λ w.
        (ok tt, record w { bindings = GoMap.delete_if (λ k b. b.bot_id == bot_id) w.bindings }))

  -- After an `Update` that succeeds, the row is the given one.
  pub get-update :
      (binding : ChannelBinding) (w : World) {b : ChannelBinding}
      → (update binding w).0 ≡ ok b
      → (b ≡ binding) × (get (update binding w).1.bindings binding.id ≡ some binding)
  unfolding update
  get-update binding w h =
      ground (arith, get-put w.bindings binding.id binding.id binding, eq_refl binding.id)

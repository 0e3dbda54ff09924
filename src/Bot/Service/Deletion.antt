-- ===== src/Bot/Service/Deletion.antt =====
-- `DeleteBot`: what is gone after it, and what an error on the way leaves.
use channel_plugin.Prelude.{
  String, ◌≡◌, ◌≢◌, Option, none, some, arith, ◌==◌, eq_iff, if◌then◌else◌,
}
use channel_plugin.GoMap.{get, get-delete, get-delete_if, unless}
use channel_plugin.Domain.{ChannelBinding}
use channel_plugin.Bot.Service.World.{World, Env, ok}
use channel_plugin.Bot.Service.Bots.{get_by_id, delete_by_id}
use channel_plugin.Bot.Service.Bindings.{delete_by_bot_id}
use channel_plugin.Bot.Service.Defs.{delete_bot}

-- What the deletion of a bot's bindings leaves under a key is of another bot.
unless_other :
    (bot_id k : String) (o : Option ChannelBinding) {b : ChannelBinding}
    → unless (λ k b. b.bot_id == bot_id) k o ≡ some b
    → (o ≡ some b) × (b.bot_id ≢ bot_id)
unless_other bot_id k none e = cc
unless_other bot_id k (some o) {b = b} e = ground (arith, eq_iff o.bot_id bot_id)

module _ (env : Env) (bot_id : String) (w : World) where
  -- Whatever fails in `DeleteBot`: the bot's row is as before, or no binding of the bot is left.
  pub delete_bot_orphans :
      (k : String) {b : ChannelBinding}
      → get (delete_bot env bot_id w).1.bindings k ≡ some b
      → b.bot_id ≡ bot_id
      → get (delete_bot env bot_id w).1.bots bot_id ≡ get w.bots bot_id
  unfolding delete_bot get_by_id delete_by_id delete_by_bot_id
  delete_bot_orphans k h e = ground (
    arith,
    unless_other bot_id k (get w.bindings k),
    get-delete_if (λ k b. b.bot_id == bot_id) w.bindings k,
    get-delete w.bots bot_id bot_id,
  )

  -- A `DeleteBot` that succeeds takes the row of the bot and no other, and exactly its bindings.
  pub delete_bot_removes :
      (delete_bot env bot_id w).0 ≡ ok tt
      → (other : String) (k : String)
      → (get (delete_bot env bot_id w).1.bots other
          ≡ (if bot_id == other then none else get w.bots other))
        × (get (delete_bot env bot_id w).1.bindings k
            ≡ unless (λ k b. b.bot_id == bot_id) k (get w.bindings k))
  unfolding delete_bot get_by_id delete_by_id delete_by_bot_id
  delete_bot_removes h other k = ground (
    arith,
    get-delete_if (λ k b. b.bot_id == bot_id) w.bindings k,
    get-delete w.bots bot_id other,
  )

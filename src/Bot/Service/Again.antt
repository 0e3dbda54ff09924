-- ===== src/Bot/Service/Again.antt =====
-- A login that is refreshed again after it was confirmed, with the manager of connections as the
-- service's `runtimes`.
use channel_plugin.Prelude.{ℕ, String, ◌≡◌, true, none, some, arith, inl, inr, Option-cases}
use channel_plugin.GoMap.{get}
use channel_plugin.Channel.{RefreshBindingResult}
use channel_plugin.Domain.{Bot, ChannelBinding, ChannelAccount, status_error}
use channel_plugin.Bot.Connections.Defs.{
  Services, Handles, StartError, already_started, start, active,
}
use channel_plugin.Bot.Service.World.{World, Env, Action, Failure, other, ok, err}
use channel_plugin.Bot.Service.Bots
use channel_plugin.Bot.Service.Bindings
use channel_plugin.Bot.Service.Accounts.{upsert, insert_or_refresh}
use channel_plugin.Bot.Service.Login.{Collaborators, bound_bot, bound_binding}
use channel_plugin.Bot.Service.Flow.{bind_account, confirm, start_failed, start_runtime}
use channel_plugin.Bot.Service.Confirming.{start_failed_lem}

-- `BotConnectionManager.Start` on the table of handles; `others` is what other goroutines do to it.
unfoldable pub manager :
    Services → (Handles → Handles) → (StartError → String) → String → Action (Unit {0})
manager services others text bot_id w =
    let started = start services others w.handles bot_id in
    (
      elim started.error [ none ↦ ok tt | some e ↦ err (other (text e)) ],
      record w { handles = started.handles },
    )

manager_refuses :
    (services : Services) (others : Handles → Handles) (text : StartError → String)
    (bot_id : String) (w : World)
    → active w.handles bot_id ≡ true
    → manager services others text bot_id w ≡ (err (other (text already_started)), w)
unfolding manager start active
manager_refuses services others text bot_id w h = elim (Option-cases (get w.handles bot_id)) [
  | inl e ↦ ground (arith, e)
  | inr (k, e) ↦ ground (arith, e)
]

module _ (env : Env) (c : Collaborators) where
  start_failed_handles :
      (bot : Bot) (binding : ChannelBinding) (e : Failure) (w : World)
      → (start_failed env c bot binding e w).1.handles ≡ w.handles
  unfolding start_failed Bots.update Bindings.update
  start_failed_handles bot binding e w = ground arith

  bind_account_handles :
      (result : RefreshBindingResult) (bot : Bot) (w : World)
      → (bind_account env c result bot w).1.handles ≡ w.handles
  unfolding bind_account upsert insert_or_refresh Bots.update
  bind_account_handles result bot w = ground arith

  -- A login that is confirmed for a bot whose runtime is active: `Start` refuses, the call fails, and
  -- the row of the bot is left in error, while its runtime is active as before.
  pub confirm_again :
      (services : Services) (others : Handles → Handles) (text : StartError → String)
      (result : RefreshBindingResult) (bot : Bot) (binding : ChannelBinding) (w : World)
      {a : ChannelAccount}
      → ((n : ℕ) → env.fault n ≡ none)
      → c.runtimes ≡ some (manager services others text)
      → (bind_account env c result bot w).0 ≡ ok a
      → active w.handles bot.id ≡ true
      → let (r, w') = confirm env c result bot binding w in
        (r ≡ err (other (text already_started)))
        × (get w'.bots bot.id
            ≡ some (record (bound_bot a.id bot) {
              connection_status = status_error;
              connection_error = c.error_text (other (text already_started));
            }))
        × (w'.handles ≡ w.handles)
  unfolding confirm bound_bot bound_binding start_runtime
  confirm_again services others text result bot binding w {a = a} up e bound h =
      let w1 = (bind_account env c result bot w).1 in
      let b = bound_binding a.id (env.now w.calls) binding in
      grind (
        arith,
        bind_account_handles result bot w,
        manager_refuses services others text bot.id w1,
        start_failed_lem env c (bound_bot a.id bot) b (other (text already_started)) w1 up,
        start_failed_handles (bound_bot a.id bot) b (other (text already_started)) w1,
      )

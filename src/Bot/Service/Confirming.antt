-- ===== src/Bot/Service/Confirming.antt =====
-- The login flow: what a confirmed login leaves in the tables, and what a failed one does.
use channel_plugin.Prelude.{ℕ, suc, eq_refl, String, ◌≡◌, ◌≢◌, Option, none, some, inl, inr, arith}
use channel_plugin.GoMap.{get, get-put}
use channel_plugin.Channel.{RefreshBindingResult}
use channel_plugin.Domain.{Bot, ChannelBinding, ChannelAccount, status_error}
use channel_plugin.Bot.Service.World.{
  World, Env, Result, ok, err, Result-cases, Failure, Action, ◌>>=◌, ◌>>◌, pure,
}
use channel_plugin.Bot.Service.Bots
use channel_plugin.Bot.Service.Bindings
use channel_plugin.Bot.Service.Accounts.{upsert}
use channel_plugin.Bot.Service.Login.{
  Collaborators, account_of, bound_bot, bound_binding, RefreshBotLoginOutput,
}
use channel_plugin.Bot.Service.Flow.{
  bind_account, confirm, start_failed, start_runtime, report, refresh_login,
}

-- what the answer of `RefreshLogin` tells of the row of the binding
abbrev pub Reports : RefreshBotLoginOutput → Option ChannelBinding → Type 0
Reports out none = ⊥
Reports out (some b) =
    (b.status ≡ out.status)
    × (b.qr_code_payload ≡ out.qr_code_payload)
    × (b.expires_at ≡ out.expires_at)
    × (b.channel_account_id ≡ out.channel_account_id)

module _ (env : Env) (c : Collaborators) where
  -- Whatever the flow does after a failed `Start`, its call fails.
  pub start_failed_raises :
      (bot : Bot) (binding : ChannelBinding) (e : Failure) (w : World)
      → {u : Unit {0}} → (start_failed env c bot binding e w).0 ≢ ok u
  unfolding start_failed Bindings.update Bots.update
  start_failed_raises bot binding e w = ground arith

  -- A `Start` that fails while the database answers leaves the row of the bot in error, with the text
  -- of the error, and the binding as the provider confirmed it; the call returns the error.
  pub start_failed_lem :
      (bot : Bot) (binding : ChannelBinding) (e : Failure) (w : World)
      → ((n : ℕ) → env.fault n ≡ none)
      → let (r, w') = start_failed env c bot binding e w in
        (r ≡ err e)
        × (get w'.bots bot.id
            ≡ some (record bot {
              connection_status = status_error;
              connection_error = c.error_text e;
            }))
        × (get w'.bindings binding.id ≡ some binding)
  unfolding start_failed Bindings.update Bots.update
  start_failed_lem bot binding e w up = ground (
    arith,
    up w.calls,
    up (suc w.calls),
    eq_refl binding.id,
    eq_refl bot.id,
    get-put w.bindings binding.id binding.id binding,
    get-put w.bots bot.id bot.id
        (record bot { connection_status = status_error; connection_error = c.error_text e }),
  )

  bound_writes :
      (bot : Bot) (r : Result ChannelAccount × World) {a : ChannelAccount}
      → let (r', w') =
          (do account ← (λ w. r); Bots.update env (bound_bot account.id bot); pure account) r.1 in
        r' ≡ ok a → get w'.bots bot.id ≡ some (bound_bot a.id bot)
  unfolding bound_bot Bots.update
  bound_writes bot (ok account, w) h =
      ground (arith, get-put w.bots bot.id bot.id (bound_bot account.id bot), eq_refl bot.id)
  bound_writes bot (err e, w) h = cc

  -- Binding an account writes its id into the row of the bot.
  bind_account_writes :
      (result : RefreshBindingResult) (bot : Bot) (w : World) {a : ChannelAccount}
      → (bind_account env c result bot w).0 ≡ ok a
      → get (bind_account env c result bot w).1.bots bot.id ≡ some (bound_bot a.id bot)
  unfolding bind_account bound_bot
  bind_account_writes result bot w {a = a} h =
      elim (Result-cases (c.encrypt result.credential_payload)) [
        | inr (e, failed) ↦ ground arith
        | inl (ciphertext, done) ↦
            let account =
              account_of result bot ciphertext (env.new_id "acct" w.calls) (env.now w.calls) in
            grind (arith, done, bound_writes bot (upsert env account w))
      ]

  -- Where the part of a login that follows the provider's confirmation succeeds: the runtime was started
  -- over tables in which the row of the bot names the account of the binding, and that part leaves
  -- what `Start` left. (The row of the binding is written behind it.)
  pub confirm_starts :
      (result : RefreshBindingResult) (bot : Bot) (binding : ChannelBinding) (w : World)
      {start : String → Action (Unit {0})} {b : ChannelBinding}
      → c.runtimes ≡ some start
      → (confirm env c result bot binding w).0 ≡ ok b
      → let w1 = (bind_account env c result bot w).1 in
        (get w1.bots bot.id ≡ some (bound_bot b.channel_account_id bot))
        × ((start bot.id w1).0 ≡ ok tt)
        × ((start bot.id w1).1 ≡ (confirm env c result bot binding w).1)
  unfolding confirm bound_bot bound_binding start_runtime
  confirm_starts result bot binding w {start = start} {b = b} e h =
      grind (arith, bind_account_writes result bot w, start_failed_raises)

  report_lem :
      (bot_id : String) (b : ChannelBinding) (w : World) (out : RefreshBotLoginOutput)
      → (report env c bot_id b w).0 ≡ ok out
      → Reports out (get (report env c bot_id b w).1.bindings out.binding_id)
  unfolding report Bindings.update Bots.get_by_id
  report_lem bot_id b w out h = ground (arith, get-put w.bindings b.id b.id b, eq_refl b.id)

  -- A login that is refreshed answers what the tables hold then: the binding's row under the answered
  -- id has the answered status, code, time and account.
  pub refresh_login-Reports :
      (binding_id : String) (w : World) (out : RefreshBotLoginOutput)
      → (refresh_login env c binding_id w).0 ≡ ok out
      → Reports out (get (refresh_login env c binding_id w).1.bindings out.binding_id)
  unfolding refresh_login
  refresh_login-Reports binding_id w out h = grind (arith, report_lem)

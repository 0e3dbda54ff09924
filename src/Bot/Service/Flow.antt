-- ===== src/Bot/Service/Flow.antt =====
-- internal/app/bot/service.go: `StartLogin`, `RefreshLogin` and `confirmAndStartRuntime`.
use channel_plugin.Prelude.{String, none, some, ◌==◌, ◌||◌, if◌then◌else◌}
use channel_plugin.GoMap
use channel_plugin.GoMap.{GoMap}
use channel_plugin.Channel.{RefreshBindingResult}
use channel_plugin.Domain.{
  Bot, ChannelBinding, ChannelAccount, binding_confirmed, binding_failed, binding_expired,
  status_error,
}
use channel_plugin.Bot.Service.World.{
  Env, Action, ◌>>=◌, ◌>>◌, pure, gets, raise, raise_if, Failure, invalid_arg, ok, err, ignore,
  on_result,
}
use channel_plugin.Bot.Service.Bots
use channel_plugin.Bot.Service.Bindings
use channel_plugin.Bot.Service.Accounts.{upsert}
use channel_plugin.Bot.Service.Login.{
  Collaborators, RefreshBotLoginOutput, StartBotLoginOutput, answered_binding, bound_bot,
  bound_binding, failed_bot, completed, unconfirmed, pending_binding, ready_binding, awaiting,
  auto_confirm, account_of, of_result,
}

module _ (env : Env) (c : Collaborators) where
  -- What the two flows do after a failed `Start`: the error is returned unless the binding cannot be
  -- written, and that of the bot's row is ignored.
  unfoldable pub start_failed : Bot → ChannelBinding → Failure → Action (Unit {0})
  start_failed bot binding e = do
    Bindings.update env binding
    ignore (
        Bots.update env
          (record bot { connection_status = status_error; connection_error = c.error_text e }))
    raise e

  unfoldable pub start_runtime : Bot → ChannelBinding → Action (Unit {0})
  start_runtime bot binding = elim c.runtimes [
    | none ↦ pure tt
    | some start ↦ λ w. elim (start bot.id w).0 [
      | ok u ↦ start bot.id w
      | err e ↦ start_failed bot binding e (start bot.id w).1
    ]
  ]

  -- The confirmed login, the same text in both flows, up to the start of the runtime.
  unfoldable pub bind_account : RefreshBindingResult → Bot → Action ChannelAccount
  bind_account result bot = do
    now ← gets (λ w. env.now w.calls)
    ciphertext ← of_result (c.encrypt result.credential_payload)
    id ← gets (λ w. env.new_id "acct" w.calls)
    account ← upsert env (account_of result bot ciphertext id now)
    Bots.update env (bound_bot account.id bot)
    pure account

  -- All of it; it answers the binding, which is not written yet.
  unfoldable pub confirm : RefreshBindingResult → Bot → ChannelBinding → Action ChannelBinding
  confirm result bot binding = do
    now ← gets (λ w. env.now w.calls)
    account ← bind_account result bot
    start_runtime (bound_bot account.id bot) (bound_binding account.id now binding)
    pure (bound_binding account.id now binding)

  -- the three branches of `RefreshLogin` on the provider's status
  unfoldable pub settle : RefreshBindingResult → Bot → ChannelBinding → Action ChannelBinding
  settle result bot binding =
      if result.provider_status == binding_confirmed
      then confirm result bot binding
      else if result.provider_status == binding_failed || result.provider_status == binding_expired
      then (do
        now ← gets (λ w. env.now w.calls)
        Bots.update env (failed_bot result bot)
        pure (record binding { finished_at = some now }))
      else pure binding

  -- the last part of `RefreshLogin`: the binding is written and the rows are reported
  unfoldable pub report : String → ChannelBinding → Action RefreshBotLoginOutput
  report bot_id binding = do
    written ← Bindings.update env binding
    bot' ← Bots.get_by_id env bot_id
    pure (record {
      bot_id = bot'.id;
      binding_id = written.id;
      status = written.status;
      qr_code_payload = written.qr_code_payload;
      qr_share_url = written.qr_code_payload;
      expires_at = written.expires_at;
      channel_account_id = written.channel_account_id;
      connection_status = bot'.connection_status;
    })

  -- `RefreshLogin`
  unfoldable pub refresh_login : String → Action RefreshBotLoginOutput
  refresh_login binding_id = do
    raise_if (binding_id == "") invalid_arg
    binding ← Bindings.get_by_id env binding_id
    bot ← Bots.get_by_id env binding.bot_id
    result ← of_result (
        c.refreshes (record {
          provider_binding_ref = binding.provider_binding_ref;
          channel_type = binding.channel_type;
          config = GoMap.empty;
        }))
    settled ← settle result bot (answered_binding result binding)
    report bot.id settled

  -- `confirmAndStartRuntime`. Its output has no code and no time; an update that fails is ignored
  -- where the login is not confirmed, and leaves an empty binding.
  unfoldable pub confirm_and_start_runtime :
      Bot → ChannelBinding → GoMap String → Action StartBotLoginOutput
  confirm_and_start_runtime bot binding config = do
    result ← of_result (
        c.refreshes (record {
          provider_binding_ref = binding.provider_binding_ref;
          channel_type = bot.channel_type;
          config = config;
        }))
    if result.provider_status == binding_confirmed
        then (do
          confirmed ← confirm result bot (answered_binding result binding)
          written ← Bindings.update env confirmed
          bot' ← Bots.get_by_id env bot.id
          pure (completed bot' written))
        else on_result (unconfirmed bot) (Bindings.update env (answered_binding result binding))

  -- `StartLogin`
  unfoldable pub start_login : String → GoMap String → Action StartBotLoginOutput
  start_login bot_id config = do
    raise_if (bot_id == "") invalid_arg
    bot ← Bots.get_by_id env bot_id
    id ← gets (λ w. env.new_id "bind" w.calls)
    binding ← Bindings.create env (pending_binding id bot)
    elim (c.creates
        (record { binding_id = id; channel_type = bot.channel_type; config = config })) [
          | err e ↦ do
            now ← gets (λ w. env.now w.calls)
            ignore (
                Bindings.update env (record binding {
                  status = binding_failed;
                  error_message = c.error_text e;
                  finished_at = some now;
                }))
            raise e
          | ok result ↦
              if auto_confirm bot.channel_type
              then confirm_and_start_runtime bot (ready_binding result binding) config
              else (do
                written ← Bindings.update env (ready_binding result binding)
                pure (awaiting bot result written))
        ]

-- ===== src/Bot/Service/Events.antt =====
-- The service and the connection manager on one table of bots: `handleState` writes the row that
-- `Start` read, whatever the service has written since.
use channel_plugin.Prelude.{eq_refl, ◌≡◌, Option, none, some, arith, List}
use channel_plugin.GoMap.{get, get-put, get-delete}
use channel_plugin.Domain.{Bot, McpServer, status_connected}
use channel_plugin.Bot.Connections.Defs.{StateEvent, connected, handle_state}
use channel_plugin.Bot.Service.World.{World, Env, Action, ok, ignore, pure}
use channel_plugin.Bot.Service.Bots
use channel_plugin.Bot.Service.Bindings
use channel_plugin.Bot.Service.Servers.{list_by_bot}
use channel_plugin.Bot.Service.Attached.{set_bot_servers_lem}
use channel_plugin.Bot.Service.Defs.{
  delete_bot, configure_bot_agent, configured, ConfigureBotAgentInput, BotListItem,
  attached_server_ids,
}

module _ (env : Env) where
  -- the row that `handleState` has to write, if any; an error is ignored
  unfoldable pub write_row : Option Bot → Action (Unit {0})
  write_row none = pure tt
  write_row (some row) = ignore (Bots.update env row)

  -- `handleState` for the row that `Start` captured
  unfoldable pub on_state : Bot → StateEvent → World → World
  on_state bot ev w =
      let (handles, row, stops) = handle_state w.handles bot ev in
      (write_row row (record w { handles = handles })).1

  -- A bot that `DeleteBot` has deleted is in the table again after the next event that its runtime
  -- connected, with the row that `Start` read.
  pub deleted_returns :
      (bot : Bot) (w : World)
      → (delete_bot env bot.id w).0 ≡ ok tt
      → env.fault (delete_bot env bot.id w).1.calls ≡ none
      → (get (delete_bot env bot.id w).1.bots bot.id ≡ none)
        × (get (on_state bot connected (delete_bot env bot.id w).1).bots bot.id
            ≡ some (record bot { connection_status = status_connected; connection_error = "" }))
  unfolding on_state write_row handle_state Bots.update delete_bot Bots.get_by_id Bots.delete_by_id
      Bindings.delete_by_bot_id
  deleted_returns bot w h up = ground (
    arith,
    eq_refl bot.id,
    get-delete w.bots bot.id bot.id,
    get-put (delete_bot env bot.id w).1.bots bot.id bot.id
        (record bot { connection_status = status_connected; connection_error = "" }),
  )

  module _ (sorted : List McpServer → List McpServer) (newest_first : List Bot → List Bot) where
    -- After a `ConfigureBotAgent` that succeeds the row of the bot is the configured one; after the next
    -- event that its runtime connected it is the row that `Start` read, connected, and the new agent,
    -- mode, alias, prompt and environment are lost.
    pub configured_lost :
        (input : ConfigureBotAgentInput) (bot : Bot) (w : World) {item : BotListItem}
        → get w.bots input.bot_id ≡ some bot
        → bot.id ≡ input.bot_id
        → (configure_bot_agent env sorted newest_first input w).0 ≡ ok item
        → env.fault (configure_bot_agent env sorted newest_first input w).1.calls ≡ none
        → let w1 = (configure_bot_agent env sorted newest_first input w).1 in
          (get w1.bots bot.id ≡ some (configured input bot))
          × (get (on_state bot connected w1).bots bot.id
              ≡ some (record bot { connection_status = status_connected; connection_error = "" }))
    unfolding configure_bot_agent configured on_state write_row handle_state Bots.get_by_id
        Bots.update attached_server_ids list_by_bot
    configured_lost input bot w {item = item} e same h up =
        let w1 = (configure_bot_agent env sorted newest_first input w).1 in
        let row = configured input bot in
        let w2 = (Bots.update env row (Bots.get_by_id env input.bot_id w).1).1 in
        ground (
          arith,
          eq_refl bot.id,
          set_bot_servers_lem env sorted bot.id input.mcp_server_ids w2 "" "",
          get-put w.bots bot.id bot.id row,
          get-put w1.bots bot.id bot.id
              (record bot { connection_status = status_connected; connection_error = "" }),
        )

-- ===== src/Bot/Orchestrator/Stopping.antt =====
-- What `StopBot` takes away.
use Prim.Native.String
use text.Mathlib.TextPositions.{starts_with-append}
use text.Mathlib.TextLemmas.{append_assoc}
use channel_plugin.Prelude.{
  if◌then◌else◌, ◌==◌, ℕ, String, ◌≡◌, ◌≢◌, true, false, none, some, arith,
}
use channel_plugin.GoMap.{get, get-delete, get-delete_if, unless}
use channel_plugin.Bot.Messages.{InboundMessage, seen_key}
use channel_plugin.Bot.Orchestrator.Defs.{
  Orchestrator, BotState, duplicate, is_duplicate, admit_message, stop_bot, is_of_bot,
}
use channel_plugin.Bot.Orchestrator.Dedup.{admit_message_duplicate}

is_of_bot-seen_key : (msg : InboundMessage) → is_of_bot msg.bot_id (seen_key msg) ≡ true
is_of_bot-seen_key msg =
    rw (← append_assoc) (starts_with-append (String.◌++◌ msg.bot_id ":") msg.message_id)

module _ (o : Orchestrator) (bot : String) (st : BotState) (known : get o.bots bot ≡ some st) where
  seen-stop :
      (key : String)
      → get (stop_bot o bot).0.seen key ≡ unless (λ k s. is_of_bot bot k) key (get o.seen key)
  unfolding stop_bot
  seen-stop key = rw (known, stop_bot) (get-delete_if (λ k s. is_of_bot bot k) o.seen key)

  unsuppressed :
      (msg : InboundMessage) (now : ℕ)
      → msg.bot_id ≡ bot
      → is_duplicate (stop_bot o bot).0 now msg ≡ false
  unfolding is_duplicate
  unsuppressed msg now e =
      ground (arith, seen-stop (seen_key msg), rw e at (is_of_bot-seen_key msg))

  -- For a bot that has a state, `StopBot` takes away the state and the entries of all keys that
  -- begin with the bot's id and a colon, and nothing else; and it asks for the close of the bot's
  -- agent session.
  pub stop_bot_lem :
      let (o', closes) = stop_bot o bot in
      (closes ≡ true)
      × ((b : String) → get o'.bots b ≡ (if bot == b then none else get o.bots b))
      × ((key : String) → get o'.seen key ≡ unless (λ k s. is_of_bot bot k) key (get o.seen key))
  stop_bot_lem = (
    unfold stop_bot in rw (known, stop_bot),
    λ b. unfold stop_bot in rw (known, stop_bot) (get-delete o.bots bot b),
    seen-stop,
  )

  -- After `StopBot` on a bot that has a state, no message for the bot is a duplicate, whatever was in
  -- progress or finished before.
  pub admit_after_stop :
      (msg : InboundMessage) (now : ℕ)
      → msg.bot_id ≡ bot
      → (admit_message (stop_bot o bot).0 now msg).1 ≢ duplicate
  admit_after_stop msg now e d =
      cc (unsuppressed msg now e, (admit_message_duplicate _ now msg).0 d)

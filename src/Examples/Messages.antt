-- ===== src/Examples/Messages.antt =====
-- Runs of the orchestrator of internal/app/bot/message_orchestrator.go on concrete messages.
use channel_plugin.Prelude.{
  ◌-◌, ◌<◌, ◌≡◌, ◌≢◌, refl, true, false, some, [], ◌∷◌, arith, eq_iff, ◌↔◌,
}
use channel_plugin.GoMap.{get, put, empty, get-put, get-empty}
use channel_plugin.Bot.Messages.{InboundMessage, no_target, seen_key, seen_message_ttl}
use channel_plugin.Bot.Orchestrator.Defs.{
  Orchestrator, BotState, Worker, Seen, new_orchestrator, new_state, admit_message, place,
  is_duplicate, is_message_in_progress, try_send, duplicate, admitted, finish_message, stop_bot,
}
use channel_plugin.Bot.Orchestrator.Events.{run, receives, starts, admits, ensures, sends}
use channel_plugin.Bot.Orchestrator.Dedup.{admitted_once, finish_then_admit}
use channel_plugin.Bot.Orchestrator.Queues.{queues_sound}
use channel_plugin.Bot.Orchestrator.Soundness.{AllSound}
use channel_plugin.Bot.Orchestrator.Handling.{admit-place}
use channel_plugin.Bot.Orchestrator.Stopping.{admit_after_stop}

abbrev hello : InboundMessage
hello = record {
  bot_id = "bot";
  message_id = "1";
  from = "ann";
  text = "hello";
  reply_target = no_target;
}

abbrev worker : Worker
worker = record { queue = []; cap = 1 }

-- a bot with a worker
abbrev busy_bot : BotState
busy_bot = record (new_state 0) { worker = some worker; stop_ch = some false }

abbrev with_bot : BotState → Orchestrator
with_bot st = record {
  bots = put empty "bot" st;
  seen = empty;
  last_seen_cleanup = some 0;
  next_id = 1;
}

-- the same, with `hello` in progress
abbrev in_turn : BotState → Orchestrator
in_turn st = record {
  bots = put empty "bot" st;
  seen = put empty "bot:1" (record { seen_at = 5; in_progress = true });
  last_seen_cleanup = some 0;
  next_id = 1;
}

known : (st : BotState) → get (put empty "bot" st) "bot" ≡ some st
known st = get-put empty "bot" "bot" st

abbrev in_turn_entry : Seen
in_turn_entry = record { seen_at = 5; in_progress = true }

hello_in_progress : (st : BotState) → is_message_in_progress (in_turn st) hello ≡ true
unfolding is_message_in_progress
hello_in_progress st = rw (get-put empty "bot:1" "bot:1" in_turn_entry) refl

fresh : (st : BotState) (msg : InboundMessage) → is_duplicate (with_bot st) 9 msg ≡ false
unfolding is_duplicate
fresh st msg = ground (arith, get-empty {V = Seen} (seen_key msg))

hello_admitted : (admit_message (with_bot busy_bot) 9 hello).1 ≡ admitted 0
unfolding place try_send new_state
hello_admitted =
    rw (admit-place (with_bot busy_bot) 9 hello busy_bot (known busy_bot) (fresh busy_bot hello))
      refl

named : hello.message_id ≢ ""
named = ground (arith, eq_iff "1" "")

admitted_once_example :
    (admit_message
      (run (admit_message (with_bot busy_bot) 9 hello).0 (receives "bot" ∷ starts hello ∷ []))
      20
      hello).1
    ≡ duplicate
admitted_once_example =
    admitted_once (with_bot busy_bot) 9 hello 0 (receives "bot" ∷ starts hello ∷ []) 20 named
      hello_admitted (tt, (tt, tt))

finish_then_admit_example :
    (((admit_message (finish_message (in_turn busy_bot) 9 hello true) 20 hello).1 ≡ duplicate)
      ↔ (20 - 9 < seen_message_ttl))
    × ((admit_message (finish_message (in_turn busy_bot) 9 hello false) 20 hello).1 ≢ duplicate)
finish_then_admit_example =
    finish_then_admit (in_turn busy_bot) busy_bot 9 20 hello named (known busy_bot)
      (hello_in_progress busy_bot)

queues_sound_example :
    AllSound (run new_orchestrator (admits 9 hello ∷ ensures "bot" 0 ∷ sends "bot" hello ∷ []))
queues_sound_example = queues_sound (admits 9 hello ∷ ensures "bot" 0 ∷ sends "bot" hello ∷ [])

-- before the stop `hello` is a duplicate
admit_after_stop_example :
    (admit_message (stop_bot (in_turn busy_bot) "bot").0 9 hello).1 ≢ duplicate
admit_after_stop_example =
    admit_after_stop (in_turn busy_bot) "bot" busy_bot (known busy_bot) hello 9 refl

-- ===== src/Bot/Orchestrator/Events.antt =====
-- Sequences of the orchestrator's sections, by any goroutines in any order.
use channel_plugin.Prelude.{ℕ, String, Bool, none, some, List, [], ◌∷◌}
use channel_plugin.Prelude.Int.{ℤ}
use channel_plugin.Bot.Messages.{InboundMessage}
use channel_plugin.Bot.Orchestrator.Defs.{
  Orchestrator, admit_message, ensure_worker, queue_message, receive, remember_reply_target,
  resize_worker_queue, mark_message_started, finish_message, stop_bot,
}

pub data Event : Type 0 where
  admits : ℕ → InboundMessage → Event
  ensures : String → ℕ → Event
  -- a blocking send, which happens only where there is room, or `queueMessage`
  sends : String → InboundMessage → Event
  receives : String → Event
  remembers : InboundMessage → Event
  resizes : String → ℤ → Event
  starts : InboundMessage → Event
  finishes : ℕ → InboundMessage → Bool → Event
  stops : String → Event

unfoldable pub apply : Orchestrator → Event → Orchestrator
apply o (admits now msg) = (admit_message o now msg).0
apply o (ensures bot id) = (ensure_worker o bot id).0
apply o (sends bot msg) = (queue_message o bot msg).0
apply o (receives bot) = elim (receive o bot) [ none ↦ o | some (o', msg) ↦ o' ]
apply o (remembers msg) = remember_reply_target o msg
apply o (resizes bot n) = resize_worker_queue o bot n
apply o (starts msg) = mark_message_started o msg
apply o (finishes now msg succeeded) = finish_message o now msg succeeded
apply o (stops bot) = (stop_bot o bot).0

unfoldable pub run : Orchestrator → List Event → Orchestrator
unfolding apply
run o [] = o
run o (e ∷ es) = run (apply o e) es

-- An invariant of every event is one of every sequence of events.
pub run_induction {ℓ} :
    (P : Orchestrator → Type ℓ)
    → ((o : Orchestrator) (e : Event) → P o → P (apply o e))
    → (o : Orchestrator) (es : List Event) → P o
    → P (run o es)
unfolding run
run_induction P step o [] h = h
run_induction P step o (e ∷ es) h = run_induction P step (apply o e) es (step o e h)

-- ===== src/Bot/Orchestrator/Turns.antt =====
-- One message's way through `accept` and `executeAndDeliver`: what is answered, that a progress
-- session is finalized, and that the count of active messages is balanced.
use channel_plugin.Prelude.{
  ℕ, suc, ◌+◌, ◌-◌, String, ◌≡◌, ◌⊎◌, refl, ◌∙◌, Bool, true, false, not, ◌&&◌, ◌||◌, none, some,
  List, [], ◌∷◌, is_some, ◌==◌, eq_iff, eq_refl, arith, Bool-cases, Option-cases, inl, inr,
  if◌then◌else◌,
}
use channel_plugin.Prelude.Int.{ℤ}
use channel_plugin.GoMap.{get, get-put}
use channel_plugin.Agent.Types.{Spec, Response}
use channel_plugin.Agent.Session.Defs.{RunResult}
use channel_plugin.Bot.Messages.{
  InboundMessage, ReplyTarget, seen_key, target_of, failed_reply, ack_reply,
}
use channel_plugin.Bot.Orchestrator.Defs.{
  Orchestrator, BotState, on_state, resize, remember_reply_target, resize_worker_queue,
  mark_message_started, count_down, finish_message, is_message_in_progress, active_count,
}
use channel_plugin.Bot.Orchestrator.Events.{Event, run}
use channel_plugin.Bot.Orchestrator.Dedup.{AllLeave, run-in_progress}
use channel_plugin.Bot.Orchestrator.Delivery.{
  Effect, reply, session_ack, session_done, session_fail, upsert_session, text_response,
  DeliveryItem, Progress, no_session, session, acknowledge, accept, failure_text, keeps_session,
  execute_and_deliver,
}

-- the replies among the effects
abbrev pub replies : List Effect → List (ReplyTarget × Response)
replies [] = []
replies (reply t r ∷ es) = (t, r) ∷ replies es
replies (_ ∷ es) = replies es

-- how often a progress session is finalized
abbrev pub finalized : List Effect → ℕ
finalized [] = 0
finalized (session_done ∷ es) = suc (finalized es)
finalized (session_fail text ∷ es) = suc (finalized es)
finalized (_ ∷ es) = finalized es

-- how often a CLI session is stored
abbrev pub stored : List Effect → ℕ
stored [] = 0
stored (upsert_session b c s w ∷ es) = suc (stored es)
stored (_ ∷ es) = stored es

-- The answer of a turn: the response, or a text about the failure.
abbrev pub answer : RunResult → Response
answer r = elim r.error [ none ↦ r.response | some e ↦ text_response (failure_text r e) ]

module _ (stores stopping : Bool) (o : Orchestrator) (now : ℕ) (item : DeliveryItem)
    (r : RunResult) where
  -- A turn that is delivered is answered exactly once, with the response or a text about the failure,
  -- to the target of its message; only one that fails while its bot is being stopped gets no answer.
  -- Its progress session, if it has one, is finalized exactly once in every case. The CLI's session
  -- id is stored at most once, and only after a success, where it is new.
  pub deliver_effects :
      let effects = (execute_and_deliver stores stopping o now item r).1 in
      (replies effects
        ≡ (if is_some r.error && stopping then [] else (target_of item.msg, answer r) ∷ []))
      × (finalized effects ≡ (if item.sess then 1 else 0))
      × (stored effects
          ≡ (if not (is_some r.error) && keeps_session stores item.spec r.response then 1 else 0))
  unfolding execute_and_deliver
  deliver_effects = (ground arith, ground arith, ground arith)

-- What is acknowledged, by whether a session is left and the effects.
abbrev pub Acknowledged : InboundMessage → Spec → Bool → List Effect → Type 0
Acknowledged msg spec sess effects =
    ((spec.orchestrator ≡ false) × (effects ≡ []))
    ⊎ (((spec.orchestrator ≡ true) × (effects ≡ session_ack ∷ []) × (sess ≡ true))
        ⊎ ((spec.orchestrator ≡ true)
            × (replies effects ≡ (target_of msg, text_response ack_reply) ∷ [])
            × (sess ≡ false)))

acknowledge-Acknowledged :
    (msg : InboundMessage) (spec : Spec) (progress : Progress)
    → Acknowledged msg spec (acknowledge msg spec progress).0 (acknowledge msg spec progress).1
unfolding acknowledge
acknowledge-Acknowledged msg spec no_session = elim (Bool-cases spec.orchestrator) [
  | inl e ↦ inr (inr (e, ground arith, refl))
  | inr e ↦ inl (e, ground arith)
]
acknowledge-Acknowledged msg spec (session true) = elim (Bool-cases spec.orchestrator) [
  | inl e ↦ inr (inl (e, ground arith, ground arith))
  | inr e ↦ inl (e, ground arith)
]
acknowledge-Acknowledged msg spec (session false) = elim (Bool-cases spec.orchestrator) [
  | inl e ↦ inr (inr (e, ground arith, ground arith))
  | inr e ↦ inl (e, ground arith)
]

-- A message whose spec is resolved is accepted. For an orchestrating bot either the progress card is
-- acknowledged and its session stays with the turn, or exactly one text is sent to the message's
-- target and the turn has no session; for other bots nothing is sent.
pub accept_acknowledges :
    (o : Orchestrator) (now : ℕ) (msg : InboundMessage) (spec : Spec) (progress : Progress)
    → let (o', item, effects) = accept o now msg (some spec) progress in
      (sess : Bool) × (item ≡ some (record { msg = msg; spec = spec; sess = sess }))
      × Acknowledged msg spec sess effects
unfolding accept
accept_acknowledges o now msg spec progress =
    ((acknowledge msg spec progress).0, refl, acknowledge-Acknowledged msg spec progress)

-- The count of active messages and the entries of `seen` under the sections of a turn.
active-on_state :
    (f : BotState → BotState) (o : Orchestrator) (bot b : String)
    → ((st : BotState) → (f st).active ≡ st.active)
    → active_count (on_state f o bot) b ≡ active_count o b
unfolding on_state active_count
active-on_state f o bot b same = elim (Option-cases (get o.bots bot)) [
  | inl e ↦ rw (e, on_state)
  | inr (st, e) ↦ ground (arith, get-put o.bots bot b (f st), eq_iff bot b, same st)
]

seen-on_state :
    (f : BotState → BotState) (o : Orchestrator) (bot : String) → (on_state f o bot).seen ≡ o.seen
unfolding on_state
seen-on_state f o bot = ground arith

active-start :
    (o : Orchestrator) (msg : InboundMessage) (st : BotState)
    → get o.bots msg.bot_id ≡ some st
    → active_count (mark_message_started o msg) msg.bot_id ≡ active_count o msg.bot_id + 1
unfolding mark_message_started active_count
active-start o msg st h = ground (
  arith,
  get-put o.bots msg.bot_id msg.bot_id (record st { active = st.active + 1 }),
  eq_refl msg.bot_id,
)

-- Does the end of this message count? It has no id, or it is in progress.
abbrev pub counts : Orchestrator → InboundMessage → Bool
counts o msg = msg.message_id == "" || is_message_in_progress o msg

active-finish :
    (o : Orchestrator) (now : ℕ) (msg : InboundMessage) (b : Bool)
    → counts o msg ≡ true
    → active_count (finish_message o now msg b) msg.bot_id ≡ active_count o msg.bot_id - 1
unfolding finish_message active_count is_message_in_progress
active-finish o now msg b h = elim (Option-cases (get o.bots msg.bot_id)) [
  | inl e ↦ ground (arith, e)
  | inr (st, e) ↦
      ground (arith, get-put o.bots msg.bot_id msg.bot_id (count_down st), eq_refl msg.bot_id, e)
]

active-remember :
    (o : Orchestrator) (msg : InboundMessage) (b : String)
    → active_count (remember_reply_target o msg) b ≡ active_count o b
unfolding remember_reply_target
active-remember o msg b = elim (Bool-cases ((target_of msg).recipient_id == "")) [
  | inl e ↦ rw (e, remember_reply_target)
  | inr e ↦ rw (e, remember_reply_target) (active-on_state _ o msg.bot_id b (λ st. refl))
]

active-resize :
    (o : Orchestrator) (bot b : String) (n : ℤ)
    → active_count (resize_worker_queue o bot n) b ≡ active_count o b
unfolding resize_worker_queue resize
active-resize o bot b n = active-on_state _ o bot b (λ st. ground arith)

seen-remember :
    (o : Orchestrator) (msg : InboundMessage) → (remember_reply_target o msg).seen ≡ o.seen
unfolding remember_reply_target
seen-remember o msg =
    ground
      (arith, seen-on_state (λ st. record st { last_reply_target = target_of msg }) o msg.bot_id)

seen-resize :
    (o : Orchestrator) (bot : String) (n : ℤ) → (resize_worker_queue o bot n).seen ≡ o.seen
unfolding resize_worker_queue
seen-resize o bot n = seen-on_state _ o bot

seen-start : (o : Orchestrator) (msg : InboundMessage) → (mark_message_started o msg).seen ≡ o.seen
unfolding mark_message_started
seen-start o msg = seen-on_state _ o msg.bot_id

counts-same :
    (o o' : Orchestrator) (msg : InboundMessage) → o'.seen ≡ o.seen → counts o' msg ≡ counts o msg
unfolding is_message_in_progress
counts-same o o' msg e = ground (arith, e)

-- What leaves the entry of a message in progress lets its end count.
counts-run :
    (o : Orchestrator) (es : List Event) (msg : InboundMessage)
    → AllLeave (seen_key msg) es
    → counts o msg ≡ true
    → counts (run o es) msg ≡ true
unfolding is_message_in_progress
counts-run o es msg l h = elim (Bool-cases (msg.message_id == "")) [
  | inl e ↦ ground (arith, e)
  | inr e ↦ ground (arith, e, run-in_progress o es (seen_key msg) l (ground (arith, e)))
]

module _ (o : Orchestrator) (now later : ℕ) (msg : InboundMessage) (st : BotState)
    (progress : Progress) (known : get o.bots msg.bot_id ≡ some st)
    (counted : counts o msg ≡ true) where
  abbrev begun : Orchestrator
  begun = remember_reply_target (mark_message_started o msg) msg

  active-begun : active_count begun msg.bot_id ≡ active_count o msg.bot_id + 1
  active-begun =
      active-remember (mark_message_started o msg) msg msg.bot_id ∙ active-start o msg st known

  counts-begun : counts begun msg ≡ true
  counts-begun = counts-same o begun msg (seen-remember _ msg ∙ seen-start o msg) ∙ counted

  -- For a message of a bot with a state, which has no id or is in progress: when the resolver
  -- turns it down, it is answered once and leaves the bot's count of active messages as it was.
  pub accept_refused :
      let (o', item, effects) = accept o now msg none progress in
      (active_count o' msg.bot_id ≡ active_count o msg.bot_id)
      × (item ≡ none)
      × (replies effects ≡ (target_of msg, text_response failed_reply) ∷ [])
  unfolding accept
  accept_refused =
      (omega (arith, active-finish begun now msg false counts-begun, active-begun), refl, refl)

  -- For a message of a bot with a state, which has no id or is in progress: its acceptance raises the
  -- bot's count of active messages by one. Whatever the goroutines do until the end of its turn, but
  -- the end of that message and a stop of its bot, the end of the turn, however that went, lowers the
  -- count that is there then by one (0 stays 0); with nothing in between it is what it was.
  pub turn_balanced :
      (spec : Spec) (sess stores stopping : Bool) (r : RunResult) (es : List Event)
      → AllLeave (seen_key msg) es
      → let o' = (accept o now msg (some spec) progress).0 in
        let item : DeliveryItem = record { msg = msg; spec = spec; sess = sess } in
        (active_count o' msg.bot_id ≡ active_count o msg.bot_id + 1)
        × (active_count (execute_and_deliver stores stopping (run o' es) later item r).0 msg.bot_id
            ≡ active_count (run o' es) msg.bot_id - 1)
        × (active_count (execute_and_deliver stores stopping o' later item r).0 msg.bot_id
            ≡ active_count o msg.bot_id)
  unfolding accept execute_and_deliver
  turn_balanced spec sess stores stopping r es leaves =
      let o' = resize_worker_queue begun msg.bot_id spec.queue_size in
      let accepted = active-resize begun msg.bot_id msg.bot_id spec.queue_size ∙ active-begun in
      let still : counts o' msg ≡ true =
        counts-same begun _ msg (seen-resize begun msg.bot_id spec.queue_size) ∙ counts-begun in
      (
        accepted,
        active-finish (run o' es) later msg (not (is_some r.error))
            (counts-run o' es msg leaves still),
        omega (arith, accepted, active-finish o' later msg (not (is_some r.error)) still),
      )

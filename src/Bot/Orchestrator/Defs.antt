-- ===== src/Bot/Orchestrator/Defs.antt =====
-- The orchestrator's state, and its sections under the mutex.
use Prim.Native.String
use text.Mathlib.Text.{starts_with}
use channel_plugin.Prelude.{
  ℕ, ◌+◌, ◌-◌, String, Bool, true, false, not, ◌&&◌, ◌||◌, Option, none, some, List, [], ◌∷◌, ◌++◌,
  length, ltb, leb, nat_eq, ◌==◌, if◌then◌else◌,
}
use channel_plugin.Prelude.Int.{ℤ, pos, not_positive, to_ℕ}
use channel_plugin.GoMap
use channel_plugin.GoMap.{GoMap}
use channel_plugin.Bot.Messages.{
  InboundMessage, ReplyTarget, no_target, target_of, seen_key, seen_message_ttl, cleanup_interval,
  default_queue_size,
}

-- A `*botWorker`: its channel.
pub record Worker : Type 0 where
  pub queue : List InboundMessage
  pub cap : ℕ

pub record BotState : Type 0 where
  -- the identity of this `*botState`
  pub id : ℕ
  pub worker : Option Worker
  pub pending : Option InboundMessage
  -- nil, or a channel that is closed or not
  pub stop_ch : Option Bool
  pub active : ℕ
  pub queue_size : ℤ
  pub last_reply_target : ReplyTarget

pub record Seen : Type 0 where
  pub seen_at : ℕ
  pub in_progress : Bool

pub record Orchestrator : Type 0 where
  pub bots : GoMap BotState
  pub seen : GoMap Seen
  -- `none` is the zero time
  pub last_seen_cleanup : Option ℕ
  -- the identity of the next `*botState`
  pub next_id : ℕ

-- `NewBotMessageOrchestrator`
abbrev pub new_orchestrator : Orchestrator
new_orchestrator = record {
  bots = GoMap.empty;
  seen = GoMap.empty;
  last_seen_cleanup = none;
  next_id = 0;
}

-- `now.Sub(t)` is `now - t`; where the clock has gone back it is negative, and 0 here, which the
-- comparisons with positive times cannot tell apart.
unfoldable pub is_stale : ℕ → String → Seen → Bool
is_stale now key s = not s.in_progress && leb seen_message_ttl (now - s.seen_at)

-- `cleanupSeenLocked`
unfoldable pub cleanup_seen : Orchestrator → ℕ → Orchestrator
unfolding is_stale
cleanup_seen o now = record o {
  seen = GoMap.delete_if (is_stale now) o.seen;
  last_seen_cleanup = some now;
}

is_due : Option ℕ → ℕ → Bool
is_due none now = true
is_due (some t) now = leb cleanup_interval (now - t)

unfoldable pub sweep : Orchestrator → ℕ → Orchestrator
unfolding cleanup_seen is_due
sweep o now = if is_due o.last_seen_cleanup now then cleanup_seen o now else o

unfoldable pub new_state : ℕ → BotState
new_state id = record {
  id = id;
  worker = none;
  pending = none;
  stop_ch = none;
  active = 0;
  queue_size = pos default_queue_size;
  last_reply_target = no_target;
}

abbrev pub put_state : Orchestrator → String → BotState → Orchestrator
put_state o bot st = record o { bots = GoMap.put o.bots bot st }

-- The bot's state, which is made where there is none.
unfoldable pub find_state : Orchestrator → String → Orchestrator × BotState
unfolding new_state
find_state o bot = elim (GoMap.get o.bots bot) [
  | some st ↦ (o, st)
  | none ↦ (
    put_state (record o { next_id = o.next_id + 1 }) bot (new_state o.next_id),
    new_state o.next_id,
  )
]

-- Does this entry of `seen` suppress a message that comes now?
abbrev pub suppresses : ℕ → Seen → Bool
suppresses now s = s.in_progress || ltb (now - s.seen_at) seen_message_ttl

unfoldable pub is_duplicate : Orchestrator → ℕ → InboundMessage → Bool
is_duplicate o now msg =
    not (msg.message_id == "")
    && (elim (GoMap.get o.seen (seen_key msg)) [ none ↦ false | some s ↦ suppresses now s ])

unfoldable pub mark_seen : Orchestrator → ℕ → InboundMessage → Orchestrator
mark_seen o now msg = if msg.message_id == "" then o else record o {
  seen = GoMap.put o.seen (seen_key msg) (record { seen_at = now; in_progress = true });
}

-- `select { case queue <- msg: default: }`: `none` where the channel is full.
unfoldable pub try_send : Worker → InboundMessage → Option Worker
try_send w msg =
    if ltb (length w.queue) w.cap then some (record w { queue = w.queue ++ msg ∷ [] }) else none

pub data Admission : Type 0 where
  duplicate rejected : Admission
  -- with the identity of the bot's state
  admitted : ℕ → Admission

-- The part of `admitMessage` behind the test for duplicates.
unfoldable pub place : Orchestrator → BotState → ℕ → InboundMessage → Orchestrator × Admission
unfolding mark_seen try_send
place o st now msg = elim st.worker [
  | none ↦ (
    mark_seen (put_state o msg.bot_id (record st { pending = some msg })) now msg,
    admitted st.id,
  )
  | some w ↦ elim (try_send w msg) [
    | none ↦ (o, rejected)
    | some w' ↦ (
      mark_seen (put_state o msg.bot_id (record st { worker = some w' })) now msg,
      admitted st.id,
    )
  ]
]

unfoldable pub admit_message : Orchestrator → ℕ → InboundMessage → Orchestrator × Admission
admit_message o now msg =
    let (o', st) = find_state (sweep o now) msg.bot_id in
    if is_duplicate o' now msg then (o', duplicate) else place o' st now msg

-- A section on the bot's state, where there is one.
unfoldable pub on_state : (BotState → BotState) → Orchestrator → String → Orchestrator
on_state f o bot = elim (GoMap.get o.bots bot) [ none ↦ o | some st ↦ put_state o bot (f st) ]

pub data Ensured : Type 0 where
  -- somebody else has started the goroutines, or the state is not the bot's any more
  left_alone : Ensured
  -- the goroutines are started, and this message is to be sent to the new channel
  started : Option InboundMessage → Ensured

unfoldable pub start_worker : BotState → BotState
start_worker st = record st {
  worker = some (record { queue = []; cap = default_queue_size });
  pending = none;
  stop_ch = some false;
}

-- `ensureWorker` up to the start of the goroutines, for the state with the identity `id`.
unfoldable pub ensure_worker : Orchestrator → String → ℕ → Orchestrator × Ensured
unfolding start_worker
ensure_worker o bot id = elim (GoMap.get o.bots bot) [
  | none ↦ (o, left_alone)
  | some st ↦ if not (nat_eq st.id id) then (o, left_alone) else elim st.worker [
    | some w ↦ (o, left_alone)
    | none ↦ (put_state o bot (start_worker st), started st.pending)
  ]
]

-- `worker.queue <- *pending`: `none` where the channel is full, so that the sender waits.
unfoldable pub send_pending : Orchestrator → String → InboundMessage → Option Orchestrator
unfolding try_send
send_pending o bot msg = elim (GoMap.get o.bots bot) [
  | none ↦ none
  | some st ↦ elim st.worker [
    | none ↦ none
    | some w ↦ elim (try_send w msg) [
      | none ↦ none
      | some w' ↦ some (put_state o bot (record st { worker = some w' }))
    ]
  ]
]

-- `queueMessage`
unfoldable pub queue_message : Orchestrator → String → InboundMessage → Orchestrator × Bool
unfolding send_pending
queue_message o bot msg = elim (send_pending o bot msg) [ none ↦ (o, false) | some o' ↦ (o', true) ]

-- `msg := <-worker.queue` of `runAccept`: `none` where the channel is empty.
unfoldable pub receive : Orchestrator → String → Option (Orchestrator × InboundMessage)
receive o bot = elim (GoMap.get o.bots bot) [
  | none ↦ none
  | some st ↦ elim st.worker [
    | none ↦ none
    | some w ↦ elim w.queue [
      | [] ↦ none
      | msg ∷ rest ↦
          some (put_state o bot (record st { worker = some (record w { queue = rest }) }), msg)
    ]
  ]
]

-- `rememberReplyTarget`
unfoldable pub remember_reply_target : Orchestrator → InboundMessage → Orchestrator
unfolding on_state
remember_reply_target o msg =
    let target = target_of msg in
    if target.recipient_id == ""
    then o
    else on_state (λ st. record st { last_reply_target = target }) o msg.bot_id

-- `queueSize <= 0` takes the default
abbrev pub queue_capacity : ℤ → ℕ
queue_capacity n = if not_positive n then default_queue_size else to_ℕ n

unfoldable pub resize : ℕ → BotState → BotState
resize n st =
    let st' = record st { queue_size = pos n } in
    elim st.worker [
      | none ↦ st'
      | some w ↦
          if nat_eq w.cap n || ltb 0 (length w.queue)
          then st'
          else record st' { worker = some (record { queue = []; cap = n }) }
    ]

-- `resizeWorkerQueue`
unfoldable pub resize_worker_queue : Orchestrator → String → ℤ → Orchestrator
unfolding on_state resize
resize_worker_queue o bot queue_size = on_state (resize (queue_capacity queue_size)) o bot

-- `markMessageStarted`
unfoldable pub mark_message_started : Orchestrator → InboundMessage → Orchestrator
unfolding on_state
mark_message_started o msg = on_state (λ st. record st { active = st.active + 1 }) o msg.bot_id

-- `if state.active > 0 { state.active-- }`
abbrev pub count_down : BotState → BotState
count_down st = record st { active = st.active - 1 }

-- `finishMessage` for the bot's state and the message's entry; its result is always true.
unfoldable pub finish_seen : Orchestrator → ℕ → BotState → InboundMessage → Bool → Orchestrator
finish_seen o now st msg succeeded = elim (GoMap.get o.seen (seen_key msg)) [
  | none ↦ o
  | some s ↦
      if not s.in_progress
      then o
      else let o' = put_state o msg.bot_id (count_down st) in
        if succeeded
        then record o' {
          seen = GoMap.put o.seen (seen_key msg) (record { seen_at = now; in_progress = false });
        }
        else record o' { seen = GoMap.delete o.seen (seen_key msg) }
]

unfoldable pub finish_message : Orchestrator → ℕ → InboundMessage → Bool → Orchestrator
unfolding finish_seen
finish_message o now msg succeeded = elim (GoMap.get o.bots msg.bot_id) [
  | none ↦ o
  | some st ↦
      if msg.message_id == ""
      then put_state o msg.bot_id (count_down st)
      else finish_seen o now st msg succeeded
]

-- `strings.HasPrefix(key, botID+":")`
abbrev pub is_of_bot : String → String → Bool
is_of_bot bot key = starts_with key (String.◌++◌ bot ":")

-- `StopBot` up to the close of the agent's session, which the caller makes where the answer is true.
-- The state that is removed has its stop channel closed; it is gone from the map, and what still holds
-- it reads that channel alone.
unfoldable pub stop_bot : Orchestrator → String → Orchestrator × Bool
stop_bot o bot = elim (GoMap.get o.bots bot) [
  | none ↦ (o, false)
  | some st ↦ (
    record o {
      bots = GoMap.delete o.bots bot;
      seen = GoMap.delete_if (λ key s. is_of_bot bot key) o.seen;
    },
    true,
  )
]

-- `isMessageInProgress`
unfoldable pub is_message_in_progress : Orchestrator → InboundMessage → Bool
is_message_in_progress o msg =
    not (msg.message_id == "")
    && (elim (GoMap.get o.seen (seen_key msg)) [ none ↦ false | some s ↦ s.in_progress ])

-- `HasBotState`
unfoldable pub has_bot_state : Orchestrator → String → Bool
has_bot_state o bot = elim (GoMap.get o.bots bot) [ none ↦ false | some st ↦ true ]

-- `ActiveCount`
unfoldable pub active_count : Orchestrator → String → ℕ
active_count o bot = elim (GoMap.get o.bots bot) [ none ↦ 0 | some st ↦ st.active ]

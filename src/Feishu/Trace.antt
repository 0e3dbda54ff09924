-- ===== src/Feishu/Trace.antt =====
-- `traceSession` and `Begin`. A section under `mu` is one function; the calls of the network, which
-- are made without it, are appended to `sent`, and the answer to the creation of a card is a section
-- of its own, before which others may come.
use channel_plugin.Prelude.{
  ℕ, suc, ◌-◌, String, Bool, true, false, not, ◌||◌, Option, none, some, List, [], ◌∷◌, ◌++◌,
  length, ◌==◌, if◌then◌else◌, ltb,
}
use channel_plugin.Prelude.Text.{trim_space}
use channel_plugin.Bot.Messages.{ReplyTarget, metadata_value}
use channel_plugin.Feishu.Card.{TraceStep, TraceState, card_content}

pub record TraceTarget : Type 0 where
  pub chat_id : String
  pub reply_message_id : String

-- A call of the Feishu API.
pub data Rpc : Type 0 where
  create_card : (chat_id reply_message_id content : String) → Rpc
  patch_card : (message_id content : String) → Rpc

-- where the goroutine of `flushLoop` is
pub data Loop : Type 0 where
  not_started waiting : Loop
  -- behind a wake-up, before the flush
  pausing : Loop
  -- in the call that creates the card, of the last flush or another one
  creating : (final : Bool) → Loop
  exited : Loop

-- `wake` tells whether the channel of one place is filled, `closed` whether `closed` is closed;
-- `flushed` is closed when the loop has exited. `acking` counts the calls of `Ack` that wait for their
-- card.
pub record TraceSession : Type 0 where
  pub target : TraceTarget
  pub steps : List TraceStep
  pub message_id : String
  pub created : Bool
  pub degraded : Bool
  pub terminal : String
  pub reason : String
  pub loop : Loop
  pub wake : Bool
  pub closed : Bool
  pub sent : List Rpc
  pub acking : ℕ

unfoldable pub new_trace_session : TraceTarget → TraceSession
new_trace_session target = record {
  target = target;
  steps = [];
  message_id = "";
  created = false;
  degraded = false;
  terminal = "";
  reason = "";
  loop = not_started;
  wake = false;
  closed = false;
  sent = [];
  acking = 0;
}

-- `snapshot`, `elapsed` seconds after the start
unfoldable pub snapshot : ℕ → TraceSession → TraceState
snapshot elapsed s = record {
  steps = s.steps;
  terminal = s.terminal;
  reason = s.reason;
  elapsed = if s.terminal == "done" then elapsed else 0;
}

abbrev pub send_rpc : Rpc → TraceSession → TraceSession
send_rpc rpc s = record s { sent = s.sent ++ rpc ∷ [] }

-- `ensureLoop`
unfoldable pub ensure_loop : TraceSession → TraceSession
ensure_loop s = elim s.loop [ not_started ↦ record s { loop = waiting } | _ ↦ s ]

-- `Step`
unfoldable pub step : TraceStep → TraceSession → TraceSession
step ev s = record (ensure_loop (record s { steps = s.steps ++ ev ∷ [] })) { wake = true }

-- `finish` up to its wait for the loop: `flushed` is awaited where `closed` is closed.
unfoldable pub finish : String → String → TraceSession → TraceSession
finish kind reason s =
    if s.terminal == ""
    then (let s' = record s { terminal = kind; reason = reason } in
        if s.created || ltb 0 (length s.steps)
        then record (ensure_loop s') { closed = true }
        else s')
    else s

-- What the driver does to a session: a step, or the end of the turn.
pub data Call : Type 0 where
  steps : TraceStep → Call
  finishes : (kind reason : String) → Call

unfoldable pub call : Call → TraceSession → TraceSession
call (steps ev) s = step ev s
call (finishes kind reason) s = finish kind reason s

-- What the goroutine of `flushLoop` does next: the two cases of the first `select`, of which the second
-- goes on with a flush at once where the interval has passed, the end of the interval in the second
-- `select`, and the return of the call that creates the card, with its id or an error.
pub data Round : Type 0 where
  sees_closed : Round
  sees_wake : (interval_passed : Bool) → Round
  interval_ends : Round
  created_by_loop : Option String → Round

module _ (json : String → String) (elapsed : ℕ) where
  -- `buildProgressCard` of a snapshot; `json` wraps the content.
  abbrev pub card : TraceSession → String
  card s = json (card_content (snapshot elapsed s))

  abbrev pub patch : TraceSession → TraceSession
  patch s = send_rpc (patch_card s.message_id (card s)) s

-- `ensureCardLocked` after its call, where `mu` is held again
unfoldable pub card_returned : Option String → TraceSession → TraceSession
card_returned none s = record s { degraded = true }
card_returned (some id) s = record s { message_id = id; created = true }

-- where the loop is after a flush
unfoldable pub after_flush : Bool → TraceSession → TraceSession
after_flush final s = record s { loop = if final then exited else waiting }

-- The rest of `Ack`: it fails where there is no id.
unfoldable pub ack_returns : Option String → TraceSession → TraceSession
ack_returns answer s =
    if ltb 0 s.acking
    then (let s' = card_returned answer (record s { acking = s.acking - 1 }) in
        elim answer [ none ↦ s' | some id ↦ ensure_loop s' ])
    else s

module _ (json : String → String) (elapsed : ℕ) where
  -- the call that `ensureCardLocked` makes
  abbrev pub ask_for_card : TraceSession → TraceSession
  ask_for_card s =
      send_rpc (create_card s.target.chat_id s.target.reply_message_id (card json elapsed s)) s

  -- `flushNow` of the loop, up to its call where there is no card yet
  unfoldable pub flush_now : Bool → TraceSession → TraceSession
  flush_now final s =
      if s.degraded
      then after_flush final s
      else if s.created
      then after_flush final (patch json elapsed s)
      else record (ask_for_card s) { loop = creating final }

  -- the rest of `flushNow`
  unfoldable pub flush_created : Bool → Option String → TraceSession → TraceSession
  flush_created final none s = after_flush final (card_returned none s)
  flush_created true (some id) s = after_flush true (patch json elapsed (card_returned (some id) s))
  flush_created false (some id) s = after_flush false (card_returned (some id) s)

  -- `Ack` up to its call, if it makes one
  unfoldable pub ack : TraceSession → TraceSession
  ack s =
      if s.created || s.degraded
      then ensure_loop s
      else record (ask_for_card s) { acking = suc s.acking }

  -- A wake-up is consumed before the flush.
  unfoldable pub wakes_up : Bool → TraceSession → TraceSession
  wakes_up true s = flush_now false (record s { wake = false })
  wakes_up false s = record s { wake = false; loop = pausing }

  -- A round that cannot be next at the place where the loop is changes nothing.
  unfoldable pub flush_at : Loop → Round → TraceSession → TraceSession
  flush_at waiting sees_closed s = if s.closed then flush_now true s else s
  flush_at pausing sees_closed s = if s.closed then flush_now true s else s
  flush_at waiting (sees_wake interval_passed) s = if s.wake then wakes_up interval_passed s else s
  flush_at pausing interval_ends s = flush_now false s
  flush_at (creating final) (created_by_loop answer) s = flush_created final answer s
  flush_at not_started sees_closed s = s
  flush_at not_started (sees_wake passed) s = s
  flush_at not_started interval_ends s = s
  flush_at not_started (created_by_loop answer) s = s
  flush_at exited sees_closed s = s
  flush_at exited (sees_wake passed) s = s
  flush_at exited interval_ends s = s
  flush_at exited (created_by_loop answer) s = s
  flush_at (creating final) sees_closed s = s
  flush_at (creating final) (sees_wake passed) s = s
  flush_at (creating final) interval_ends s = s
  flush_at waiting interval_ends s = s
  flush_at waiting (created_by_loop answer) s = s
  flush_at pausing (sees_wake passed) s = s
  flush_at pausing (created_by_loop answer) s = s

  -- `flushLoop`
  unfoldable pub flush_loop : Round → TraceSession → TraceSession
  flush_loop r s = flush_at s.loop r s

-- `Done` and `Fail`
abbrev pub done : TraceSession → TraceSession
done s = finish "done" "" s

abbrev pub fail : String → TraceSession → TraceSession
fail reason s = finish "fail" reason s

-- `Begin`; `lookup` tells whether the registry has credentials of a bot.
unfoldable pub begin : Bool → (String → Bool) → ReplyTarget → Option TraceSession
begin enabled lookup target =
    let bot_id = trim_space (metadata_value target "bot_id") in
    let named = trim_space (metadata_value target "chat_id") in
    if not enabled || not (target.channel_type == "feishu") || not (lookup bot_id)
    then none
    else some (
        new_trace_session (record {
          chat_id = if named == "" then trim_space target.recipient_id else named;
          reply_message_id =
              if metadata_value target "chat_type" == "group"
              then trim_space (metadata_value target "message_id")
              else "";
        }))

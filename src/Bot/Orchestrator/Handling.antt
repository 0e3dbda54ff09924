-- ===== src/Bot/Orchestrator/Handling.antt =====
-- What `HandleMessage` does with a message that is no duplicate, and what becomes of one that waits
-- for its worker.
use channel_plugin.Prelude.{
  ℕ, String, ◌≡◌, ◌≢◌, ap, ◌∙◌, true, false, none, some, [], ◌∷◌, ◌++◌, length, ltb, nat_eq_refl,
  ◌==◌, eq_iff, eq_refl, arith, Bool-cases, inl, inr, if◌then◌else◌,
}
use channel_plugin.GoMap.{get, get-put}
use channel_plugin.Bot.Messages.{InboundMessage, seen_key, busy_reply, default_queue_size}
use channel_plugin.Bot.Orchestrator.Defs.{
  Orchestrator, BotState, Worker, duplicate, rejected, admitted, sweep, find_state, is_duplicate,
  mark_seen, place, put_state, left_alone, started, start_worker, admit_message, ensure_worker,
  send_pending,
}
use channel_plugin.Bot.Orchestrator.Delivery.{
  start_goroutines, reply_to, text_response, after_ensured, after_admission, handle_message,
}
use channel_plugin.Bot.Orchestrator.Dedup.{
  in_progress_at, is_duplicate-sweep, admit-in_progress, in_progress-duplicate,
}
use channel_plugin.Bot.Orchestrator.Soundness.{sweep-bots, mark_seen-bots}

ne_test : {s t : String} → s ≢ t → (s == t) ≡ false
ne_test {s} {t} h = ground (arith, eq_iff s t)

-- The bot's state as `admitMessage` finds it.
found_state :
    (o : Orchestrator) (now : ℕ) (bot : String) (st : BotState)
    → get o.bots bot ≡ some st
    → find_state (sweep o now) bot ≡ (sweep o now, st)
unfolding find_state sweep
found_state o now bot st h = rw (sweep-bots, h, find_state)

pub admit-place :
    (o : Orchestrator) (now : ℕ) (msg : InboundMessage) (st : BotState)
    → get o.bots msg.bot_id ≡ some st
    → is_duplicate o now msg ≡ false
    → admit_message o now msg ≡ place (sweep o now) st now msg
unfolding admit_message
admit-place o now msg st h d =
    let found = found_state o now msg.bot_id st h in
    let same : is_duplicate (sweep o now) now msg ≡ false =
      rw found at (is_duplicate-sweep o now msg msg.bot_id ∙ d) in
    rw (found, same)

place-pending :
    (o : Orchestrator) (st : BotState) (now : ℕ) (msg : InboundMessage)
    → st.worker ≡ none
    → get (place o st now msg).0.bots msg.bot_id ≡ some (record st { pending = some msg })
unfolding place
place-pending o st now msg h = ground (
  arith,
  get-put o.bots msg.bot_id msg.bot_id (record st { pending = some msg }),
  eq_refl msg.bot_id,
)

-- The state with `msg` waiting for the worker to start.
abbrev waiting : Orchestrator → BotState → ℕ → InboundMessage → Orchestrator
waiting o st now msg = mark_seen (put_state o msg.bot_id (record st { pending = some msg })) now msg

-- The bot's state with a worker that has `msg` alone.
abbrev pub working : BotState → InboundMessage → BotState
working st msg = record (start_worker (record st { pending = some msg })) {
  worker = some (record { queue = msg ∷ []; cap = default_queue_size });
}

-- The state with that worker.
abbrev pub begun : Orchestrator → BotState → ℕ → InboundMessage → Orchestrator
begun o st now msg =
    put_state
      (put_state (waiting o st now msg) msg.bot_id
        (start_worker (record st { pending = some msg })))
      msg.bot_id (working st msg)

module _ (o : Orchestrator) (st : BotState) (now : ℕ) (msg : InboundMessage)
    (idle : st.worker ≡ none) where
  place-waiting : place o st now msg ≡ (waiting o st now msg, admitted st.id)
  unfolding place
  place-waiting = ground arith

  held_waiting :
      get (waiting o st now msg).bots msg.bot_id ≡ some (record st { pending = some msg })
  held_waiting = rw mark_seen-bots (rw (get-put, eq_refl))

  ensure-waiting : ensure_worker (waiting o st now msg) msg.bot_id st.id ≡ (
    put_state (waiting o st now msg) msg.bot_id (start_worker (record st { pending = some msg })),
    started (some msg),
  )
  unfolding ensure_worker
  ensure-waiting = ground (arith, held_waiting, nat_eq_refl st.id)

  after-waiting :
      after_ensured msg.bot_id
        (put_state
          (waiting o st now msg)
          msg.bot_id
          (start_worker (record st { pending = some msg })))
        (started (some msg))
      ≡ (some (begun o st now msg), start_goroutines msg.bot_id ∷ [])
  unfolding after_ensured send_pending start_worker
  after-waiting = ground (
    arith,
    get-put (waiting o st now msg).bots msg.bot_id msg.bot_id
        (start_worker (record st { pending = some msg })),
    eq_refl msg.bot_id,
  )

-- The state with `msg` behind the messages of its worker `w`.
abbrev pub queued : Orchestrator → BotState → Worker → ℕ → InboundMessage → Orchestrator
queued o st w now msg =
    mark_seen
      (put_state o msg.bot_id
        (record st { worker = some (record w { queue = w.queue ++ msg ∷ [] }) }))
      now msg

place-queued :
    (o : Orchestrator) (st : BotState) (w : Worker) (now : ℕ) (msg : InboundMessage)
    → st.worker ≡ some w
    → place o st now msg ≡ (
        if ltb (length w.queue) w.cap
        then (queued o st w now msg, admitted st.id)
        else (o, rejected))
unfolding place
place-queued o st w now msg h = ground arith

ensure-queued :
    (o : Orchestrator) (st : BotState) (w : Worker) (now : ℕ) (msg : InboundMessage)
    → ensure_worker (queued o st w now msg) msg.bot_id st.id ≡ (queued o st w now msg, left_alone)
ensure-queued o st w now msg =
    let held : get (queued o st w now msg).bots msg.bot_id
        ≡ some (record st { worker = some (record w { queue = w.queue ++ msg ∷ [] }) }) =
      rw mark_seen-bots (rw (get-put, eq_refl)) in
    unfold ensure_worker in rw (held, nat_eq_refl st.id, ensure_worker)

module _ (o : Orchestrator) (now : ℕ) (msg : InboundMessage) (st : BotState)
    (known : get o.bots msg.bot_id ≡ some st) (fresh : is_duplicate o now msg ≡ false) where
  -- For a bot with a state, no worker and a pending message: a second message, which is no
  -- duplicate, takes the place of the first when it is admitted, and the bot's state does not hold
  -- the first any more. If the first has an id and is in progress, it stays so, and is a duplicate
  -- when it is sent again.
  pub admit_overwrites :
      (first : InboundMessage) (later : ℕ)
      → st.worker ≡ none
      → st.pending ≡ some first
      → first.message_id ≢ ""
      → in_progress_at o (seen_key first) ≡ true
      → let o' = (admit_message o now msg).0 in
        (get o'.bots msg.bot_id ≡ some (record st { pending = some msg }))
        × ((admit_message o' later first).1 ≡ duplicate)
  admit_overwrites first later idle waits ne busy = (
    rw (admit-place o now msg st known fresh) (place-pending (sweep o now) st now msg idle),
    in_progress-duplicate _ later first ne (admit-in_progress o now msg (seen_key first) busy),
  )

  -- A message with a text that is no duplicate, for a bot whose worker runs: it is put behind
  -- those that wait if there is room; else the answer is that the bot is busy, and the bots and
  -- the entries are as the cleanup leaves them.
  pub handle_with_worker :
      (w : Worker)
      → st.worker ≡ some w
      → msg.text ≢ ""
      → handle_message o now msg ≡ (
          if ltb (length w.queue) w.cap
          then (some (queued (sweep o now) st w now msg), [])
          else (some (sweep o now), reply_to msg (text_response busy_reply) ∷ []))
  unfolding handle_message
  handle_with_worker w works text =
      let there =
        admit-place o now msg st known fresh ∙ place-queued (sweep o now) st w now msg works in
      elim (Bool-cases (ltb (length w.queue) w.cap)) [
        | inl room ↦
            let e : admit_message o now msg ≡ (queued (sweep o now) st w now msg, admitted st.id) =
              there ∙ rw room in
            rw (ne_test text, room, handle_message)
              (ap (λ r. after_admission msg r.0 r.1) e
                ∙ ap (λ r. after_ensured msg.bot_id r.0 r.1)
                    (ensure-queued (sweep o now) st w now msg))
        | inr full ↦
            let e : admit_message o now msg ≡ (sweep o now, rejected) = there ∙ rw full in
            rw (ne_test text, full, handle_message) (ap (λ r. after_admission msg r.0 r.1) e)
      ]

  -- A message with a text that is no duplicate, for a bot with a state whose worker does not run:
  -- it starts the worker, and is then the one message in its queue.
  pub handle_without_worker :
      st.worker ≡ none
      → msg.text ≢ ""
      → let (result, effects) = handle_message o now msg in
        (result ≡ some (begun (sweep o now) st now msg))
        × (effects ≡ start_goroutines msg.bot_id ∷ [])
        × (get (begun (sweep o now) st now msg).bots msg.bot_id ≡ some (working st msg))
  unfolding handle_message
  handle_without_worker idle text =
      let e = admit-place o now msg st known fresh ∙ place-waiting (sweep o now) st now msg idle in
      let f =
        ap (λ r. after_admission msg r.0 r.1) e
        ∙ ap (λ r. after_ensured msg.bot_id r.0 r.1) (ensure-waiting (sweep o now) st now msg idle)
        ∙ after-waiting (sweep o now) st now msg idle in
      rw (ne_test text, handle_message) (ap (λ r. r.0) f, ap (λ r. r.1) f, rw (get-put, eq_refl))

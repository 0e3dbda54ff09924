-- ===== src/Bot/Orchestrator/Dedup.antt =====
-- Which messages are suppressed as duplicates.
use channel_plugin.Prelude.{
  ℕ, ◌-◌, ◌<◌, String, ◌≡◌, ◌≢◌, ◌↔◌, ◌⊎◌, Bool, true, false, none, some, List, [], ◌∷◌, eq_iff,
  eq_refl, arith, Option-cases, inl, inr,
}
use channel_plugin.GoMap.{get, get-put, get-delete, get-delete_if}
use channel_plugin.Bot.Messages.{InboundMessage, seen_key, seen_message_ttl}
use channel_plugin.Bot.Orchestrator.Defs.{
  Orchestrator, BotState, Seen, duplicate, admitted, suppresses, is_stale, sweep, find_state,
  is_duplicate, mark_seen, place, admit_message, ensure_worker, queue_message, receive,
  remember_reply_target, resize_worker_queue, mark_message_started, finish_message, stop_bot,
  is_of_bot, is_message_in_progress,
}
use channel_plugin.Bot.Orchestrator.Events.{
  Event, admits, ensures, sends, receives, remembers, resizes, starts, finishes, stops, apply, run,
}

-- Is the key's message in progress?
abbrev pub in_progress_at : Orchestrator → String → Bool
in_progress_at o key = elim (get o.seen key) [ none ↦ false | some s ↦ s.in_progress ]

seen-sweep-none :
    (o : Orchestrator) (now : ℕ) (key : String)
    → get o.seen key ≡ none
    → get (sweep o now).seen key ≡ none
unfolding sweep
seen-sweep-none o now key h = ground (arith, get-delete_if (is_stale now) o.seen key)

-- What a sweep takes away suppresses nothing.
seen-sweep-some :
    (o : Orchestrator) (now : ℕ) (key : String) (s : Seen)
    → get o.seen key ≡ some s
    → (get (sweep o now).seen key ≡ some s)
      ⊎ ((get (sweep o now).seen key ≡ none) × (suppresses now s ≡ false))
unfolding sweep
seen-sweep-some o now key s h = ground (arith, get-delete_if (is_stale now) o.seen key)

seen-find_state : (o : Orchestrator) (bot : String) → (find_state o bot).0.seen ≡ o.seen
unfolding find_state
seen-find_state o bot = ground arith

pub is_duplicate-sweep :
    (o : Orchestrator) (now : ℕ) (msg : InboundMessage) (bot : String)
    → is_duplicate (find_state (sweep o now) bot).0 now msg ≡ is_duplicate o now msg
unfolding is_duplicate
is_duplicate-sweep o now msg bot = elim (Option-cases (get o.seen (seen_key msg))) [
  | inl e ↦ rw seen-find_state (ground (arith, e, seen-sweep-none o now (seen_key msg) e))
  | inr (s, e) ↦ rw seen-find_state (ground (arith, e, seen-sweep-some o now (seen_key msg) s e))
]

place-ne-duplicate :
    (o : Orchestrator) (st : BotState) (now : ℕ) (msg : InboundMessage)
    → (place o st now msg).1 ≢ duplicate
unfolding place
place-ne-duplicate o st now msg h = ground arith

-- A message is taken for a duplicate exactly if it has an id, and the entry of its key, as it was
-- before the cleanup of this call, is in progress or younger than the retention time. So the cleanup
-- never changes a verdict.
pub admit_message_duplicate :
    (o : Orchestrator) (now : ℕ) (msg : InboundMessage)
    → ((admit_message o now msg).1 ≡ duplicate) ↔ (is_duplicate o now msg ≡ true)
unfolding admit_message
admit_message_duplicate o now msg = (
  λ h. ground (
    arith,
    is_duplicate-sweep o now msg msg.bot_id,
    place-ne-duplicate (find_state (sweep o now) msg.bot_id).0
        (find_state (sweep o now) msg.bot_id).1 now msg,
  ),
  λ h. ground (arith, is_duplicate-sweep o now msg msg.bot_id),
)

-- Events that leave the entry of a key in progress: all but the end of that message and a stop
-- of its bot.
abbrev pub Leaves : String → Event → Type 0
Leaves key (finishes now msg succeeded) = seen_key msg ≢ key
Leaves key (stops bot) = is_of_bot bot key ≡ false
Leaves key _ = Unit

abbrev pub AllLeave : String → List Event → Type 0
AllLeave key [] = Unit
AllLeave key (e ∷ es) = Leaves key e × AllLeave key es

mark_seen-in_progress :
    (o : Orchestrator) (now : ℕ) (msg : InboundMessage) (key : String)
    → in_progress_at o key ≡ true
    → in_progress_at (mark_seen o now msg) key ≡ true
unfolding mark_seen
mark_seen-in_progress o now msg key h =
    ground (arith, get-put o.seen (seen_key msg) key (record { seen_at = now; in_progress = true }))

sweep-in_progress :
    (o : Orchestrator) (now : ℕ) (key : String)
    → in_progress_at o key ≡ true
    → in_progress_at (sweep o now) key ≡ true
unfolding sweep
sweep-in_progress o now key h = ground (arith, get-delete_if (is_stale now) o.seen key)

place-in_progress :
    (o : Orchestrator) (st : BotState) (now : ℕ) (msg : InboundMessage) (key : String)
    → in_progress_at o key ≡ true
    → in_progress_at (place o st now msg).0 key ≡ true
unfolding place
place-in_progress o st now msg key h =
    ground (arith, get-put o.seen (seen_key msg) key (record { seen_at = now; in_progress = true }))

find_state-in_progress :
    (o : Orchestrator) (bot key : String)
    → in_progress_at o key ≡ true
    → in_progress_at (find_state o bot).0 key ≡ true
find_state-in_progress o bot key h = ground (arith, seen-find_state o bot)

pub admit-in_progress :
    (o : Orchestrator) (now : ℕ) (msg : InboundMessage) (key : String)
    → in_progress_at o key ≡ true
    → in_progress_at (admit_message o now msg).0 key ≡ true
unfolding admit_message
admit-in_progress o now msg key h =
    let o' = (find_state (sweep o now) msg.bot_id).0 in
    let st = (find_state (sweep o now) msg.bot_id).1 in
    let h' : in_progress_at o' key ≡ true =
      find_state-in_progress (sweep o now) msg.bot_id key (sweep-in_progress o now key h) in
    ground (arith, h', place-in_progress o' st now msg key h')

finish-in_progress :
    (o : Orchestrator) (now : ℕ) (msg : InboundMessage) (b : Bool) (key : String)
    → seen_key msg ≢ key
    → in_progress_at o key ≡ true
    → in_progress_at (finish_message o now msg b) key ≡ true
unfolding finish_message
finish-in_progress o now msg b key ne h = ground (
  arith,
  eq_iff (seen_key msg) key,
  get-put o.seen (seen_key msg) key (record { seen_at = now; in_progress = false }),
  get-delete o.seen (seen_key msg) key,
)

apply-in_progress :
    (o : Orchestrator) (e : Event) (key : String)
    → Leaves key e
    → in_progress_at o key ≡ true
    → in_progress_at (apply o e) key ≡ true
unfolding apply ensure_worker queue_message receive remember_reply_target resize_worker_queue
    mark_message_started stop_bot
apply-in_progress o (admits now msg) key l h = admit-in_progress o now msg key h
apply-in_progress o (ensures bot id) key l h = ground arith
apply-in_progress o (sends bot msg) key l h = ground arith
apply-in_progress o (receives bot) key l h = ground arith
apply-in_progress o (remembers msg) key l h = ground arith
apply-in_progress o (resizes bot n) key l h = ground arith
apply-in_progress o (starts msg) key l h = ground arith
apply-in_progress o (finishes now msg b) key l h = finish-in_progress o now msg b key l h
apply-in_progress o (stops bot) key l h =
    ground (arith, get-delete_if (λ k s. is_of_bot bot k) o.seen key)

pub run-in_progress :
    (o : Orchestrator) (es : List Event) (key : String)
    → AllLeave key es
    → in_progress_at o key ≡ true
    → in_progress_at (run o es) key ≡ true
unfolding run
run-in_progress o [] key l h = h
run-in_progress o (e ∷ es) key l h =
    run-in_progress (apply o e) es key l.1 (apply-in_progress o e key l.0 h)

place-admits :
    (o : Orchestrator) (st : BotState) (now : ℕ) (msg : InboundMessage) (id : ℕ)
    → msg.message_id ≢ ""
    → (place o st now msg).1 ≡ admitted id
    → in_progress_at (place o st now msg).0 (seen_key msg) ≡ true
unfolding place
place-admits o st now msg id ne h = ground (
  arith,
  eq_iff msg.message_id "",
  eq_iff (seen_key msg) (seen_key msg),
  get-put o.seen (seen_key msg) (seen_key msg) (record { seen_at = now; in_progress = true }),
)

admit-admits :
    (o : Orchestrator) (now : ℕ) (msg : InboundMessage) (id : ℕ)
    → msg.message_id ≢ ""
    → (admit_message o now msg).1 ≡ admitted id
    → in_progress_at (admit_message o now msg).0 (seen_key msg) ≡ true
unfolding admit_message
admit-admits o now msg id ne h =
    let o' = (find_state (sweep o now) msg.bot_id).0 in
    let st = (find_state (sweep o now) msg.bot_id).1 in
    ground (arith, place-admits o' st now msg id ne)

pub in_progress-duplicate :
    (o : Orchestrator) (now : ℕ) (msg : InboundMessage)
    → msg.message_id ≢ ""
    → in_progress_at o (seen_key msg) ≡ true
    → (admit_message o now msg).1 ≡ duplicate
in_progress-duplicate o now msg ne h =
    (admit_message_duplicate o now msg).1
      (unfold is_duplicate in ground (arith, eq_iff msg.message_id ""))

-- A message with an id that is admitted is taken up once: whatever the orchestrator does next, as
-- long as that message is not finished and its bot not stopped, the same message is a duplicate.
pub admitted_once :
    (o : Orchestrator) (now : ℕ) (msg : InboundMessage) (id : ℕ) (es : List Event) (later : ℕ)
    → msg.message_id ≢ ""
    → (admit_message o now msg).1 ≡ admitted id
    → AllLeave (seen_key msg) es
    → (admit_message (run (admit_message o now msg).0 es) later msg).1 ≡ duplicate
admitted_once o now msg id es later ne h l =
    in_progress-duplicate _ later msg ne
      (run-in_progress _ es (seen_key msg) l (admit-admits o now msg id ne h))

module _ (o : Orchestrator) (st : BotState) (done later : ℕ) (msg : InboundMessage)
    (ne : msg.message_id ≢ "") (b : get o.bots msg.bot_id ≡ some st)
    (h : is_message_in_progress o msg ≡ true) where
  is_duplicate-finish_success :
      (is_duplicate (finish_message o done msg true) later msg ≡ true)
      ↔ (later - done < seen_message_ttl)
  unfolding is_duplicate finish_message is_message_in_progress
  is_duplicate-finish_success =
      let e =
        get-put o.seen (seen_key msg) (seen_key msg)
          (record { seen_at = done; in_progress = false }) in
      let k = eq_refl (seen_key msg) in
      (
        λ d. ground (arith, eq_iff msg.message_id "", k, e),
        λ t. ground (arith, eq_iff msg.message_id "", k, e),
      )

  is_duplicate-finish_failure : is_duplicate (finish_message o done msg false) later msg ≡ false
  unfolding is_duplicate finish_message is_message_in_progress
  is_duplicate-finish_failure = ground (
    arith,
    eq_iff msg.message_id "",
    eq_refl (seen_key msg),
    get-delete o.seen (seen_key msg) (seen_key msg),
  )

-- For a message with an id that is in progress, of a bot with a state: after a turn that succeeded
-- at `done`, the message is a duplicate exactly for the retention time; after one that failed, it
-- is none.
pub finish_then_admit :
    (o : Orchestrator) (st : BotState) (done later : ℕ) (msg : InboundMessage)
    → msg.message_id ≢ ""
    → get o.bots msg.bot_id ≡ some st
    → is_message_in_progress o msg ≡ true
    → (((admit_message (finish_message o done msg true) later msg).1 ≡ duplicate)
        ↔ (later - done < seen_message_ttl))
      × ((admit_message (finish_message o done msg false) later msg).1 ≢ duplicate)
finish_then_admit o st done later msg ne b h =
    let ok = admit_message_duplicate (finish_message o done msg true) later msg in
    let bad = admit_message_duplicate (finish_message o done msg false) later msg in
    let success = is_duplicate-finish_success o st done later msg ne b h in
    let failure = is_duplicate-finish_failure o st done later msg ne b h in
    ((λ d. success.0 (ok.0 d), λ t. ok.1 (success.1 t)), λ d. cc (failure, bad.0 d))

-- ===== src/Bot/Orchestrator/Soundness.antt =====
-- What a sound queue is, and that a message which is placed leaves it sound.
use channel_plugin.Prelude.{
  ℕ, zero, suc, ◌+◌, ◌<◌, ◌≤◌, String, ◌≡◌, ◌≢◌, refl, false, Option, none, some, [], ◌∷◌, length,
  length-append, ◌==◌, arith, Bool-cases, Option-cases, inl, inr,
}
use mathlib.Core.Path.{subst}
use channel_plugin.Prelude.Int.{ℤ, pos, negsuc}
use channel_plugin.GoMap.{get, get-put}
use channel_plugin.Bot.Messages.{InboundMessage}
use channel_plugin.Bot.Orchestrator.Defs.{
  Orchestrator, BotState, Worker, sweep, find_state, is_duplicate, mark_seen, place, put_state,
  try_send, admit_message, new_state, on_state, resize, queue_capacity,
}

abbrev pub Fits : Option Worker → Type 0
Fits none = Unit
Fits (some w) = (length w.queue ≤ w.cap) × (0 < w.cap)

-- A queue holds no more than its capacity, which is positive; while a worker runs no message waits
-- beside the queue, and its stop channel is open.
pub record IsSound (st : BotState) : Type 0 where
  pub fits : Fits st.worker
  pub waits : st.pending ≢ none → st.worker ≡ none
  pub open_ch : st.worker ≢ none → st.stop_ch ≡ some false

pub record AllSound (o : Orchestrator) : Type 0 where
  pub at : (bot : String) (st : BotState) → get o.bots bot ≡ some st → IsSound st

some_inj {ℓ} : {A : Type ℓ} {a b : A} → some a ≡ some b → a ≡ b
some_inj p = cc

pub put_state-AllSound :
    (o : Orchestrator) (bot : String) (st : BotState)
    → IsSound st
    → AllSound o
    → AllSound (put_state o bot st)
put_state-AllSound o bot st s h = record {
  at = λ b t p. elim (Bool-cases (bot == b)) [
    | inl e ↦ subst IsSound (some_inj {a = st} {b = t} (rw (get-put, e) at p)) s
    | inr e ↦ h.at b t (ground (arith, get-put o.bots bot b st))
  ];
}

try_send-Fits :
    (w w' : Worker) (msg : InboundMessage)
    → Fits (some w)
    → try_send w msg ≡ some w'
    → Fits (some w')
unfolding try_send
try_send-Fits w w' msg f h = ground (arith, length-append w.queue (msg ∷ []))

pub resize-IsSound : (n : ℤ) (st : BotState) → IsSound st → IsSound (resize (queue_capacity n) st)
unfolding resize
resize-IsSound (pos zero) st s = ground arith
resize-IsSound (pos (suc n)) st s = ground arith
resize-IsSound (negsuc n) st s = ground arith

-- A section that changes the bot's state alone keeps the invariant, if it keeps that state's.
pub on_state-AllSound :
    (f : BotState → BotState) (o : Orchestrator) (bot : String)
    → ((st : BotState) → IsSound st → IsSound (f st))
    → AllSound o
    → AllSound (on_state f o bot)
unfolding on_state
on_state-AllSound f o bot keep h = elim (Option-cases (get o.bots bot)) [
  | inl e ↦ rw (e, on_state) h
  | inr (st, e) ↦ rw (e, on_state) (put_state-AllSound o bot (f st) (keep st (h.at bot st e)) h)
]

new_state-IsSound : (id : ℕ) → IsSound (new_state id)
unfolding new_state
new_state-IsSound id = ground arith

-- The invariant speaks of the bots alone.
pub same_bots : {o o' : Orchestrator} → o'.bots ≡ o.bots → AllSound o → AllSound o'
same_bots {o} e h = record { at = λ b st p. h.at b st (rw e at p) }

find_state-AllSound : (o : Orchestrator) (bot : String) → AllSound o → AllSound (find_state o bot).0
unfolding find_state
find_state-AllSound o bot h = elim (Option-cases (get o.bots bot)) [
  | inl e ↦
      rw (e, find_state)
        (put_state-AllSound (record o { next_id = o.next_id + 1 }) bot _
          (new_state-IsSound o.next_id) (same_bots refl h))
  | inr (st, e) ↦ rw (e, find_state) h
]

find_state-IsSound : (o : Orchestrator) (bot : String) → AllSound o → IsSound (find_state o bot).1
unfolding find_state
find_state-IsSound o bot h = elim (Option-cases (get o.bots bot)) [
  | inl e ↦ rw (e, find_state) (new_state-IsSound o.next_id)
  | inr (st, e) ↦ rw (e, find_state) (h.at bot st e)
]

pub mark_seen-bots :
    (o : Orchestrator) (now : ℕ) (msg : InboundMessage) → (mark_seen o now msg).bots ≡ o.bots
unfolding mark_seen
mark_seen-bots o now msg = ground arith

pub sweep-bots : (o : Orchestrator) (now : ℕ) → (sweep o now).bots ≡ o.bots
unfolding sweep
sweep-bots o now = ground arith

-- What a send leaves of the state.
pub sent-IsSound :
    (st : BotState) (w w' : Worker) (msg : InboundMessage)
    → st.worker ≡ some w
    → try_send w msg ≡ some w'
    → IsSound st
    → IsSound (record st { worker = some w' })
sent-IsSound st w w' msg e t s = ground (arith, try_send-Fits w w' msg)

place-AllSound :
    (o : Orchestrator) (st : BotState) (now : ℕ) (msg : InboundMessage)
    → IsSound st
    → AllSound o
    → AllSound (place o st now msg).0
unfolding place
place-AllSound o st now msg s h = elim (Option-cases st.worker) [
  | inl e ↦
      rw (e, place)
        (same_bots (mark_seen-bots _ now msg) (
          put_state-AllSound o msg.bot_id (record st { pending = some msg }) (ground (arith, e)) h))
  | inr (w, e) ↦ elim (Option-cases (try_send w msg)) [
    | inl f ↦ rw (e, f, place) h
    | inr (w', f) ↦
        rw (e, f, place)
          (same_bots (mark_seen-bots _ now msg)
            (put_state-AllSound o msg.bot_id _ (sent-IsSound st w w' msg e f s) h))
  ]
]

pub admit-AllSound :
    (o : Orchestrator) (now : ℕ) (msg : InboundMessage)
    → AllSound o
    → AllSound (admit_message o now msg).0
unfolding admit_message
admit-AllSound o now msg h =
    let swept = same_bots (sweep-bots o now) h in
    let found = find_state-AllSound (sweep o now) msg.bot_id swept in
    let state = find_state-IsSound (sweep o now) msg.bot_id swept in
    elim (Bool-cases (is_duplicate (find_state (sweep o now) msg.bot_id).0 now msg)) [
      | inl e ↦ rw (e, admit_message) found
      | inr e ↦ rw (e, admit_message) (place-AllSound _ _ now msg state found)
    ]

-- ===== src/Bot/Orchestrator/Queues.antt =====
-- The queues of the bots' workers: bounds, order, and the message that waits for the worker to start.
use channel_plugin.Prelude.{
  ℕ, String, ◌≡◌, ◌⊎◌, refl, Bool, some, List, [], ◌∷◌, nat_eq, ◌==◌, arith, Bool-cases,
  Option-cases, inl, inr,
}
use channel_plugin.GoMap.{get, put, get-delete, get-empty}
use channel_plugin.Bot.Messages.{InboundMessage, target_of}
use channel_plugin.Bot.Orchestrator.Defs.{
  Orchestrator, BotState, Worker, try_send, new_orchestrator, ensure_worker, queue_message, receive,
  remember_reply_target, resize_worker_queue, mark_message_started, count_down, finish_seen,
  finish_message, stop_bot,
}
use channel_plugin.Bot.Orchestrator.Events.{
  Event, admits, ensures, sends, receives, remembers, resizes, starts, finishes, stops, apply, run,
  run_induction,
}
use channel_plugin.Bot.Orchestrator.Soundness.{
  IsSound, AllSound, put_state-AllSound, resize-IsSound, on_state-AllSound, same_bots, sent-IsSound,
  admit-AllSound,
}

start-AllSound :
    (o : Orchestrator) (bot : String) (id : ℕ) → AllSound o → AllSound (ensure_worker o bot id).0
unfolding ensure_worker
start-AllSound o bot id h = elim (Option-cases (get o.bots bot)) [
  | inl e ↦ rw (e, ensure_worker) h
  | inr (st, e) ↦ elim (Bool-cases (nat_eq st.id id)) [
    | inl n ↦ elim (Option-cases st.worker) [
      | inl w ↦ rw (e, n, w, ensure_worker) (put_state-AllSound o bot _ (ground arith) h)
      | inr (w, f) ↦ rw (e, n, f, ensure_worker) h
    ]
    | inr n ↦ rw (e, n, ensure_worker) h
  ]
]

queue_message-AllSound :
    (o : Orchestrator) (bot : String) (msg : InboundMessage)
    → AllSound o
    → AllSound (queue_message o bot msg).0
unfolding queue_message
queue_message-AllSound o bot msg h = elim (Option-cases (get o.bots bot)) [
  | inl e ↦ rw (e, queue_message) h
  | inr (st, e) ↦ elim (Option-cases st.worker) [
    | inl w ↦ rw (e, w, queue_message) h
    | inr (w, f) ↦ elim (Option-cases (try_send w msg)) [
      | inl t ↦ rw (e, f, t, queue_message) h
      | inr (w', t) ↦
          rw (e, f, t, queue_message)
            (put_state-AllSound o bot _ (sent-IsSound st w w' msg f t (h.at bot st e)) h)
    ]
  ]
]

received-IsSound :
    (st : BotState) (w : Worker) (msg : InboundMessage) (rest : List InboundMessage)
    → st.worker ≡ some w
    → w.queue ≡ msg ∷ rest
    → IsSound st
    → IsSound (record st { worker = some (record w { queue = rest }) })
received-IsSound st w msg rest e q s = ground arith

List-cases {ℓ} : {A : Type ℓ} (l : List A) → (l ≡ []) ⊎ ((x : A) × (xs : List A) × (l ≡ x ∷ xs))
List-cases [] = inl refl
List-cases (x ∷ xs) = inr (x, xs, refl)

receive-AllSound :
    (o : Orchestrator) (bot : String) → AllSound o → AllSound (apply o (receives bot))
unfolding apply receive
receive-AllSound o bot h = elim (Option-cases (get o.bots bot)) [
  | inl e ↦ rw (e, apply) h
  | inr (st, e) ↦ elim (Option-cases st.worker) [
    | inl w ↦ rw (e, w, apply) h
    | inr (w, f) ↦ elim (List-cases w.queue) [
      | inl q ↦ rw (e, f, q, apply) h
      | inr (msg, rest, q) ↦
          rw (e, f, q, apply)
            (put_state-AllSound o bot _ (received-IsSound st w msg rest f q (h.at bot st e)) h)
    ]
  ]
]

counted-IsSound : (st : BotState) → IsSound st → IsSound (count_down st)
counted-IsSound st s = ground arith

finish_bots :
    (o : Orchestrator) (now : ℕ) (st : BotState) (msg : InboundMessage) (b : Bool)
    → ((finish_seen o now st msg b).bots ≡ o.bots)
      ⊎ ((finish_seen o now st msg b).bots ≡ put o.bots msg.bot_id (count_down st))
unfolding finish_seen
finish_bots o now st msg b = ground arith

finish-AllSound :
    (o : Orchestrator) (now : ℕ) (msg : InboundMessage) (b : Bool)
    → AllSound o
    → AllSound (finish_message o now msg b)
unfolding finish_message
finish-AllSound o now msg b h = elim (Option-cases (get o.bots msg.bot_id)) [
  | inl e ↦ rw (e, finish_message) h
  | inr (st, e) ↦
      let counted =
        put_state-AllSound o msg.bot_id (count_down st) (counted-IsSound st (h.at msg.bot_id st e))
          h in
      elim (Bool-cases (msg.message_id == "")) [
        | inl n ↦ rw (e, n, finish_message) counted
        | inr n ↦
            rw (e, n, finish_message)
              (elim (finish_bots o now st msg b) [
                | inl same ↦ same_bots same h
                | inr put ↦ same_bots put counted
              ])
      ]
]

stop-AllSound : (o : Orchestrator) (bot : String) → AllSound o → AllSound (stop_bot o bot).0
unfolding stop_bot
stop-AllSound o bot h = elim (Option-cases (get o.bots bot)) [
  | inl e ↦ rw (e, stop_bot) h
  | inr (st, e) ↦
      rw (e, stop_bot) (record { at = λ b t p. h.at b t (ground (arith, get-delete o.bots bot b)) })
]

remember-AllSound :
    (o : Orchestrator) (msg : InboundMessage) → AllSound o → AllSound (remember_reply_target o msg)
unfolding remember_reply_target
remember-AllSound o msg h = elim (Bool-cases ((target_of msg).recipient_id == "")) [
  | inl e ↦ rw (e, remember_reply_target) h
  | inr e ↦
      rw (e, remember_reply_target) (on_state-AllSound _ o msg.bot_id (λ st s. ground arith) h)
]

apply-AllSound : (o : Orchestrator) (e : Event) → AllSound o → AllSound (apply o e)
unfolding apply
apply-AllSound o (admits now msg) h = admit-AllSound o now msg h
apply-AllSound o (ensures bot id) h = start-AllSound o bot id h
apply-AllSound o (sends bot msg) h = queue_message-AllSound o bot msg h
apply-AllSound o (receives bot) h = receive-AllSound o bot h
apply-AllSound o (remembers msg) h = remember-AllSound o msg h
apply-AllSound o (resizes bot n) h =
    unfold resize_worker_queue in on_state-AllSound _ o bot (resize-IsSound n) h
apply-AllSound o (starts msg) h =
    unfold mark_message_started in on_state-AllSound _ o msg.bot_id (λ st s. ground arith) h
apply-AllSound o (finishes now msg b) h = finish-AllSound o now msg b h
apply-AllSound o (stops bot) h = stop-AllSound o bot h

-- Whatever the goroutines do from the start on, in any order: no queue holds more than its capacity,
-- which is positive, a message waits beside the queue only while no worker runs, and a bot whose
-- worker runs can be stopped.
pub queues_sound : (es : List Event) → AllSound (run new_orchestrator es)
queues_sound es =
    run_induction AllSound apply-AllSound new_orchestrator es
      (record { at = λ b st p. cc (p, get-empty {V = BotState} b) })

-- ===== src/Feishu/Flushing.antt =====
-- What a trace session has asked for: one card at most.
use channel_plugin.Prelude.{
  ℕ, suc, ◌+◌, String, Bool, true, false, not, ◌||◌, Option, none, some, List, [], ◌∷◌, ◌++◌, ltb,
  arith, ◌==◌, ◌≡◌, ◌≢◌, refl, if◌then◌else◌, ◌⊎◌, inl, inr, eq_iff,
}
use channel_plugin.Feishu.Trace.{
  TraceTarget, Rpc, create_card, patch_card, Loop, not_started, waiting, pausing, creating, exited,
  TraceSession, new_trace_session, card, card_returned, after_flush, flush_now, flush_created,
  ensure_loop, ack, ack_returns, step, finish, Call, steps, finishes, call, Round, sees_closed,
  sees_wake, interval_ends, created_by_loop, wakes_up, flush_at, flush_loop,
}

-- how many cards were asked for
abbrev pub creates : List Rpc → ℕ
creates [] = 0
creates (create_card c r t ∷ rpcs) = suc (creates rpcs)
creates (patch_card m t ∷ rpcs) = creates rpcs

creates-append : (xs ys : List Rpc) → creates (xs ++ ys) ≡ creates xs + creates ys
creates-append [] ys = omega arith
creates-append (create_card c r t ∷ xs) ys = omega (arith, creates-append xs ys)
creates-append (patch_card m t ∷ xs) ys = omega (arith, creates-append xs ys)

abbrev pub last_of {ℓ} : {A : Type ℓ} → List A → Option A
last_of [] = none
last_of (x ∷ xs) = let later = last_of xs in elim later [ none ↦ some x | some y ↦ some y ]

pub last_of-append {ℓ} : {A : Type ℓ} (xs : List A) (x : A) → last_of (xs ++ x ∷ []) ≡ some x
last_of-append [] x = refl
last_of-append (y ∷ xs) x = ground (arith, last_of-append xs x)

abbrev pub in_call : Loop → Bool
in_call not_started = false
in_call waiting = false
in_call pausing = false
in_call (creating final) = true
in_call exited = false

-- What holds of a session at all times.
pub record Sound (s : TraceSession) : Type 0 where
  pub one_card :
      creates s.sent
      ≡ (if s.created || s.degraded || ltb 0 s.acking || in_call s.loop then 1 else 0)
  pub ack_first : (s.acking ≡ 0) ⊎ ((s.acking ≡ 1) × (s.loop ≡ not_started))
  pub call_first : ((s.acking ≡ 0) × (in_call s.loop ≡ false)) ⊎ (s.created || s.degraded ≡ false)
  pub last_closed : (s.loop ≢ creating true) ⊎ (s.closed ≡ true)
  pub closed_ends : (s.closed ≡ false) ⊎ (s.terminal ≢ "")
  pub closed_runs : (s.closed ≡ false) ⊎ (s.loop ≢ not_started)
  pub exited_closed : (s.loop ≢ exited) ⊎ (s.closed ≡ true)
  pub exited_shown : (s.loop ≢ exited) ⊎ (s.created || s.degraded ≡ true)

new_trace_session-Sound : (target : TraceTarget) → Sound (new_trace_session target)
unfolding new_trace_session
new_trace_session-Sound target = ground arith

-- `finish` is called with "done" or "fail".
abbrev pub names_end : Call → Bool
names_end (steps ev) = true
names_end (finishes kind reason) = not (kind == "")

-- The second end of a turn changes nothing.
pub finish_once :
    (kind reason kind' reason' : String) (s : TraceSession)
    → kind ≢ ""
    → finish kind' reason' (finish kind reason s) ≡ finish kind reason s
unfolding finish ensure_loop
finish_once kind reason kind' reason' s h = ground (arith, eq_iff s.terminal "", eq_iff kind "")

pub call-Sound :
    (c : Call) (s : TraceSession) → names_end c ≡ true → s.acking ≡ 0 → Sound s → Sound (call c s)
unfolding call step finish ensure_loop
call-Sound (steps ev) s h a v = ground arith
call-Sound (finishes kind reason) s h a v = ground (arith, eq_iff s.terminal "", eq_iff kind "")

module _ (json : String → String) (elapsed : ℕ) where
  flush_now-Sound :
      (final : Bool) (s : TraceSession)
      → in_call s.loop ≡ false
      → s.acking ≡ 0
      → s.loop ≢ not_started
      → (final ≡ false) ⊎ (s.closed ≡ true)
      → Sound s
      → Sound (flush_now json elapsed final s)
  unfolding flush_now after_flush
  flush_now-Sound final s l a n f v =
      let rpc = create_card s.target.chat_id s.target.reply_message_id (card json elapsed s) in
      let rpc' = patch_card s.message_id (card json elapsed s) in
      ground (arith, creates-append s.sent (rpc ∷ []), creates-append s.sent (rpc' ∷ []))

  flush_created-Sound :
      (final : Bool) (answer : Option String) (s : TraceSession)
      → s.loop ≡ creating final
      → Sound s
      → Sound (flush_created json elapsed final answer s)
  unfolding flush_created card_returned after_flush
  flush_created-Sound final none s l v = ground arith
  flush_created-Sound true (some id) s l v =
      let s' = card_returned (some id) s in
      let rpc = patch_card s'.message_id (card json elapsed s') in
      ground (arith, creates-append s.sent (rpc ∷ []))
  flush_created-Sound false (some id) s l v = ground arith

  -- a flush that begins at a place of the loop
  flush_begins :
      (final : Bool) (s : TraceSession)
      → (s.loop ≡ waiting) ⊎ (s.loop ≡ pausing)
      → (final ≡ false) ⊎ (s.closed ≡ true)
      → Sound s
      → Sound (flush_now json elapsed final s)
  flush_begins final s at f v =
      flush_now-Sound final s (ground arith) (ground arith) (ground arith) f v

  if-Sound :
      (b : Bool) (s s' : TraceSession)
      → (b ≡ true → Sound s)
      → Sound s'
      → Sound (if b then s else s')
  if-Sound true s s' f v = f refl
  if-Sound false s s' f v = v

  wakes-Sound :
      (passed : Bool) (s : TraceSession)
      → s.loop ≡ waiting
      → Sound s
      → Sound (wakes_up json elapsed passed s)
  unfolding wakes_up
  wakes-Sound true s at v =
      flush_begins false (record s { wake = false }) (inl at) (inl refl) (ground arith)
  wakes-Sound false s at v = ground arith

  flush_at-Sound :
      (l : Loop) (r : Round) (s : TraceSession)
      → s.loop ≡ l
      → Sound s
      → Sound (flush_at json elapsed l r s)
  unfolding flush_at
  flush_at-Sound waiting sees_closed s at v =
      if-Sound s.closed _ _ (λ c. flush_begins true s (inl at) (inr c) v) v
  flush_at-Sound pausing sees_closed s at v =
      if-Sound s.closed _ _ (λ c. flush_begins true s (inr at) (inr c) v) v
  flush_at-Sound waiting (sees_wake passed) s at v =
      if-Sound s.wake _ _ (λ w. wakes-Sound passed s at v) v
  flush_at-Sound pausing interval_ends s at v = flush_begins false s (inr at) (inl refl) v
  flush_at-Sound (creating final) (created_by_loop answer) s at v =
      flush_created-Sound final answer s at v
  flush_at-Sound not_started sees_closed s at v = v
  flush_at-Sound not_started (sees_wake passed) s at v = v
  flush_at-Sound not_started interval_ends s at v = v
  flush_at-Sound not_started (created_by_loop answer) s at v = v
  flush_at-Sound exited sees_closed s at v = v
  flush_at-Sound exited (sees_wake passed) s at v = v
  flush_at-Sound exited interval_ends s at v = v
  flush_at-Sound exited (created_by_loop answer) s at v = v
  flush_at-Sound (creating final) sees_closed s at v = v
  flush_at-Sound (creating final) (sees_wake passed) s at v = v
  flush_at-Sound (creating final) interval_ends s at v = v
  flush_at-Sound waiting interval_ends s at v = v
  flush_at-Sound waiting (created_by_loop answer) s at v = v
  flush_at-Sound pausing (sees_wake passed) s at v = v
  flush_at-Sound pausing (created_by_loop answer) s at v = v

  pub flush_loop-Sound :
      (r : Round) (s : TraceSession) → Sound s → Sound (flush_loop json elapsed r s)
  unfolding flush_loop
  flush_loop-Sound r s v = flush_at-Sound s.loop r s refl v

  ack-Sound :
      (s : TraceSession)
      → s.loop ≡ not_started
      → s.acking ≡ 0
      → Sound s
      → Sound (ack json elapsed s)
  unfolding ack ensure_loop
  ack-Sound s l a v =
      let rpc = create_card s.target.chat_id s.target.reply_message_id (card json elapsed s) in
      ground (arith, creates-append s.sent (rpc ∷ []))

  ack_returns-Sound :
      (answer : Option String) (s : TraceSession) → Sound s → Sound (ack_returns answer s)
  unfolding ack_returns card_returned ensure_loop
  ack_returns-Sound none s v = ground arith
  ack_returns-Sound (some id) s v = ground arith

  -- The moves of a session: `Ack`, which is called before anything else, the calls of the driver, after
  -- `Ack` has returned, and the rounds of the loop.
  pub data Move : TraceSession → TraceSession → Type 0 where
    acks : (s : TraceSession) → s.loop ≡ not_started → s.acking ≡ 0 → Move s (ack json elapsed s)
    ack_ends : (answer : Option String) (s : TraceSession) → Move s (ack_returns answer s)
    calling : (c : Call) (s : TraceSession) → names_end c ≡ true → s.acking ≡ 0 → Move s (call c s)
    round : (r : Round) (s : TraceSession) → Move s (flush_loop json elapsed r s)

  pub data Reachable (target : TraceTarget) : TraceSession → Type 0 where
    begun : Reachable target (new_trace_session target)
    moved : {s s' : TraceSession} → Reachable target s → Move s s' → Reachable target s'

  Move-Sound : {s s' : TraceSession} → Move s s' → Sound s → Sound s'
  Move-Sound (acks s l a) v = ack-Sound s l a v
  Move-Sound (ack_ends answer s) v = ack_returns-Sound answer s v
  Move-Sound (calling c s h a) v = call-Sound c s h a v
  Move-Sound (round r s) v = flush_loop-Sound r s v

  -- Where `Ack` is called before the steps and the end of a turn and has returned by then, as the
  -- orchestrator does it: however the calls and the rounds of the loop are mixed, and whatever comes
  -- while a card is being created, a session asks for one card at most, and its loop ends only
  -- after the end of the turn, with the card asked for and answered.
  pub Reachable-Sound : {target : TraceTarget} {s : TraceSession} → Reachable target s → Sound s
  Reachable-Sound {target} begun = new_trace_session-Sound target
  Reachable-Sound (moved r m) = Move-Sound m (Reachable-Sound r)

-- ===== src/Feishu/Finishing.antt =====
-- The end of a turn in its trace card.
use channel_plugin.Prelude.{
  ℕ, ◌<◌, String, Bool, true, false, Option, none, some, List, [], ◌∷◌, length, arith, ◌≡◌, ◌≢◌,
  refl, if◌then◌else◌, ◌⊎◌, inl, inr, eq_iff,
}
use channel_plugin.Feishu.Trace.{
  TraceTarget, patch_card, Loop, not_started, waiting, pausing, creating, exited, TraceSession,
  card, card_returned, after_flush, flush_now, flush_created, ensure_loop, finish, finishes, call,
  Round, sees_closed, sees_wake, interval_ends, created_by_loop, wakes_up, flush_at, flush_loop,
  snapshot,
}
use channel_plugin.Feishu.Flushing.{
  last_of, last_of-append, Sound, call-Sound, Reachable, Reachable-Sound, flush_loop-Sound,
}

module _ (json : String → String) (elapsed : ℕ) where
  -- The card could not be created, or the last call patches it with the state of the session.
  abbrev pub Shown : TraceSession → Type 0
  Shown s =
      (s.degraded ≡ true) ⊎ (last_of s.sent ≡ some (patch_card s.message_id (card json elapsed s)))

  -- what a round keeps of an end that waits for the loop
  record Ends (kind : String) (s : TraceSession) : Type 0 where
    closed : s.closed ≡ true
    terminal : s.terminal ≡ kind
    shown : (s.loop ≢ exited) ⊎ Shown s

  flush_now-Ends :
      (kind : String) (final : Bool) (s : TraceSession)
      → Ends kind s
      → Ends kind (flush_now json elapsed final s)
  unfolding flush_now after_flush snapshot
  flush_now-Ends kind final s v =
      ground (arith, last_of-append s.sent (patch_card s.message_id (card json elapsed s)))

  flush_created-Ends :
      (kind : String) (final : Bool) (answer : Option String) (s : TraceSession)
      → Ends kind s
      → Ends kind (flush_created json elapsed final answer s)
  unfolding flush_created card_returned after_flush snapshot
  flush_created-Ends kind final none s v = ground arith
  flush_created-Ends kind true (some id) s v =
      let s' = card_returned (some id) s in
      ground (arith, last_of-append s'.sent (patch_card s'.message_id (card json elapsed s')))
  flush_created-Ends kind false (some id) s v = ground arith

  wakes_up-Ends :
      (kind : String) (passed : Bool) (s : TraceSession)
      → s.loop ≡ waiting
      → Ends kind s
      → Ends kind (wakes_up json elapsed passed s)
  unfolding wakes_up
  wakes_up-Ends kind true s at v =
      flush_now-Ends kind false (record s { wake = false }) (ground arith)
  wakes_up-Ends kind false s at v = ground arith

  if-Ends :
      (kind : String) (b : Bool) (s s' : TraceSession)
      → Ends kind s
      → Ends kind s'
      → Ends kind (if b then s else s')
  if-Ends kind true s s' v v' = v
  if-Ends kind false s s' v v' = v'

  flush_at-Ends :
      (kind : String) (l : Loop) (r : Round) (s : TraceSession)
      → s.loop ≡ l
      → Ends kind s
      → Ends kind (flush_at json elapsed l r s)
  unfolding flush_at
  flush_at-Ends kind waiting sees_closed s at v =
      if-Ends kind s.closed _ _ (flush_now-Ends kind true s v) v
  flush_at-Ends kind pausing sees_closed s at v =
      if-Ends kind s.closed _ _ (flush_now-Ends kind true s v) v
  flush_at-Ends kind waiting (sees_wake passed) s at v =
      if-Ends kind s.wake _ _ (wakes_up-Ends kind passed s at v) v
  flush_at-Ends kind pausing interval_ends s at v = flush_now-Ends kind false s v
  flush_at-Ends kind (creating final) (created_by_loop answer) s at v =
      flush_created-Ends kind final answer s v
  flush_at-Ends kind not_started sees_closed s at v = v
  flush_at-Ends kind not_started (sees_wake passed) s at v = v
  flush_at-Ends kind not_started interval_ends s at v = v
  flush_at-Ends kind not_started (created_by_loop answer) s at v = v
  flush_at-Ends kind exited sees_closed s at v = v
  flush_at-Ends kind exited (sees_wake passed) s at v = v
  flush_at-Ends kind exited interval_ends s at v = v
  flush_at-Ends kind exited (created_by_loop answer) s at v = v
  flush_at-Ends kind (creating final) sees_closed s at v = v
  flush_at-Ends kind (creating final) (sees_wake passed) s at v = v
  flush_at-Ends kind (creating final) interval_ends s at v = v
  flush_at-Ends kind waiting interval_ends s at v = v
  flush_at-Ends kind waiting (created_by_loop answer) s at v = v
  flush_at-Ends kind pausing (sees_wake passed) s at v = v
  flush_at-Ends kind pausing (created_by_loop answer) s at v = v

  pub rounds : List Round → TraceSession → TraceSession
  rounds [] s = s
  rounds (r ∷ rs) s = rounds rs (flush_loop json elapsed r s)

  rounds-Ends :
      (kind : String) (rs : List Round) (s : TraceSession)
      → Ends kind s × Sound s
      → Ends kind (rounds rs s) × Sound (rounds rs s)
  unfolding rounds flush_loop
  rounds-Ends kind [] s v = v
  rounds-Ends kind (r ∷ rs) s (e, v) =
      rounds-Ends kind rs (flush_loop json elapsed r s)
        (flush_at-Ends kind s.loop r s refl e, flush_loop-Sound json elapsed r s v)

  -- the places of the loop on the way to its end
  returned :
      (l : Loop) (answer : Option String) (s : TraceSession)
      → s.loop ≡ l
      → s.loop ≢ not_started
      → let s' = flush_at json elapsed l (created_by_loop answer) s in
        (s'.loop ≡ waiting) ⊎ ((s'.loop ≡ pausing) ⊎ (s'.loop ≡ exited))
  unfolding flush_at flush_created card_returned after_flush
  returned not_started answer s at n = absurd (n at)
  returned waiting answer s at n = inl at
  returned pausing answer s at n = inr (inl at)
  returned exited answer s at n = inr (inr at)
  returned (creating true) none s at n = inr (inr refl)
  returned (creating true) (some id) s at n = inr (inr refl)
  returned (creating false) none s at n = inl refl
  returned (creating false) (some id) s at n = inl refl

  closing :
      (l : Loop) (s : TraceSession)
      → s.loop ≡ l
      → (l ≡ waiting) ⊎ ((l ≡ pausing) ⊎ (l ≡ exited))
      → s.closed ≡ true
      → let s' = flush_at json elapsed l sees_closed s in
        (s'.loop ≡ exited) ⊎ (s'.loop ≡ creating true)
  unfolding flush_at flush_now after_flush
  closing waiting s at o c = ground arith
  closing pausing s at o c = ground arith
  closing exited s at o c = inl at
  closing not_started s at o c = ground arith
  closing (creating final) s at o c = ground arith

  over :
      (l : Loop) (answer : Option String) (s : TraceSession)
      → s.loop ≡ l
      → (l ≡ exited) ⊎ (l ≡ creating true)
      → (flush_at json elapsed l (created_by_loop answer) s).loop ≡ exited
  unfolding flush_at flush_created card_returned after_flush
  over exited answer s at o = at
  over (creating true) none s at o = refl
  over (creating true) (some id) s at o = refl
  over (creating false) answer s at o = ground arith
  over not_started answer s at o = ground arith
  over waiting answer s at o = ground arith
  over pausing answer s at o = ground arith

  finish-Ends :
      (kind reason : String) (s : TraceSession)
      → Sound s
      → kind ≢ ""
      → s.terminal ≡ ""
      → (s.created ≡ true) ⊎ (0 < length s.steps)
      → Ends kind (finish kind reason s)
  unfolding finish ensure_loop
  finish-Ends kind reason s v h open_end visible = ground (arith, eq_iff s.terminal "")

  -- An end that waits for the loop is not left waiting: whatever rounds the loop then goes through, once
  -- a call for a card that is under way has returned, the loop has seen that the session is closed, and
  -- the call for a card that it may make upon that has returned, the loop has ended, and unless the
  -- card could not be created the last thing sent is the card with the end.
  pub finish_shows :
      {target : TraceTarget} (kind reason : String) (s : TraceSession) (rs : List Round)
      (first second : Option String)
      → Reachable json elapsed target s
      → s.acking ≡ 0
      → kind ≢ ""
      → s.terminal ≡ ""
      → (s.created ≡ true) ⊎ (0 < length s.steps)
      → let s' =
          rounds
            (created_by_loop first ∷ sees_closed ∷ created_by_loop second ∷ [])
            (rounds rs (finish kind reason s)) in
        (s'.loop ≡ exited) × (s'.terminal ≡ kind) × Shown s'
  unfolding call rounds flush_loop
  finish_shows kind reason s rs first second reached a h open_end visible =
      let v = Reachable-Sound json elapsed reached in
      let v' = call-Sound (finishes kind reason) s (ground (arith, eq_iff kind "")) a v in
      let (e₀, v₀) =
        rounds-Ends kind rs (finish kind reason s)
          (finish-Ends kind reason s v h open_end visible, v') in
      let s₀ = rounds rs (finish kind reason s) in
      let s₁ = flush_loop json elapsed (created_by_loop first) s₀ in
      let s₂ = flush_loop json elapsed sees_closed s₁ in
      let (e₃, v₃) =
        rounds-Ends kind (created_by_loop first ∷ sees_closed ∷ created_by_loop second ∷ []) s₀
          (e₀, v₀) in
      let (e₁, v₁) = rounds-Ends kind (created_by_loop first ∷ []) s₀ (e₀, v₀) in
      let at₁ = returned s₀.loop first s₀ refl (ground (arith, v₀.closed_runs, e₀.closed)) in
      let at₂ = closing s₁.loop s₁ refl at₁ e₁.closed in
      let at₃ = over s₂.loop second s₂ refl at₂ in (at₃, e₃.terminal, ground (arith, e₃.shown, at₃))

-- ===== src/Bot/Connections/Starting.antt =====
-- A runtime that `Start` has started is either the recorded one or stopped, and no reservation is left
-- behind, whatever other goroutines do meanwhile.
use channel_plugin.Prelude.{
  if◌then◌else◌, ◌==◌, ◌&&◌, ℕ, String, ◌≡◌, ◌≢◌, ◌⊎◌, refl, true, false, none, some, arith, eq_iff,
  eq_refl, Option-cases, inl, inr,
}
use channel_plugin.GoMap.{get, put, get-put, get-delete}
use channel_plugin.Channel.{StartRuntimeRequest}
use channel_plugin.Domain.{Bot}
use channel_plugin.Bot.Connections.Defs.{
  Handles, Services, StateEvent, StartError, Prepared, refused, connected, failed, stopped, unknown,
  ready, prepare, release, commit, start, handle_state, active,
}

module _ (h : Handles) (bot_id : String) where
  released : get (release h bot_id) bot_id ≢ some none
  unfolding release
  released e = ground (arith, get-delete h bot_id bot_id, eq_refl bot_id)

  released_ne : (b : String) → bot_id ≢ b → get (release h bot_id) b ≡ get h b
  unfolding release
  released_ne b ne = ground (arith, get-delete h bot_id b, eq_iff bot_id b)

module _ (h : Handles) (bot_id : String) (k : ℕ) where
  committed : get (commit h bot_id k).handles bot_id ≢ some none
  unfolding commit
  committed e = ground (arith, released h bot_id, get-put h bot_id bot_id (some k), eq_refl bot_id)

  committed_ne : (b : String) → bot_id ≢ b → get (commit h bot_id k).handles b ≡ get h b
  unfolding commit
  committed_ne b ne =
      ground (arith, released_ne h bot_id b ne, get-put h bot_id b (some k), eq_iff bot_id b)

Prepared-cases :
    (p : Prepared)
    → ((r : StartRuntimeRequest) × (p ≡ ready r)) ⊎ ((e : StartError) × (p ≡ refused e))
Prepared-cases (ready r) = inl (r, refl)
Prepared-cases (refused e) = inr (e, refl)

module _ (s : Services) (others : Handles → Handles) (h : Handles) (bot_id : String) where
  recorded :
      (start s others h bot_id).error ≡ none
      → (req : StartRuntimeRequest) × (k : ℕ) × (prepare s bot_id ≡ ready req)
        × (s.start_runtime req ≡ some k)
        × (get (start s others h bot_id).handles bot_id ≡ some (some k))
        × ((start s others h bot_id).stopped ≡ none)
  unfolding start commit
  recorded e =
      let h' = others (put h bot_id none) in
      elim (Prepared-cases (prepare s bot_id)) [
        | inl (req, p) ↦ elim (Option-cases (s.start_runtime req)) [
          | inl q ↦ absurd (ground arith)
          | inr (k, q) ↦ (
            req,
            k,
            p,
            q,
            ground (arith, get-put h' bot_id bot_id (some k), eq_refl bot_id),
            ground arith,
          )
        ]
        | inr (err, p) ↦ absurd (ground arith)
      ]

  -- A start that succeeds has recorded the runtime that it started for the request, and stopped none.
  pub start_records :
      (start s others h bot_id).error ≡ none
      → (req : StartRuntimeRequest) × (k : ℕ) × (prepare s bot_id ≡ ready req)
        × (s.start_runtime req ≡ some k)
        × (get (start s others h bot_id).handles bot_id ≡ some (some k))
        × ((start s others h bot_id).stopped ≡ none)
  unfolding start active commit
  start_records e = recorded e

  -- A start of a bot that was not active stops the runtime that it has started, if it fails after that.
  pub start_stops :
      (req : StartRuntimeRequest) (k : ℕ)
      → (start s others h bot_id).error ≢ none
      → active h bot_id ≡ false
      → prepare s bot_id ≡ ready req
      → s.start_runtime req ≡ some k
      → (start s others h bot_id).stopped ≡ some k
  unfolding start active commit
  start_stops req k e i p q = ground arith

  start_handles :
      active h bot_id ≡ false
      → let h' = others (put h bot_id none) in
        ((start s others h bot_id).handles ≡ release h' bot_id)
        ⊎ ((k : ℕ) × ((start s others h bot_id).handles ≡ (commit h' bot_id k).handles))
  unfolding start active
  start_handles i = elim (Option-cases (get h bot_id)) [
    | inr (x, e) ↦ absurd (ground (arith, e))
    | inl e ↦ elim (Prepared-cases (prepare s bot_id)) [
      | inr (err, p) ↦ inl (rw (e, p, start))
      | inl (req, p) ↦ elim (Option-cases (s.start_runtime req)) [
        | inl q ↦ inl (rw (e, p, q, start))
        | inr (k, q) ↦ inr (k, rw (e, p, q, start))
      ]
    ]
  ]

  -- A start of a bot that was not active leaves it recorded or free, never reserved, and touches
  -- no other bot but by what other goroutines do.
  pub start_settles :
      active h bot_id ≡ false
      → (get (start s others h bot_id).handles bot_id ≢ some none)
        × ((b : String)
            → bot_id ≢ b
            → get (start s others h bot_id).handles b ≡ get (others (put h bot_id none)) b)
  start_settles i = elim (start_handles i) [
    | inl e ↦ rw e (released _ bot_id, released_ne _ bot_id)
    | inr (k, e) ↦ rw e (committed _ bot_id k, committed_ne _ bot_id k)
  ]

-- A state event frees its bot for a new start exactly if `onStop` is called, which is for an error or
-- a stop; no other bot is touched.
pub handle_state_frees :
    (h : Handles) (bot : Bot) (ev : StateEvent) (b : String)
    → let (h', row, notified) = handle_state h bot ev in
      (active h' b ≡ (if notified && bot.id == b then false else active h b))
      × (notified
          ≡ (elim ev [ connected ↦ false | unknown ↦ false | stopped ↦ true | failed err ↦ true ]))
unfolding handle_state active
handle_state_frees h bot connected b = (refl, refl)
handle_state_frees h bot unknown b = (refl, refl)
handle_state_frees h bot (failed err) b = (ground (arith, get-delete h bot.id b), refl)
handle_state_frees h bot stopped b = (ground (arith, get-delete h bot.id b), refl)

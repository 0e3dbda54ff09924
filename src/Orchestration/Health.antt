-- ===== src/Orchestration/Health.antt =====
-- internal/app/orchestration/health.go and registry.go.
use channel_plugin.Prelude.{
  ◌⊎◌, ℕ, ◌+◌, ◌-◌, String, ◌≡◌, refl, ap, Bool, true, false, not, ◌&&◌, none, some, List, [], ◌∷◌,
  map, arith, ◌++◌, length, ltb, ◌==◌, Bool-cases, inl, inr, if◌then◌else◌,
}
use channel_plugin.Domain.{
  Bot, RegisteredAgent, kind_local, kind_remote, healthy, unhealthy, type_subagent,
}

-- Is the agent remote, healthy, and has its heartbeat passed the time to live? `clock a` is the clock
-- where the sweep looks at `a`; a heartbeat of the future is no older than `ttl`, which is not negative.
unfoldable pub is_overdue : ℕ → (RegisteredAgent → ℕ) → RegisteredAgent → Bool
is_overdue ttl clock a =
    a.kind == kind_remote
    && a.health == healthy
    && (elim a.last_heartbeat [ none ↦ false | some t ↦ ltb ttl (clock a - t) ])

-- What `SweepStaleAgents` leaves: the agents that it wrote, how many it marked, and whether a write
-- failed.
pub record Swept : Type 0 where
  pub written : List RegisteredAgent
  pub marked : ℕ
  pub failed : Bool

abbrev pub mark_unhealthy : RegisteredAgent → RegisteredAgent
mark_unhealthy a = record a { health = unhealthy }

-- The loop of `SweepStaleAgents`; `upsert` tells whether a write succeeds.
sweep_from : (RegisteredAgent → Bool) → ℕ → (RegisteredAgent → ℕ) → ℕ → List RegisteredAgent → Swept
unfolding is_overdue
sweep_from upsert ttl clock marked [] = record { written = []; marked = marked; failed = false }
sweep_from upsert ttl clock marked (a ∷ more) =
    let skipped = sweep_from upsert ttl clock marked more in
    let rest = sweep_from upsert ttl clock (marked + 1) more in
    if not (is_overdue ttl clock a)
    then skipped
    else if upsert (mark_unhealthy a)
    then record rest { written = mark_unhealthy a ∷ rest.written }
    else record { written = []; marked = marked; failed = true }

unfoldable pub sweep_stale_agents :
    (RegisteredAgent → Bool) → ℕ → (RegisteredAgent → ℕ) → List RegisteredAgent → Swept
unfolding sweep_from
sweep_stale_agents upsert ttl clock agents = sweep_from upsert ttl clock 0 agents

-- `SyncLocalAgents`: the agents that are written, and whether a write failed; `ids` draws the ids.
unfoldable pub sync_local_agents :
    (RegisteredAgent → Bool) → (Bot → String) → List Bot → List RegisteredAgent × Bool
sync_local_agents upsert ids [] = ([], false)
sync_local_agents upsert ids (b ∷ bs) =
    let rest = sync_local_agents upsert ids bs in
    let a : RegisteredAgent = record {
      id = ids b;
      name = b.name;
      description = b.name;
      kind = kind_local;
      bot_id = b.id;
      endpoint = "";
      auth_token = "";
      health = healthy;
      last_heartbeat = none;
    } in
    if not (b.type == type_subagent)
    then rest
    else if upsert a
    then (a ∷ rest.0, rest.1)
    else ([], true)

-- the agents that a sweep has to mark
abbrev pub overdue : ℕ → (RegisteredAgent → ℕ) → List RegisteredAgent → List RegisteredAgent
overdue ttl clock [] = []
overdue ttl clock (a ∷ more) =
    let rest = overdue ttl clock more in if is_overdue ttl clock a then a ∷ rest else rest

-- `xs` begins with `ys`
abbrev pub Begins : List RegisteredAgent → List RegisteredAgent → Type 0
Begins xs ys = (zs : List RegisteredAgent) × (xs ≡ ys ++ zs)

module _ (upsert : RegisteredAgent → Bool) (ttl : ℕ) (clock : RegisteredAgent → ℕ) where
  sweep_from_lem :
      (marked : ℕ) (agents : List RegisteredAgent)
      → let s = sweep_from upsert ttl clock marked agents in
        (s.marked ≡ marked + length s.written)
        × Begins (map mark_unhealthy (overdue ttl clock agents)) s.written
        × (s.failed ≡ false → s.written ≡ map mark_unhealthy (overdue ttl clock agents))
  unfolding sweep_from
  sweep_from_lem marked [] = (omega arith, ([], refl), λ h. refl)
  sweep_from_lem marked (a ∷ more) = elim (Bool-cases (is_overdue ttl clock a)) [
    | inr e ↦ rw (e, sweep_from) (sweep_from_lem marked more)
    | inl e ↦
        let ih = sweep_from_lem (marked + 1) more in
        elim (Bool-cases (upsert (mark_unhealthy a))) [
          | inl u ↦
              rw (e, u, sweep_from)
                (
                  omega (arith, ih.0),
                  (ih.1.0, ap (◌∷◌ (mark_unhealthy a)) ih.1.1),
                  λ h. ap (◌∷◌ (mark_unhealthy a)) (ih.2 h),
                )
          | inr u ↦ rw (e, u, sweep_from) (omega arith, (_, refl), λ h. cc)
        ]
  ]

  -- A sweep writes the overdue agents, in the order of the registry and as unhealthy, up to the first
  -- write that fails, and counts the writes that succeed. If
  -- none fails it writes them all.
  pub sweep_stale_agents_lem :
      (agents : List RegisteredAgent)
      → let s = sweep_stale_agents upsert ttl clock agents in
        (s.marked ≡ length s.written)
        × Begins (map mark_unhealthy (overdue ttl clock agents)) s.written
        × ((s.failed ≡ true) ⊎ (s.written ≡ map mark_unhealthy (overdue ttl clock agents)))
  unfolding sweep_stale_agents
  sweep_stale_agents_lem agents =
      let h = sweep_from_lem 0 agents in
      (
        omega (arith, h.0),
        h.1,
        elim (Bool-cases (sweep_from upsert ttl clock 0 agents).failed) [
          | inl e ↦ inl e
          | inr e ↦ inr (h.2 e)
        ],
      )

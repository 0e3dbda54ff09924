-- ===== src/Agent/Session/Turns.antt =====
-- Turns: `Send`, and the ticks of scheduled tasks.
use channel_plugin.Prelude.{
  ℕ, String, ◌≡◌, ◌≢◌, true, false, not, ◌&&◌, Option, none, some, arith, ◌==◌, eq_iff, is_some,
  if◌then◌else◌,
}
use channel_plugin.GoMap.{get, get-delete}
use channel_plugin.Agent.Types.{
  ready, broken, stopped, Spec, ScheduledTask, Request, PushResponse, has_empty_args,
  deep_equal-clone_spec,
}
use channel_plugin.Agent.Session.Defs.{
  Session, RunResult, Tick, new_session, send, matches, tick_request, run_tick, after_tick, fire,
}

-- A session that was made for a spec matches it exactly if the spec's arguments are not an empty
-- slice that is not nil.
pub matches-new_session :
    (init : Spec → Option ℕ) (spec : Spec) (s : Session)
    → new_session init spec ≡ some s
    → matches s spec ≡ not (has_empty_args spec)
unfolding new_session matches
matches-new_session init spec s h = ground (arith, deep_equal-clone_spec spec)

after_tick-tasks :
    (t : Tick) (id j : String)
    → get (after_tick t id).session.tasks j
      ≡ (if not t.goes_on && id == j then none else get t.session.tasks j)
unfolding after_tick
after_tick-tasks t id j = ground (arith, get-delete t.session.tasks id j, eq_iff id j)

module _ (answer : ℕ → Request → RunResult) (others : Session → Session) (s : Session) where
  -- A turn of a session that has a runtime returns what the runtime answered, frees the session, and
  -- leaves it ready, or broken if the runtime failed.
  pub send_lem :
      (req : Request) (r : ℕ)
      → s.runtime ≡ some r
      → let (t, result) = send answer others s req in
        (result ≡ some (answer r req))
        × (t.locked ≡ false)
        × (t.state ≡ (if is_some (answer r req).error then broken else ready))
  unfolding send
  send_lem req r h = ground arith

  module _ (task : ScheduledTask) where
    -- A tick that finds a turn in flight changes nothing, pushes nothing and keeps the task.
    pub tick_skips :
        s.locked ≡ true
        → run_tick answer others s task ≡ record { session = s; goes_on = true; push = none }
    unfolding run_tick
    tick_skips h = ground arith

    -- What a tick pushes is the answer of the session's runtime to the task's prompt, under the task's
    -- id, from a session that was free and neither broken nor stopped; the session is then ready.
    pub tick_pushes :
        (k : ℕ) (p : PushResponse)
        → (run_tick answer others s task).push ≡ some (k, p)
        → (r : ℕ) × (s.runtime ≡ some r)
          × (p.response ≡ (answer r (tick_request s task)).response)
          × ((answer r (tick_request s task)).error ≡ none)
          × (p.task_id ≡ task.id)
          × (s.locked ≡ false)
          × (s.state ≢ broken)
          × (s.state ≢ stopped)
          × ((run_tick answer others s task).session.state ≡ ready)
    unfolding run_tick
    tick_pushes k p h = ground arith

    -- A firing of the ticker touches no other task than its own, and that exactly if it must stop.
    pub fire_lem :
        (j : String)
        → let t = run_tick answer others s task in
          get (fire answer others s task).session.tasks j
          ≡ (if not t.goes_on && task.id == j then none else get t.session.tasks j)
    fire_lem j = unfold fire in after_tick-tasks (run_tick answer others s task) task.id j

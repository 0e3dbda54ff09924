-- ===== src/Orchestration/Scheduling.antt =====
-- internal/app/orchestration/schedule_mcp.go: the tools by which a bot schedules prompts on its own
-- session. The scheduler is the session manager; Go's `time.ParseDuration` and `Duration.String` are
-- parameters.
use channel_plugin.Prelude.{
  String, ◌≡◌, ◌≢◌, refl, ◌∙◌, Bool, true, false, Option, none, some, List, get_elem?, map, arith,
  ◌==◌, eq_iff, eq_refl, ap, Bool-cases, Option-cases, inl, inr, if◌then◌else◌,
}
use channel_plugin.Prelude.Int.{ℤ, pos, lt_ℤ}
use channel_plugin.Prelude.Text.{trim_space, is_blank}
use channel_plugin.Agent.Types.{ScheduledTask}
use channel_plugin.Agent.Session
use channel_plugin.Agent.Session.Tasks.{schedule_registers, cancel_task_lem}
use channel_plugin.Agent.Manager.Defs.{
  Manager, ScheduleReply, no_session, replied, session_of, address, update_at, schedule,
  cancel_task, tasks,
}
use channel_plugin.Agent.Manager.Replacement.{get_elem?-update_at_self, sessions-update_at}

pub data ToolError : Type 0 where
  not_configured no_identity bad_interval interval_too_short no_prompt : ToolError
  -- the manager refuses the task
  refused : ScheduleReply → ToolError

pub data ToolReply {ℓ} (A : Type ℓ) : Type ℓ where
  done : A → ToolReply A
  denied : ToolError → ToolReply A

-- `schedulerFor`: `none` is a server without a scheduler; the bot's id comes from the request, and is
-- "" where it is unknown.
unfoldable pub scheduler_for : Option Manager → String → ToolReply Manager
scheduler_for none bot = denied not_configured
scheduler_for (some m) bot = if bot == "" then denied no_identity else done m

-- `minScheduleInterval`, a second in nanoseconds
abbrev pub min_schedule_interval : ℤ
min_schedule_interval = pos 1000000000

abbrev pub wanted_task : ℤ → String → ScheduledTask
wanted_task interval prompt = record { id = ""; interval = interval; prompt = prompt }

-- What the manager's answer becomes.
unfoldable pub replied_to : ScheduleReply → ToolReply String
replied_to no_session = denied (refused no_session)
replied_to (replied (Session.Defs.ok id)) = done id
replied_to (replied (Session.Defs.err e)) = denied (refused (replied (Session.Defs.err e)))

-- `ScheduleTask` once the interval is parsed.
unfoldable pub schedule_parsed : Manager → String → ℤ → String → Manager × ToolReply String
unfolding replied_to
schedule_parsed m bot interval prompt =
    if lt_ℤ interval min_schedule_interval
    then (m, denied interval_too_short)
    else if is_blank prompt
    then (m, denied no_prompt)
    else (
      (schedule m bot (wanted_task interval prompt)).0,
      replied_to (schedule m bot (wanted_task interval prompt)).1,
    )

-- `ScheduleTask`
unfoldable pub schedule_task :
    (String → Option ℤ)
    → Option Manager
    → String
    → String
    → String
    → Option Manager × ToolReply String
unfolding scheduler_for schedule_parsed
schedule_task parse scheduler bot interval prompt = elim (scheduler_for scheduler bot) [
  | denied e ↦ (scheduler, denied e)
  | done m ↦ elim (parse (trim_space interval)) [
    | none ↦ (scheduler, denied bad_interval)
    | some d ↦ let (m', answer) = schedule_parsed m bot d prompt in (some m', answer)
  ]
]

-- `CancelScheduledTask`
unfoldable pub cancel_scheduled_task :
    Option Manager → String → String → Option Manager × ToolReply Bool
unfolding scheduler_for
cancel_scheduled_task scheduler bot id = elim (scheduler_for scheduler bot) [
  | denied e ↦ (scheduler, denied e)
  | done m ↦ let (m', canceled) = cancel_task m bot id in (some m', done canceled)
]

pub record ScheduledTaskInfo : Type 0 where
  pub task_id : String
  pub interval : String
  pub prompt : String

-- `ListScheduledTasks`
unfoldable pub list_scheduled_tasks :
    (ℤ → String) → Option Manager → String → ToolReply (List ScheduledTaskInfo)
unfolding scheduler_for
list_scheduled_tasks show scheduler bot = elim (scheduler_for scheduler bot) [
  | denied e ↦ denied e
  | done m ↦ done (
      map (λ t. record { task_id = t.id; interval = show t.interval; prompt = t.prompt })
        (tasks m bot))
]

replied_to-done :
    (r : ScheduleReply) (id : String) → replied_to r ≡ done id → r ≡ replied (Session.Defs.ok id)
unfolding replied_to
replied_to-done no_session id h = cc
replied_to-done (replied (Session.Defs.ok j)) id h = cc
replied_to-done (replied (Session.Defs.err e)) id h = cc

-- What the task that is asked for has passed where the answer is `done id`.
Passed : Manager → String → String → String → ℤ → Type 0
Passed m bot prompt id d =
    (lt_ℤ d min_schedule_interval ≡ false)
    × (is_blank prompt ≡ false)
    × ((schedule m bot (wanted_task d prompt)).1 ≡ replied (Session.Defs.ok id))

schedule_parsed-done :
    (m : Manager) (bot prompt id : String) (d : ℤ)
    → (schedule_parsed m bot d prompt).1 ≡ done id
    → Passed m bot prompt id d
      × ((schedule_parsed m bot d prompt).0 ≡ (schedule m bot (wanted_task d prompt)).0)
unfolding schedule_parsed Passed
schedule_parsed-done m bot prompt id d h = elim (Bool-cases (lt_ℤ d min_schedule_interval)) [
  | inl e ↦ absurd (cc (rw (e, schedule_parsed) at h))
  | inr e ↦ elim (Bool-cases (is_blank prompt)) [
    | inl b ↦ absurd (cc (rw (e, b, schedule_parsed) at h))
    | inr b ↦
        ((e, b, replied_to-done _ id (rw (e, b, schedule_parsed) at h)), rw (e, b, schedule_parsed))
  ]
]

-- A scheduled task is in the bot's session, so that a call to cancel it finds it.
cancel-scheduled :
    (m : Manager) (bot : String) (task : ScheduledTask) (id : String)
    → (schedule m bot task).1 ≡ replied (Session.Defs.ok id)
    → (cancel_task (schedule m bot task).0 bot id).1 ≡ true
unfolding schedule
cancel-scheduled m bot task id h = elim (Option-cases (address m bot)) [
  | inl e ↦ absurd (cc (rw (e, schedule) at h))
  | inr (a, e) ↦ elim (Option-cases (get_elem? m.heap a)) [
    | inl p ↦ absurd (cc (rw (e, p, schedule) at h))
    | inr (s, p) ↦
        let m' = update_at (λ t. (Session.Defs.schedule t task).0) m (some a) in
        let reply : replied (Session.Defs.schedule s task).1 ≡ replied (Session.Defs.ok id) =
          rw (e, p, schedule) at h in
        let there : session_of m' bot ≡ some (Session.Defs.schedule s task).0 =
          rw (sessions-update_at _ m (some a)) (rw e (get_elem?-update_at_self _ m a s p)) in
        let found = (schedule_registers s task id (cc reply)).1 id in
        rw (e, p, schedule)
          (unfold cancel_task in
            rw e (
              rw (there, cancel_task)
                ((cancel_task_lem (Session.Defs.schedule s task).0 id).0
                  ∙ rw found (rw (eq_refl id) refl))))
  ]
]

module _ (parse : String → Option ℤ) (m : Manager) (bot interval prompt id : String)
    (accepted : (schedule_task parse (some m) bot interval prompt).1 ≡ done id) where
  schedule_task-done :
      (d : ℤ) × (parse (trim_space interval) ≡ some d)
      × Passed m bot prompt id d
      × (bot ≢ "")
      × ((schedule_task parse (some m) bot interval prompt).0
          ≡ some (schedule m bot (wanted_task d prompt)).0)
  unfolding schedule_task scheduler_for
  schedule_task-done = elim (Bool-cases (bot == "")) [
    | inl e ↦ absurd (cc (rw (e, schedule_task, scheduler_for) at accepted))
    | inr e ↦ elim (Option-cases (parse (trim_space interval))) [
      | inl p ↦ absurd (cc (rw (e, p, schedule_task, scheduler_for) at accepted))
      | inr (d, p) ↦
          let r =
            schedule_parsed-done m bot prompt id d
              (rw (e, p, schedule_task, scheduler_for) at accepted) in
          (
            d,
            p,
            r.0,
            ground (arith, eq_iff bot "", e),
            rw (e, p, schedule_task, scheduler_for) (ap some r.1),
          )
    ]
  ]

  -- A task that `ScheduleTask` accepts is one of a known bot, with a prompt that is not blank and an
  -- interval that parses and is at least a second; and `CancelScheduledTask` then finds it under the
  -- id that was answered.
  pub schedule_then_cancel :
      (d : ℤ) × (parse (trim_space interval) ≡ some d)
      × (lt_ℤ d min_schedule_interval ≡ false)
      × (is_blank prompt ≡ false)
      × (bot ≢ "")
      × ((cancel_scheduled_task (schedule_task parse (some m) bot interval prompt).0 bot id).1
          ≡ done true)
  unfolding cancel_scheduled_task scheduler_for Passed
  schedule_then_cancel =
      let (d, p, q, ne, e) = schedule_task-done in
      let named : (bot == "") ≡ false = ground (arith, eq_iff bot "", ne) in
      (
        d,
        p,
        q.0,
        q.1,
        ne,
        rw (e, cancel_scheduled_task)
            (rw (named, scheduler_for)
              (ap done (cancel-scheduled m bot (wanted_task d prompt) id q.2))),
      )

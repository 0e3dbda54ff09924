-- ===== src/Agent/Session/Tasks.antt =====
-- `Schedule` and `CancelTask` against the map of tasks.
use channel_plugin.Prelude.{
  String, ◌≡◌, Bool, true, false, not, ◌&&◌, none, some, arith, ◌==◌, eq_iff, is_some,
  if◌then◌else◌, ◌+◌, ◌↔◌,
}
use channel_plugin.Prelude.Int.{not_positive}
use channel_plugin.Prelude.Text.{is_blank}
use channel_plugin.GoMap.{get, get-put, get-delete}
use channel_plugin.Agent.Types.{ScheduledTask}
use channel_plugin.Agent.Session.Defs.{
  Session, ScheduleError, ok, err, task_name, schedule, cancel_task,
}

-- The id that a task gets: its own, or the next generated one.
abbrev pub given_id : Session → ScheduledTask → String
given_id s task = if task.id == "" then task_name (s.task_seq + 1) else task.id

abbrev pub acceptable : Session → ScheduledTask → Bool
acceptable s task =
    not (not_positive task.interval)
    && not (is_blank task.prompt)
    && not s.sched_closed
    && not (is_some (get s.tasks (given_id s task)))

module _ (s : Session) (task : ScheduledTask) where
  -- A task is accepted exactly if its interval is positive, its prompt is not blank, the session
  -- takes tasks, and its id is not in use; the answer is then that id.
  pub schedule_accepts :
      (id : String)
      → ((schedule s task).1 ≡ ok id) ↔ ((acceptable s task ≡ true) × (given_id s task ≡ id))
  unfolding schedule
  schedule_accepts id = (λ h. ground arith, λ h. ground arith)

  -- A task that is accepted is registered under an id that was not in use, and no other task
  -- changes.
  pub schedule_registers :
      (id : String)
      → (schedule s task).1 ≡ ok id
      → (get s.tasks id ≡ none)
        × ((j : String)
            → get (schedule s task).0.tasks j
              ≡ (if id == j then some (record task { id = id }) else get s.tasks j))
  unfolding schedule
  schedule_registers id h =
      (ground arith, λ j. ground (arith, get-put s.tasks id j (record task { id = id })))

  -- A refused task changes no task.
  pub schedule_refuses :
      (e : ScheduleError) → (schedule s task).1 ≡ err e → (schedule s task).0.tasks ≡ s.tasks
  unfolding schedule
  schedule_refuses e h = ground arith

-- `CancelTask` answers whether the task was there, and takes away that
-- task alone; so a second call finds nothing.
pub cancel_task_lem :
    (s : Session) (id : String)
    → ((cancel_task s id).1 ≡ is_some (get s.tasks id))
      × ((cancel_task (cancel_task s id).0 id).1 ≡ false)
      × ((j : String)
          → get (cancel_task s id).0.tasks j ≡ (if id == j then none else get s.tasks j))
unfolding cancel_task
cancel_task_lem s id = (
  ground arith,
  ground (arith, get-delete s.tasks id id, eq_iff id id),
  λ j. ground (arith, get-delete s.tasks id j, eq_iff id j),
)

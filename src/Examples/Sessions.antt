-- ===== src/Examples/Sessions.antt =====
-- Sessions of internal/agent/session.go and their driver, on concrete data.
use channel_plugin.Prelude.{◌⊎◌, String, ◌≡◌, ◌≢◌, refl, true, false, none, some, []}
use channel_plugin.Prelude.Int.{pos}
use channel_plugin.GoMap.{get, empty, values, get-empty}
use channel_plugin.Agent.Types.{ready, stopped, Spec, ScheduledTask}
use channel_plugin.Agent.Session.Defs.{Session, begin_turn, schedule, ok, stop_all_tasks, close}
use channel_plugin.Agent.Session.Closing.{
  here, next, turn_begins, stops_tasks, IsValid, Reach-IsValid, closed_forever, close_lem,
}

abbrev spec : Spec
spec = record {
  bot_id = "bot";
  bot_name = "helper";
  type = "claude";
  command = "claude";
  args = some [];
  work_dir = "/work";
  sqlite_path = "";
  env = none;
  timeout = pos 60;
  queue_size = pos 4;
  orchestrator = false;
  real_cli = false;
  resume_session_id = "";
}

-- A session that was just made.
abbrev fresh : Session
fresh = record {
  state = ready;
  runtime = some 7;
  spec = record spec { args = none };
  locked = false;
  sink = some 3;
  tasks = empty;
  task_seq = 0;
  sched_closed = false;
}

fresh-IsValid : IsValid fresh
fresh-IsValid = record {
  coherent = record {
    locked_busy = λ h. cc;
    locked_runs = λ h. cc;
    stopped_without = λ h. cc;
    closed_without = λ h. cc;
  };
  closed_idle = λ h k. get-empty k;
}

-- Closing.
closed_forever_example :
    ((k : String) → get (begin_turn (stop_all_tasks fresh true).0).tasks k ≡ none)
    × ((t : ScheduledTask) (id : String)
        → (schedule (begin_turn (stop_all_tasks fresh true).0) t).1 ≢ ok id)
unfolding stop_all_tasks
closed_forever_example =
    closed_forever (Reach-IsValid (next here (stops_tasks fresh true)) fresh-IsValid)
      (next here (turn_begins (stop_all_tasks fresh true).0 refl refl)) refl

close_lem_example :
    let (t, closed, timers) = close (λ r. true) (λ s. s) (λ s. s) fresh in
    (timers ≡ values fresh.tasks)
    × (t.sched_closed ≡ true)
    × ((k : String) → get t.tasks k ≡ none)
    × ((closed ≡ false) ⊎ ((t.state ≡ stopped) × (t.runtime ≡ none)))
close_lem_example = close_lem (λ r. true) (λ s. s) (λ s. s) fresh fresh-IsValid here here

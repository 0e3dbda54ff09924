-- ===== src/Agent/Session/Defs.antt =====
-- The session's state and operations.
use Prim.Native.Nat.{◌/◌, ◌%◌}
use Prim.Native.String
use channel_plugin.Prelude.{
  ℕ, zero, suc, ◌+◌, String, Bool, true, false, ◌||◌, Option, none, some, List, [], ◌∷◌, ltb, ◌==◌,
  if◌then◌else◌,
}
use channel_plugin.Prelude.Int.{not_positive}
use channel_plugin.Prelude.Text.{is_blank}
use channel_plugin.GoMap
use channel_plugin.GoMap.{GoMap}
use channel_plugin.Agent.Types.{
  SessionState, ready, busy, broken, stopped, Spec, ScheduledTask, Request, Response, PushResponse,
  RunError, clone_spec, deep_equal,
}

pub record Session : Type 0 where
  pub state : SessionState
  pub runtime : Option ℕ
  pub spec : Spec
  pub locked : Bool
  pub sink : Option ℕ
  pub tasks : GoMap ScheduledTask
  pub task_seq : ℕ
  pub sched_closed : Bool

-- `driver.Init` is the argument: the handle of the runtime that it made, or its error.
unfoldable pub new_session : (Spec → Option ℕ) → Spec → Option Session
new_session init spec =
    let cloned = clone_spec spec in
    elim (init cloned) [
      | none ↦ none
      | some r ↦ some (record {
        state = ready;
        runtime = some r;
        spec = cloned;
        locked = false;
        sink = none;
        tasks = GoMap.empty;
        task_seq = 0;
        sched_closed = false;
      })
    ]

-- What `SessionRuntime.Run` returns: the response, and the error if there is one.
pub record RunResult : Type 0 where
  pub response : Response
  pub error : Option RunError

-- `runLocked` up to the call of the runtime, in the hands of who locked `mu`.
unfoldable pub begin_turn : Session → Session
begin_turn s = record s { locked = true; state = busy }

-- `runLocked` from the runtime's answer on, and the unlock.
unfoldable pub end_turn : Session → RunResult → Session
end_turn s r = record s { locked = false; state = elim r.error [ none ↦ ready | some e ↦ broken ] }

-- `Send` of a session whose mutex is free; `answer` is the runtime, and `others` what other
-- goroutines do to the session while the runtime works. `none` is the panic of a call on a nil
-- runtime, which leaves the state busy behind the deferred unlock.
unfoldable pub send :
    (ℕ → Request → RunResult) → (Session → Session) → Session → Request → Session × Option RunResult
unfolding begin_turn end_turn
send answer others s req = elim s.runtime [
  | none ↦ (record s { state = busy }, none)
  | some r ↦ (end_turn (others (begin_turn s)) (answer r req), some (answer r req))
]

unfoldable pub set_push_sink : Session → Option ℕ → Session
set_push_sink s sink = record s { sink = sink }

pub data ScheduleError : Type 0 where
  bad_interval no_prompt session_closed : ScheduleError
  already_exists : String → ScheduleError

pub data Scheduled : Type 0 where
  ok : String → Scheduled
  err : ScheduleError → Scheduled

-- The decimal digits of `fmt.Sprintf("%d", n)`, with `n + 1` rounds of fuel.
unfoldable pub digit : ℕ → String
digit d = Prim.Native.String.slice "0123456789" d (d + 1)

unfoldable pub decimal_from : ℕ → ℕ → String
unfolding digit
decimal_from zero n = ""
decimal_from (suc fuel) n =
    let front = decimal_from fuel (n / 10) in
    if ltb n 10 then digit n else String.◌++◌ front (digit (n % 10))

unfoldable pub decimal : ℕ → String
unfolding decimal_from
decimal n = decimal_from (suc n) n

unfoldable pub task_name : ℕ → String
unfolding decimal
task_name n = String.◌++◌ "task-" (decimal n)

-- The part of `Schedule` under `schedMu`, once the task has its id.
add_task : Session → ScheduledTask → String → Session × Scheduled
add_task s task id = elim (GoMap.get s.tasks id) [
  | some t ↦ (s, err (already_exists id))
  | none ↦ (record s { tasks = GoMap.put s.tasks id (record task { id = id }) }, ok id)
]

unfoldable pub schedule : Session → ScheduledTask → Session × Scheduled
unfolding add_task
schedule s task =
    if not_positive task.interval
    then (s, err bad_interval)
    else if is_blank task.prompt
    then (s, err no_prompt)
    else if s.sched_closed
    then (s, err session_closed)
    else if task.id == ""
    then add_task (record s { task_seq = s.task_seq + 1 }) task (task_name (s.task_seq + 1))
    else add_task s task task.id

-- `CancelTask`; the timers whose stop channel it closes come third.
unfoldable pub cancel_task : Session → String → Session × Bool × List ScheduledTask
cancel_task s id = elim (GoMap.get s.tasks id) [
  | none ↦ (s, false, [])
  | some t ↦ (record s { tasks = GoMap.delete s.tasks id }, true, t ∷ [])
]

-- `Tasks`
unfoldable pub tasks : Session → List ScheduledTask
tasks s = GoMap.values s.tasks

-- `stopAllTasks`, with the timers that it stops.
unfoldable pub stop_all_tasks : Session → Bool → Session × List ScheduledTask
stop_all_tasks s mark_closed = (
  record s {
    sched_closed = mark_closed || s.sched_closed;
    tasks = GoMap.delete_if (λ id t. true) s.tasks;
  },
  GoMap.values s.tasks,
)

unfoldable pub matches : Session → Spec → Bool
matches s spec = deep_equal s.spec spec

is_terminal : SessionState → Bool
is_terminal broken = true
is_terminal stopped = true
is_terminal _ = false

-- What `runTick` does up to the call of the runtime.
pub data TickStart : Type 0 where
  -- a turn is in flight
  skip : TickStart
  -- the session is broken or closed: the task must stop
  stop : TickStart
  -- the runtime is called with the task's prompt
  run : ℕ → Request → TickStart

-- The synthesized request of a tick.
abbrev pub tick_request : Session → ScheduledTask → Request
tick_request s task = record {
  bot_id = s.spec.bot_id;
  user_id = "";
  message_id = "";
  prompt = task.prompt;
}

unfoldable pub tick_start : Session → ScheduledTask → TickStart
unfolding is_terminal
tick_start s task = if s.locked then skip else elim s.runtime [
  | none ↦ stop
  | some r ↦ if is_terminal s.state then stop else run r (tick_request s task)
]

-- What a whole `runTick` gives: the session, whether the task goes on, and the push to the sink.
pub record Tick : Type 0 where
  pub session : Session
  pub goes_on : Bool
  pub push : Option (ℕ × PushResponse)

-- `runTick` from the runtime's answer on.
tick_end : Session → ScheduledTask → RunResult → Tick
unfolding end_turn
tick_end s task r =
    let s' = end_turn s r in
    elim r.error [
      | some e ↦ record { session = s'; goes_on = false; push = none }
      | none ↦ record {
        session = s';
        goes_on = true;
        push = elim s'.sink [
          | none ↦ none
          | some k ↦ some (k, record { response = r.response; task_id = task.id })
        ];
      }
    ]

-- `runTick` in whole, with the runtime and the other goroutines as in `send`.
unfoldable pub run_tick :
    (ℕ → Request → RunResult) → (Session → Session) → Session → ScheduledTask → Tick
unfolding tick_start tick_end begin_turn
run_tick answer others s task = elim (tick_start s task) [
  | skip ↦ record { session = s; goes_on = true; push = none }
  | stop ↦ record { session = s; goes_on = false; push = none }
  | run r req ↦ tick_end (others (begin_turn s)) task (answer r req)
]

-- A task that must stop is cancelled.
unfoldable pub after_tick : Tick → String → Tick
unfolding cancel_task
after_tick t id = if t.goes_on then t else record t { session = (cancel_task t.session id).0 }

-- One firing of the ticker in `runTask`.
unfoldable pub fire :
    (ℕ → Request → RunResult) → (Session → Session) → Session → ScheduledTask → Tick
unfolding run_tick after_tick
fire answer others s task = after_tick (run_tick answer others s task) task.id

-- `Close` behind `runtime.Close()`: another call may have closed the session meanwhile.
unfoldable pub close_end : Session → Session
close_end s = elim s.runtime [ none ↦ s | some r ↦ record s { runtime = none; state = stopped } ]

-- `Close` from the lock of `mu` on; `others` is what other goroutines do during `runtime.Close()`.
unfoldable pub close_runtime : (ℕ → Bool) → (Session → Session) → Session → Session × Bool
unfolding close_end
close_runtime closes others s = elim s.runtime [
  | none ↦ (record s { state = stopped }, true)
  | some r ↦ if closes r then (close_end (others s), true) else (others s, false)
]

-- `Close`: `closes r` says whether the runtime `r` closes without an error, and `waiting` is what
-- other goroutines do until `mu` is free. It gives the session, whether there was no error, and the
-- timers that it stopped.
unfoldable pub close :
    (ℕ → Bool)
    → (Session → Session)
    → (Session → Session)
    → Session
    → Session × Bool × List ScheduledTask
unfolding stop_all_tasks close_runtime
close closes waiting others s =
    let (s', timers) = stop_all_tasks s true in
    let (s'', closed) = close_runtime closes others (waiting s') in (s'', closed, timers)

-- ===== src/Agent/Session/Closing.antt =====
-- What holds of a session whatever goroutines do to it, in any order, and what `Close` brings about.
use channel_plugin.Prelude.{
  ◌⊎◌, Bool-cases, inl, inr, ℕ, String, ◌≡◌, ◌≢◌, refl, Bool, true, false, Option, none, some,
  arith, is_some,
}
use channel_plugin.GoMap.{values, get, get-empty, get-delete, get-delete_if}
use channel_plugin.Agent.Types.{busy, stopped, Spec, ScheduledTask}
use channel_plugin.Agent.Session.Defs.{
  Session, RunResult, new_session, begin_turn, end_turn, set_push_sink, schedule, cancel_task,
  stop_all_tasks, close_end, close_runtime, close, ok,
}

-- One section under a mutex, by any goroutine.
pub data Step : Session → Session → Type 0 where
  turn_begins : (s : Session) → s.locked ≡ false → is_some s.runtime ≡ true → Step s (begin_turn s)
  turn_ends : (s : Session) (r : RunResult) → s.locked ≡ true → Step s (end_turn s r)
  schedules : (s : Session) (t : ScheduledTask) → Step s (schedule s t).0
  cancels : (s : Session) (id : String) → Step s (cancel_task s id).0
  sets_sink : (s : Session) (k : Option ℕ) → Step s (set_push_sink s k)
  stops_tasks : (s : Session) (mark : Bool) → Step s (stop_all_tasks s mark).0
  -- the end of a `Close`, which has stopped the tasks before
  shuts : (s : Session) → s.locked ≡ false → s.sched_closed ≡ true → Step s (close_end s)

pub data Reach (s : Session) : Session → Type 0 where
  here : Reach s s
  next : {t u : Session} → Reach s t → Step t u → Reach s u

pub record IsCoherent (s : Session) : Type 0 where
  -- who holds the turn mutex has set the state, and has a runtime
  pub locked_busy : s.locked ≡ true → s.state ≡ busy
  pub locked_runs : s.locked ≡ true → is_some s.runtime ≡ true
  -- a session without a runtime is stopped, and takes no more tasks
  pub stopped_without : s.runtime ≡ none → s.state ≡ stopped
  pub closed_without : s.runtime ≡ none → s.sched_closed ≡ true

pub record IsValid (s : Session) : Type 0 where
  pub coherent : IsCoherent s
  -- a session that takes no tasks has none
  pub closed_idle : s.sched_closed ≡ true → (k : String) → get s.tasks k ≡ none

-- A new session satisfies the invariant.
pub new_session-IsValid :
    (init : Spec → Option ℕ) (spec : Spec) (s : Session)
    → new_session init spec ≡ some s
    → IsValid s
unfolding new_session
new_session-IsValid init spec s h = record {
  coherent = ground arith;
  closed_idle = λ c k. ground (arith, get-empty {V = ScheduledTask} k);
}

Step-closed : {s t : Session} → Step s t → s.sched_closed ≡ true → t.sched_closed ≡ true
unfolding begin_turn end_turn set_push_sink schedule cancel_task stop_all_tasks close_end
Step-closed (turn_begins s l r) c = c
Step-closed (turn_ends s r l) c = c
Step-closed (schedules s t) c = ground arith
Step-closed (cancels s id) c = ground arith
Step-closed (sets_sink s k) c = c
Step-closed (stops_tasks s mark) c = ground arith
Step-closed (shuts s l d) c = ground arith

Reach-closed : {s t : Session} → Reach s t → s.sched_closed ≡ true → t.sched_closed ≡ true
Reach-closed here c = c
Reach-closed (next r st) c = Step-closed st (Reach-closed r c)

-- The tasks after a step, one key at a time, where the session takes none.
Step-idle :
    {s t : Session} (k : String)
    → Step s t
    → IsValid s
    → t.sched_closed ≡ true
    → get t.tasks k ≡ none
unfolding begin_turn end_turn set_push_sink schedule cancel_task stop_all_tasks close_end
Step-idle k (turn_begins s l r) v c = v.closed_idle c k
Step-idle k (turn_ends s r l) v c = v.closed_idle c k
Step-idle k (schedules s t) v c = ground (arith, λ (d : s.sched_closed ≡ true). v.closed_idle d k)
Step-idle k (cancels s id) v c =
    ground (arith, get-delete s.tasks id k, λ (d : s.sched_closed ≡ true). v.closed_idle d k)
Step-idle k (sets_sink s x) v c = v.closed_idle c k
Step-idle k (stops_tasks s mark) v c = ground (arith, get-delete_if (λ id t. true) s.tasks k)
Step-idle k (shuts s l d) v c = ground (arith, v.closed_idle d k)

Step-IsCoherent : {s t : Session} → Step s t → IsCoherent s → IsCoherent t
unfolding begin_turn end_turn set_push_sink schedule cancel_task stop_all_tasks close_end
Step-IsCoherent (turn_begins s l r) v = ground arith
Step-IsCoherent (turn_ends s r l) v = ground arith
Step-IsCoherent (schedules s t) v = ground arith
Step-IsCoherent (cancels s id) v = ground arith
Step-IsCoherent (sets_sink s k) v = ground arith
Step-IsCoherent (stops_tasks s mark) v = ground arith
Step-IsCoherent (shuts s l d) v = ground arith

Step-IsValid : {s t : Session} → Step s t → IsValid s → IsValid t
Step-IsValid st v = record {
  coherent = Step-IsCoherent st v.coherent;
  closed_idle = λ c k. Step-idle k st v c;
}

-- The invariant holds after any interleaving of the goroutines' sections.
pub Reach-IsValid : {s t : Session} → Reach s t → IsValid s → IsValid t
Reach-IsValid here v = v
Reach-IsValid (next r st) v = Step-IsValid st (Reach-IsValid r v)

pub schedule_closed :
    (s : Session) (task : ScheduledTask)
    → s.sched_closed ≡ true
    → (id : String) → (schedule s task).1 ≢ ok id
unfolding schedule
schedule_closed s task c id h = ground arith

-- Once a session that satisfies the invariant is closed to tasks, then whatever goroutines do it
-- has no task, and `Schedule` accepts none.
pub closed_forever :
    {s t : Session}
    → IsValid s
    → Reach s t
    → s.sched_closed ≡ true
    → ((k : String) → get t.tasks k ≡ none)
      × ((task : ScheduledTask) (id : String) → (schedule t task).1 ≢ ok id)
closed_forever {s} {t} v r c =
    let d = Reach-closed r c in
    ((Reach-IsValid r v).closed_idle d, λ task. schedule_closed t task d)

close_runtime_lem :
    (closes : ℕ → Bool) (others : Session → Session) (s : Session) (k : String)
    → IsValid s
    → Reach s (others s)
    → s.sched_closed ≡ true
    → let (t, closed) = close_runtime closes others s in
      (t.sched_closed ≡ true)
      × (get t.tasks k ≡ none)
      × (closed ≡ true → (t.state ≡ stopped) × (t.runtime ≡ none))
unfolding close_runtime
close_runtime_lem closes others s k v r c =
    let shut = Reach-closed r c in
    let w = Reach-IsValid r v in
    ground (arith, v.closed_idle c k, w.closed_idle shut k, w.coherent, shut)

module _ (closes : ℕ → Bool) (waiting others : Session → Session) (s : Session) where
  -- `Close` of a session that satisfies the invariant, while other goroutines do any steps of the
  -- session as it waits and as the runtime closes. It stops the timer of every task that the
  -- session had, and leaves no task and none to come, also where the runtime fails to close. Where
  -- it succeeds, the session is stopped and has no runtime.
  pub close_lem :
      IsValid s
      → Reach (stop_all_tasks s true).0 (waiting (stop_all_tasks s true).0)
      → Reach (waiting (stop_all_tasks s true).0) (others (waiting (stop_all_tasks s true).0))
      → let (t, closed, timers) = close closes waiting others s in
        (timers ≡ values s.tasks)
        × (t.sched_closed ≡ true)
        × ((k : String) → get t.tasks k ≡ none)
        × ((closed ≡ false) ⊎ ((t.state ≡ stopped) × (t.runtime ≡ none)))
  unfolding close
  close_lem v w o =
      let a = Reach-IsValid (next here (stops_tasks s true)) v in
      let shut = Reach-closed w (unfold stop_all_tasks in refl) in
      let at = λ (k : String). close_runtime_lem closes others _ k (Reach-IsValid w a) o shut in
      (
        unfold stop_all_tasks in refl,
        (at "").0,
        λ k. (at k).1,
        elim (Bool-cases _) [ inl e ↦ inr ((at "").2 e) | inr e ↦ inl e ],
      )

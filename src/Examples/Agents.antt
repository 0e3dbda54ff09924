-- ===== src/Examples/Agents.antt =====
-- The manager of internal/agent/manager.go on concrete data.
use channel_plugin.Prelude.{
  ◌==◌, if◌then◌else◌, ℕ, String, ◌≡◌, refl, true, false, Option, none, some, [], ◌∷◌, arith,
  get_elem?,
}
use channel_plugin.Prelude.Int.{pos}
use channel_plugin.GoMap.{GoMap, get, put, empty, get-put, get-empty}
use channel_plugin.Agent.Types.{Spec, broken, ready, clone_spec}
use channel_plugin.Agent.Drivers.{Driver, driver_for_spec, lookup_driver}
use channel_plugin.Agent.Session.Defs.{Session, new_session, close}
use channel_plugin.Agent.Manager.Defs.{
  Manager, new_manager, address, session_of, close_session, serves, session_for, make_session,
  replace, take_over, install, retire, ok,
}
use channel_plugin.Agent.Manager.Sharing.{new_manager-IsOwned, requests, call, call_apart}
use channel_plugin.Agent.Manager.Keeping.{AreFair}
use channel_plugin.Agent.Manager.Replacement.{quiet, with_sink, session_for_replaces}

abbrev spec : Spec
spec = record {
  bot_id = "bot";
  bot_name = "helper";
  type = "claude";
  command = "claude";
  args = none;
  work_dir = "/work";
  sqlite_path = "";
  env = none;
  timeout = pos 60;
  queue_size = pos 4;
  orchestrator = false;
  real_cli = false;
  resume_session_id = "";
}

abbrev init : Spec → Option ℕ
init s = some 8

abbrev drivers : GoMap Driver
drivers = put empty "claude" init

-- a session that broke
abbrev old : Session
old = record {
  state = broken;
  runtime = some 7;
  spec = spec;
  locked = false;
  sink = some 3;
  tasks = empty;
  task_seq = 0;
  sched_closed = false;
}

-- the one that takes its place
abbrev young : Session
young = record old { state = ready; runtime = some 8; sink = none }

abbrev one_session : Manager
one_session = record {
  heap = old ∷ [];
  sessions = put empty "bot" 0;
  sinks = put empty "bot" (some 3);
}

held : address one_session "bot" ≡ some 0
held = get-put empty "bot" "bot" 0

unfit : serves spec (some old) ≡ false
unfolding serves
unfit = ground arith

driver_known : driver_for_spec drivers spec ≡ some init
unfolding driver_for_spec lookup_driver
driver_known = get-put empty "claude" "claude" init

young_made : new_session init spec ≡ some young
unfolding new_session clone_spec
young_made = refl

session_for_replaces_example :
    let (m, answer) = session_for drivers (λ r. true) quiet one_session "bot" spec in
    (answer ≡ ok 1)
    × (session_of m "bot" ≡ some (with_sink (get one_session.sinks "bot") young))
    × (get_elem? m.heap 0 ≡ some (close_session (λ r. true) old))
    × ((b : String) → address m b ≡ (if "bot" == b then some 1 else address one_session b))
unfolding close
session_for_replaces_example =
    session_for_replaces (λ r. true) one_session "bot" spec young old 0 held refl drivers init unfit
      driver_known young_made refl

-- every session is made for "bot"
abbrev owner : ℕ → String
owner a = "bot"

quiet_fair : AreFair owner quiet
quiet_fair = record {
  starting = λ m. record { longer = omega arith; owned = λ h. h };
  examining = λ m. record { longer = omega arith; owned = λ h. h };
  retiring = λ m. record { longer = omega arith; owned = λ h. h };
}

first_request :
    address (call drivers (λ r. true) quiet new_manager (requests "bot" spec)) "bot" ≡ some 0
unfolding call session_for
first_request =
    rw (get-empty {V = ℕ} "bot", call, session_for)
      (rw (driver_known, make_session)
        (rw (young_made, make_session)
          (rw (get-empty {V = ℕ} "bot", replace)
            (rw (get-empty {V = ℕ} "bot", take_over)
              (unfold retire in
                rw (get-empty {V = Option ℕ} "bot", install) (get-put empty "bot" "bot" 0))))))

call_apart_example : ◌≡◌ {A = String} "bot" "bot"
call_apart_example =
    call_apart drivers (λ r. true) quiet quiet_fair new_manager (requests "bot" spec)
      (new_manager-IsOwned owner) refl "bot" "bot" 0 first_request first_request

-- ===== src/Agent/Manager/Defs.antt =====
-- The manager's state and operations.
use channel_plugin.Prelude.{
  ℕ, String, Bool, true, false, not, ◌&&◌, Option, none, some, List, [], ◌∷◌, ◌++◌, length,
  get_elem?, set, nat_eq, if◌then◌else◌,
}
use channel_plugin.GoMap
use channel_plugin.GoMap.{GoMap}
use channel_plugin.Agent.Types.{SessionState, broken, stopped, Spec, ScheduledTask, Request}
use channel_plugin.Agent.Drivers.{Driver, driver_for_spec}
use channel_plugin.Agent.Session
use channel_plugin.Agent.Session.Defs.{Session, RunResult, new_session, matches, close}

pub record Manager : Type 0 where
  -- every session that was ever made; its address is its place
  pub heap : List Session
  pub sessions : GoMap ℕ
  -- `none` is a nil sink
  pub sinks : GoMap (Option ℕ)

-- `NewManager`
abbrev pub new_manager : Manager
new_manager = record { heap = []; sessions = GoMap.empty; sinks = GoMap.empty }

-- `m.sessions[botID]`, a nil pointer where there is none.
abbrev pub address : Manager → String → Option ℕ
address m bot = GoMap.get m.sessions bot

unfoldable pub write : Manager → ℕ → Session → Manager
write m a s = record m { heap = set m.heap a s }

abbrev pub deref : Manager → Option ℕ → Option Session
deref m none = none
deref m (some a) = get_elem? m.heap a

abbrev pub session_of : Manager → String → Option Session
session_of m bot = deref m (address m bot)

-- The bot's session is changed by `f`, if there is one.
unfoldable pub update_at : (Session → Session) → Manager → Option ℕ → Manager
unfolding write
update_at f m none = m
update_at f m (some a) = elim (get_elem? m.heap a) [ none ↦ m | some s ↦ write m a (f s) ]

unfoldable pub set_push_sink : Manager → String → Option ℕ → Manager
unfolding update_at Session.Defs.set_push_sink
set_push_sink m bot sink =
    update_at (λ s. Session.Defs.set_push_sink s sink)
      (record m { sinks = GoMap.put m.sinks bot sink }) (address m bot)

pub data ScheduleReply : Type 0 where
  no_session : ScheduleReply
  replied : Session.Defs.Scheduled → ScheduleReply

unfoldable pub schedule : Manager → String → ScheduledTask → Manager × ScheduleReply
unfolding update_at
schedule m bot task = elim (session_of m bot) [
  | none ↦ (m, no_session)
  | some s ↦ (
    update_at (λ t. (Session.Defs.schedule t task).0) m (address m bot),
    replied (Session.Defs.schedule s task).1,
  )
]

unfoldable pub cancel_task : Manager → String → String → Manager × Bool
unfolding update_at
cancel_task m bot id = elim (session_of m bot) [
  | none ↦ (m, false)
  | some s ↦ (
    update_at (λ t. (Session.Defs.cancel_task t id).0) m (address m bot),
    (Session.Defs.cancel_task s id).1,
  )
]

unfoldable pub tasks : Manager → String → List ScheduledTask
tasks m bot = elim (session_of m bot) [ none ↦ [] | some s ↦ Session.Defs.tasks s ]

unfoldable pub state : Manager → String → SessionState
state m bot = elim (session_of m bot) [ none ↦ stopped | some s ↦ s.state ]

-- `session.Close()` on the session at an address, undisturbed.
abbrev pub close_session : (ℕ → Bool) → Session → Session
close_session closes s = (close closes (λ t. t) (λ t. t) s).0

unfoldable pub close_at : (ℕ → Bool) → Manager → Option ℕ → Manager
unfolding update_at
close_at closes m a = update_at (close_session closes) m a

unfoldable pub closes_at : (ℕ → Bool) → Manager → Option ℕ → Bool
closes_at closes m a = elim (deref m a) [
  | none ↦ true
  | some s ↦ (close closes (λ t. t) (λ t. t) s).1
]

-- `StopBot`; an error of the session's `Close` is only logged.
unfoldable pub stop_bot : (ℕ → Bool) → Manager → String → Manager
unfolding close_at
stop_bot closes m bot =
    close_at closes
      (record m { sessions = GoMap.delete m.sessions bot; sinks = GoMap.delete m.sinks bot })
      (address m bot)

is_broken : SessionState → Bool
is_broken broken = true
is_broken _ = false

-- `session != nil && session.Matches(spec) && session.State() != SessionStateBroken`
unfoldable pub serves : Spec → Option Session → Bool
unfolding is_broken
serves spec none = false
serves spec (some s) = matches s spec && not (is_broken s.state)

pub data SessionError : Type 0 where
  unknown_driver init_failed close_failed : SessionError

pub data SessionFor : Type 0 where
  ok : ℕ → SessionFor
  err : SessionError → SessionFor

-- What other goroutines do to the manager where `sessionFor` holds no mutex: while the driver
-- starts the runtime, while the current session is examined, and before the stale one is closed.
-- The replacement has its address before `starting`; nobody else knows it until it is installed.
pub record Others : Type 0 where
  pub starting : Manager → Manager
  pub examining : Manager → Manager
  pub retiring : Manager → Manager

-- `sessionFor` from the installation of the replacement on: the map entry, and the bot's sink.
unfoldable pub install : Manager → String → ℕ → Manager
unfolding update_at
install m bot new =
    let m' = record m { sessions = GoMap.put m.sessions bot new } in
    elim (GoMap.get m.sinks bot) [
      | none ↦ m'
      | some none ↦ m'
      | some (some k) ↦ update_at (λ s. Session.Defs.set_push_sink s (some k)) m' (some new)
    ]

-- `m.sessions[botID] = stale`, if the replacement is still there.
unfoldable pub restore : Manager → String → ℕ → ℕ → Manager
restore m bot new stale = elim (address m bot) [
  | none ↦ m
  | some a ↦ if nat_eq a new then record m { sessions = GoMap.put m.sessions bot stale } else m
]

-- The end of `sessionFor`: the stale session is closed; if that fails it is put back and the
-- replacement is closed.
unfoldable pub retire : (ℕ → Bool) → Manager → String → ℕ → Option ℕ → Manager × SessionFor
unfolding close_at closes_at restore
retire closes m bot new none = (m, ok new)
retire closes m bot new (some stale) =
    let m' = close_at closes m (some stale) in
    if closes_at closes m (some stale)
    then (m', ok new)
    else (close_at closes (restore m' bot new stale) (some new), err close_failed)

-- `sessionFor` where the current session, if any, does not serve: `m` is the manager after the second
-- look at it.
unfoldable pub take_over : (ℕ → Bool) → Others → Manager → String → ℕ → Manager × SessionFor
unfolding install retire
take_over closes others m bot new =
    let m' = others.examining m in
    retire closes (others.retiring (install m' bot new)) bot new (address m' bot)

-- The replacement is closed in favour of the session `current`, which somebody else has installed.
unfoldable pub yield_to : (ℕ → Bool) → Manager → ℕ → ℕ → Manager × SessionFor
unfolding close_at closes_at
yield_to closes m new current = (
  close_at closes m (some new),
  if closes_at closes m (some new) then ok current else err close_failed,
)

-- `sessionFor` once the replacement exists, at the address `new`; `m` is the manager at the second
-- look at the bot's session.
unfoldable pub replace : (ℕ → Bool) → Others → Manager → String → Spec → ℕ → Manager × SessionFor
unfolding take_over yield_to serves
replace closes others m bot spec new = elim (address m bot) [
  | none ↦ take_over closes others m bot new
  | some current ↦
      if serves spec (get_elem? m.heap current)
      then yield_to closes m new current
      else take_over closes others m bot new
]

-- `sessionFor` where a replacement is wanted.
unfoldable pub make_session :
    GoMap Driver → (ℕ → Bool) → Others → Manager → String → Spec → Manager × SessionFor
unfolding driver_for_spec replace
make_session drivers closes others m bot spec = elim (driver_for_spec drivers spec) [
  | none ↦ (m, err unknown_driver)
  | some driver ↦ elim (new_session driver spec) [
    | none ↦ (m, err init_failed)
    | some s ↦
        replace closes others (others.starting (record m { heap = m.heap ++ s ∷ [] })) bot spec
          (length m.heap)
  ]
]

-- `sessionFor`, over the registry of drivers.
unfoldable pub session_for :
    GoMap Driver → (ℕ → Bool) → Others → Manager → String → Spec → Manager × SessionFor
unfolding make_session serves
session_for drivers closes others m bot spec = elim (address m bot) [
  | none ↦ make_session drivers closes others m bot spec
  | some a ↦
      if serves spec (get_elem? m.heap a)
      then (m, ok a)
      else make_session drivers closes others m bot spec
]

pub data SendReply : Type 0 where
  unserved : SessionError → SendReply
  -- the runtime's answer, `none` for the panic of a session without a runtime
  served : Option RunResult → SendReply

unfoldable pub send_at :
    (ℕ → Request → RunResult)
    → (Session → Session)
    → Request
    → Manager × SessionFor
    → Manager × SendReply
unfolding update_at
send_at answer meanwhile req (m, err e) = (m, unserved e)
send_at answer meanwhile req (m, ok a) = (
  update_at (λ s. (Session.Defs.send answer meanwhile s req).0) m (some a),
  served (elim (get_elem? m.heap a) [
    | none ↦ none
    | some s ↦ (Session.Defs.send answer meanwhile s req).1
  ]),
)

-- `Send`, where the session that `sessionFor` gives is free; `answer` are the runtimes and `meanwhile`
-- is what other goroutines do to the session during the turn.
unfoldable pub send :
    (ℕ → Request → RunResult)
    → (Session → Session)
    → GoMap Driver
    → (ℕ → Bool)
    → Others
    → Manager
    → String
    → Spec
    → Request
    → Manager × SendReply
unfolding send_at
send answer meanwhile drivers closes others m bot spec req =
    send_at answer meanwhile req (session_for drivers closes others m bot spec)

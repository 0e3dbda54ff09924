-- ===== src/Agent/Claude/Defs.antt =====
-- The runtime of a process, and what its reader does with a line.
use channel_plugin.Prelude.{
  ℕ, String, Bool, true, false, not, ◌&&◌, ◌||◌, Option, none, some, List, [], ◌∷◌, ◌++◌, length,
  ltb, ◌==◌, if◌then◌else◌,
}
use channel_plugin.Prelude.Text.{trim_space}
use channel_plugin.Agent.Progress.{target_from_input}

pub data RuntimeState : Type 0 where
  ready running broken : RuntimeState

pub data AcpError : Type 0 where
  prompt_required is_broken is_closed stdin_closed timed_out canceled : AcpError
  -- another error of a context
  context_failed : String → AcpError
  write_failed : String → AcpError
  -- with the last line of stderr, `""` where there is none
  read_failed : (cause stderr : String) → AcpError
  turn_failed : AcpError → AcpError
  turn_error : String → AcpError

-- `acpTurnEvent`; its `err` is `failed`.
pub data TurnEvent : Type 0 where
  answered : (done : Bool) (text : String) (is_error : Bool) → TurnEvent
  failed : AcpError → TurnEvent

pub record ProgressEvent : Type 0 where
  pub kind : String
  pub tool : String
  pub target : String

-- The blocks of a message, each with its input decoded (no fields where that fails).
pub record Block : Type 0 where
  pub type : String
  pub name : String
  pub input : List (String × Option String)

pub record StreamEvent : Type 0 where
  pub type : String
  pub subtype : String
  pub is_error : Bool
  pub result : String
  pub session_id : String
  pub message : Option (List Block)

-- `active` is the buffer of the channel of the turn that runs, if one does; `progress` is the turn's
-- callback, if it has one, by what it was called with so far. `stdin` and `cmd` tell whether the two
-- are not nil, and `closed` whether `closeOnce` has run.
pub record AcpRuntime : Type 0 where
  pub state : RuntimeState
  pub read_err : Option AcpError
  pub stdin : Bool
  pub cmd : Bool
  pub closed : Bool
  pub session_id : String
  pub active : Option (List TurnEvent)
  pub progress : Option (List ProgressEvent)

-- the runtime that `Init` returns
abbrev pub started : AcpRuntime
started = record {
  state = ready;
  read_err = none;
  stdin = true;
  cmd = true;
  closed = false;
  session_id = "";
  active = none;
  progress = none;
}

-- `make(chan acpTurnEvent, 256)`
abbrev pub turn_cap : ℕ
turn_cap = 256

unfoldable pub first_error : AcpError → Option AcpError → Option AcpError
first_error e none = some e
first_error e (some old) = some old

unfoldable pub mark_broken : AcpError → AcpRuntime → AcpRuntime
mark_broken e r = record r { state = broken; read_err = first_error e r.read_err }

-- `dispatchTurnEvent`: an event is dropped where no turn runs or the buffer is full.
unfoldable pub dispatch_turn_event : TurnEvent → AcpRuntime → AcpRuntime
dispatch_turn_event evt r = elim r.active [
  | none ↦ r
  | some queue ↦
      if ltb (length queue) turn_cap then record r { active = some (queue ++ evt ∷ []) } else r
]

-- `dispatchProgress`
unfoldable pub dispatch_progress : ProgressEvent → AcpRuntime → AcpRuntime
dispatch_progress ev r = elim r.progress [
  | none ↦ r
  | some seen ↦ record r { progress = some (seen ++ ev ∷ []) }
]

unfoldable pub tool_event : Block → ProgressEvent
tool_event b = record { kind = "tool"; tool = b.name; target = target_from_input b.name b.input }

unfoldable pub dispatch_blocks : List Block → AcpRuntime → AcpRuntime
dispatch_blocks [] r = r
dispatch_blocks (b ∷ bs) r =
    dispatch_blocks bs
      (if not (b.type == "tool_use") || b.name == "" then r else dispatch_progress (tool_event b) r)

-- The three parts of `handleLine`: the first session id is kept, tool calls are reported, and a result
-- goes to the turn that runs.
unfoldable pub capture_session : StreamEvent → AcpRuntime → AcpRuntime
capture_session evt r =
    if evt.type == "system" && evt.subtype == "init" && not (evt.session_id == "")
    then if r.session_id == "" then record r { session_id = evt.session_id } else r
    else r

unfoldable pub report_tools : StreamEvent → AcpRuntime → AcpRuntime
report_tools evt r = elim evt.message [
  | none ↦ r
  | some blocks ↦ if evt.type == "assistant" then dispatch_blocks blocks r else r
]

unfoldable pub route_result : StreamEvent → AcpRuntime → AcpRuntime
route_result evt r =
    if evt.type == "result"
    then dispatch_turn_event (answered true evt.result evt.is_error) r
    else r

unfoldable pub handle_event : StreamEvent → AcpRuntime → AcpRuntime
handle_event evt r = route_result evt (report_tools evt (capture_session evt r))

-- `handleLine`; a line that is no JSON is ignored.
unfoldable pub handle_line : (String → Option StreamEvent) → String → AcpRuntime → AcpRuntime
handle_line decode line r = elim (decode line) [ none ↦ r | some evt ↦ handle_event evt r ]

-- one round of `readLoop`
unfoldable pub read_line : (String → Option StreamEvent) → String → AcpRuntime → AcpRuntime
read_line decode text r =
    let line = trim_space text in if line == "" then r else handle_line decode line r

-- The end of `readLoop`, with the scanner's error (`io.EOF` where it has none) and the last line that
-- the process wrote to stderr.
unfoldable pub read_ends : String → String → AcpRuntime → AcpRuntime
read_ends cause stderr r =
    let e = read_failed cause (trim_space stderr) in
    dispatch_turn_event (failed e) (mark_broken e r)

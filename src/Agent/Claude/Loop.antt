-- ===== src/Agent/Claude/Loop.antt =====
-- `Run`, its loop, `Close`, and the arguments of the process.
use Prim.Native.String
use channel_plugin.Prelude.{
  ℕ, String, Bool, true, false, not, ◌&&◌, ◌||◌, Option, none, some, List, [], ◌∷◌, ◌++◌, map, ◌==◌,
  if◌then◌else◌,
}
use channel_plugin.Prelude.Text.{trim_space, is_blank}
use channel_plugin.Agent.Types.{Response}
use channel_plugin.Agent.Claude.Defs.{
  ready, running, broken, AcpError, prompt_required, is_broken, is_closed, stdin_closed, timed_out,
  canceled, context_failed, write_failed, turn_failed, turn_error, TurnEvent, answered, failed,
  StreamEvent, AcpRuntime, first_error, mark_broken, read_line, read_ends,
}

-- `Run` before it sends: the error with which it returns, if any. `traces` tells whether the request
-- has a callback.
unfoldable pub begin_run : String → Bool → AcpRuntime → Option AcpError × AcpRuntime
begin_run prompt traces r = if is_blank prompt then (some prompt_required, r) else elim r.state [
  | broken ↦ (some (elim r.read_err [ none ↦ is_broken | some e ↦ e ]), r)
  | _ ↦ (
    none,
    record r { state = running; active = some []; progress = if traces then some [] else none },
  )
]

-- `send`; `written` is the error of the write, if any.
unfoldable pub send : Option String → AcpRuntime → Option AcpError
send written r =
    if r.stdin
    then (elim written [ none ↦ none | some e ↦ some (write_failed e) ])
    else some stdin_closed

-- What `Run` returns.
pub record Outcome : Type 0 where
  pub response : Response
  pub error : Option AcpError

-- the deferred function of `Run`
unfoldable pub leave : AcpRuntime → AcpRuntime
leave r = record r { active = none; progress = none }

-- an error with the empty response
abbrev pub failure : AcpError → Outcome
failure e = record {
  response = record {
    text = "";
    runtime_type = "";
    exit_code = 0;
    raw_output = "";
    session_id = "";
  };
  error = some e;
}

unfoldable pub fail_run : AcpError → AcpError → AcpRuntime → AcpRuntime × Option Outcome
fail_run cause e r = (leave (mark_broken cause r), some (failure e))

-- `if r.state != stateBroken { r.state = stateReady }`
unfoldable pub settle : AcpRuntime → AcpRuntime
settle r = elim r.state [ broken ↦ r | _ ↦ record r { state = ready } ]

unfoldable pub answer : String → ℕ → Option AcpError → AcpRuntime → AcpRuntime × Option Outcome
answer text exit_code error r = (
  leave (settle r),
  some (record {
    response = record {
      text = text;
      runtime_type = "claude";
      exit_code = exit_code;
      raw_output = text;
      session_id = r.session_id;
    };
    error = error;
  }),
)

-- what the loop of `Run` does with an event
unfoldable pub on_turn_event : TurnEvent → AcpRuntime → AcpRuntime × Option Outcome
on_turn_event (failed e) r = fail_run e (turn_failed e) r
on_turn_event (answered false text is_error) r = (r, none)
on_turn_event (answered true text false) r = answer (trim_space text) 0 none r
on_turn_event (answered true text true) r =
    let said = trim_space text in
    let text' = if said == "" then "claude acp returned an error" else said in
    answer text' 1 (some (turn_error text')) r

-- `classifyContextError`
pub data ContextError : Type 0 where
  deadline_exceeded cancelled : ContextError
  other : String → ContextError

unfoldable pub classify_context_error : ContextError → AcpError
classify_context_error deadline_exceeded = timed_out
classify_context_error cancelled = canceled
classify_context_error (other e) = context_failed e

-- What happens while a turn runs: the reader reads a line or ends, another goroutine closes the
-- runtime, and the two cases of the `select` of `Run`.
pub data Happening : Type 0 where
  line : String → Happening
  ends : (cause stderr : String) → Happening
  closes : Happening
  context_done : ContextError → Happening
  takes : Happening

-- `Close` up to the process; it does nothing the second time.
unfoldable pub close : AcpRuntime → AcpRuntime
close r = if r.closed then r else record r {
  closed = true;
  stdin = false;
  cmd = false;
  state = broken;
  read_err = first_error is_closed r.read_err;
}

-- The error that `Close` returns of that of `cmd.Wait`.
pub data WaitError : Type 0 where
  process_done : WaitError
  -- `-1` is a signal
  exited : (signalled : Bool) → WaitError
  child_gone : WaitError
  wait_failed : String → WaitError

unfoldable pub close_error : AcpRuntime → Option WaitError → Option WaitError
close_error r waited = if r.closed || not r.cmd then none else elim waited [
  | none ↦ none
  | some e ↦ elim e [
    | process_done ↦ none
    | exited signalled ↦ if signalled then none else some (exited signalled)
    | child_gone ↦ none
    | wait_failed m ↦ some (wait_failed m)
  ]
]

-- the receive of an event, which waits where the buffer is empty
unfoldable pub take_event : AcpRuntime → AcpRuntime × Option Outcome
take_event r = elim r.active [
  | none ↦ (r, none)
  | some queue ↦ elim queue [
    | [] ↦ (r, none)
    | evt ∷ rest ↦ on_turn_event evt (record r { active = some rest })
  ]
]

module _ (decode : String → Option StreamEvent) where
  unfoldable pub happen : Happening → AcpRuntime → AcpRuntime × Option Outcome
  happen (line text) r = (read_line decode text r, none)
  happen (ends cause stderr) r = (read_ends cause stderr r, none)
  happen closes r = (close r, none)
  happen (context_done e) r = let e' = classify_context_error e in fail_run e' e' r
  happen takes r = take_event r

  -- The loop of `Run`, until it returns; what happens later is left over.
  unfoldable pub run_turn : List Happening → AcpRuntime → AcpRuntime × Option Outcome
  run_turn [] r = (r, none)
  run_turn (h ∷ hs) r =
      let (r', out) = happen h r in elim out [ none ↦ run_turn hs r' | some o ↦ (r', some o) ]

  -- `Run`
  unfoldable pub run :
      String → Bool → Option String → List Happening → AcpRuntime → AcpRuntime × Option Outcome
  run prompt traces written hs r =
      let (refused, r') = begin_run prompt traces r in
      elim refused [
        | some e ↦ (r', some (failure e))
        | none ↦ elim (send written r') [ some e ↦ fail_run e e r' | none ↦ run_turn hs r' ]
      ]

-- `isClaudeCommand` of the lower-case base name of the command, and `buildACPArgs`
unfoldable pub is_claude_command : (String → String) → String → Bool
is_claude_command base_name command =
    let base = base_name (trim_space command) in base == "claude" || base == "claude.exe"

unfoldable pub build_acp_args :
    (String → String) → String → List String → Bool → String → List String
build_acp_args base_name command extra real_cli resume =
    if not (is_claude_command base_name command) && not real_cli
    then extra
    else ("-p" ∷ "--input-format" ∷ "stream-json" ∷ "--output-format" ∷ "stream-json" ∷ "--verbose"
        ∷ [])
      ++ (if resume == "" then [] else "--resume" ∷ resume ∷ [])
      ++ extra

-- `flattenEnv` of a map in key order
unfoldable pub flatten_env : List (String × String) → List String
flatten_env env = map (λ e. Prim.Native.String.◌++◌ e.0 (Prim.Native.String.◌++◌ "=" e.1)) env

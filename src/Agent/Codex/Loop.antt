-- ===== src/Agent/Codex/Loop.antt =====
-- `Run` and its loop, and the arguments of the process.
use Prim.Native.String
use channel_plugin.Prelude.{
  String, Bool, not, ◌&&◌, Option, none, some, List, [], ◌∷◌, ◌==◌, if◌then◌else◌,
}
use channel_plugin.Prelude.Text.{trim_space, is_blank}
use channel_plugin.Agent.Types.{Response}
use channel_plugin.Agent.Claude.Loop.{ContextError}
use channel_plugin.Agent.Codex.Defs.{
  ready, running, broken, CodexError, prompt_required, is_broken, empty_response, turn_failed, says,
  completed, breaks, CodexRuntime, break_with, one_of, Message, read_message, reader_ends,
  not_started_piece, close_codex, classify_acp_context_error, ThreadCall, Asked, thread_is, fails,
  ensure_thread,
}

-- What `Run` returns.
pub record Result : Type 0 where
  pub response : Response
  pub error : Option CodexError

abbrev pub failure : CodexError → Result
failure e = record {
  response = record {
    text = "";
    runtime_type = "";
    exit_code = 0;
    raw_output = "";
    session_id = "";
  };
  error = some e;
}

-- the deferred function of `Run`
unfoldable pub leave_turn : CodexRuntime → CodexRuntime
leave_turn r = record r { active = none; progress = none }

unfoldable pub fail_turn : CodexError → CodexError → CodexRuntime → CodexRuntime × Option Result
fail_turn cause e r = (leave_turn (break_with cause r), some (failure e))

unfoldable pub back_to_ready : CodexRuntime → CodexRuntime
back_to_ready r = elim r.state [ broken ↦ r | _ ↦ record r { state = ready } ]

-- the end of a turn whose pieces make this text
unfoldable pub conclude : String → CodexRuntime → CodexRuntime × Option Result
conclude said r =
    let text = trim_space said in
    if text == "" then fail_turn empty_response empty_response r else (
      leave_turn (back_to_ready r),
      some (record {
        response = record {
          text = text;
          runtime_type = "codex";
          exit_code = 0;
          raw_output = text;
          session_id = r.thread_id;
        };
        error = none;
      }),
    )

-- What happens while a turn runs: the reader reads a notification or ends, the call of `turn/start`
-- fails, another goroutine closes the runtime, and the two cases of the `select` of `Run`.
pub data CodexHappening : Type 0 where
  notified : Message → CodexHappening
  ends : (cause : String) → CodexHappening
  not_started : CodexError → CodexHappening
  closes : CodexHappening
  context_done : ContextError → CodexHappening
  takes : CodexHappening

abbrev pub beside : String → CodexRuntime × Option Result → String × CodexRuntime × Option Result
beside said (r, out) = (said, r, out)

-- The loop of `Run`; `said` is the text of the pieces so far.
unfoldable pub take_piece : String → CodexRuntime → String × CodexRuntime × Option Result
take_piece said r = elim r.active [
  | none ↦ (said, r, none)
  | some (thread, queue) ↦ elim queue [
    | [] ↦ (said, r, none)
    | piece ∷ rest ↦
        let r' = record r { active = some (thread, rest) } in
        elim piece [
          | says text ↦ (Prim.Native.String.◌++◌ said text, r', none)
          | completed ↦ beside said (conclude said r')
          | breaks e ↦ beside said (fail_turn e (turn_failed e) r')
        ]
  ]
]

unfoldable pub happen_codex :
    CodexHappening → String → CodexRuntime → String × CodexRuntime × Option Result
happen_codex (notified m) said r = (said, read_message m r, none)
happen_codex (ends cause) said r = (said, reader_ends cause r, none)
happen_codex (not_started e) said r = (said, not_started_piece e r, none)
happen_codex closes said r = (said, close_codex r, none)
happen_codex (context_done e) said r =
    let e' = classify_acp_context_error e in beside said (fail_turn e' e' r)
happen_codex takes said r = take_piece said r

unfoldable pub run_turn : List CodexHappening → String → CodexRuntime → CodexRuntime × Option Result
run_turn [] said r = (r, none)
run_turn (h ∷ hs) said r =
    let (said', r', out) = happen_codex h said r in
    elim out [ none ↦ run_turn hs said' r' | some o ↦ (r', some o) ]

-- `Run` up to the thread: the error with which it returns, if any.
unfoldable pub begin_turn : String → CodexRuntime → Option CodexError × CodexRuntime
begin_turn prompt r = if is_blank prompt then (some prompt_required, r) else elim r.state [
  | broken ↦ (some (elim r.read_err [ none ↦ is_broken | some e ↦ e ]), r)
  | _ ↦ (none, record r { state = running })
]

unfoldable pub enter_turn : String → Bool → CodexRuntime → CodexRuntime
enter_turn thread traces r = record r {
  active = some (thread, []);
  progress = if traces then some [] else none;
}

-- `Run`
unfoldable pub run :
    (ThreadCall → CodexRuntime → Asked × CodexRuntime)
    → (prompt resume work_dir : String) → Bool
    → List CodexHappening
    → CodexRuntime
    → CodexRuntime × Option Result
run ask prompt resume work_dir traces hs r =
    let (refused, r1) = begin_turn prompt r in
    elim refused [
      | some e ↦ (r1, some (failure e))
      | none ↦
          let (asked, r2) = ensure_thread ask resume work_dir r1 in
          elim asked [
            | fails e ↦ (break_with e r2, some (failure e))
            | thread_is thread ↦ run_turn hs "" (enter_turn thread traces r2)
          ]
    ]

-- `buildACPArgs`, by the lower-case base name of the command
unfoldable pub build_acp_args : String → List String → Bool → List String
build_acp_args base args real_cli =
    if not (base == "codex") && not (base == "codex.exe") && not real_cli
    then args
    else if one_of "app-server" args
    then args
    else "app-server" ∷ args

-- ===== src/Agent/Opencode/Loop.antt =====
-- `Run`, its loop and its session, and the arguments of the process.
use Prim.Native.String
use channel_plugin.Prelude.{
  String, Bool, true, not, ◌&&◌, Option, none, some, List, [], ◌∷◌, ◌==◌, if◌then◌else◌,
}
use channel_plugin.Prelude.Text.{trim_space, is_blank}
use channel_plugin.Agent.Types.{Response}
use channel_plugin.Agent.Claude.Loop.{ContextError}
use channel_plugin.Agent.Codex.Defs.{one_of}
use channel_plugin.Agent.Opencode.Defs.{
  ready, running, broken, OpencodeError, prompt_required, is_broken, empty_response, prompt_failed,
  PromptEvent, text_is, ended, error_is, OpencodeRuntime, break_runtime, SessionUpdate,
  handle_session_update, output_ends, close_opencode, opencode_context_error,
}
use channel_plugin.Agent.Opencode.Sender.{
  NewAnswer, session_prompt, asking, Turn, new_session_answered, prompt_answered, session_answered,
  give_up, after_take,
}

-- What `Run` returns.
pub record PromptResult : Type 0 where
  pub response : Response
  pub error : Option OpencodeError

abbrev pub no_answer : OpencodeError → PromptResult
no_answer e = record {
  response = record {
    text = "";
    runtime_type = "";
    exit_code = 0;
    raw_output = "";
    session_id = "";
  };
  error = some e;
}

-- the deferred function of `Run`
unfoldable pub leave_prompt : OpencodeRuntime → OpencodeRuntime
leave_prompt r = record r { active = none; progress = none; seen_tool_calls = none }

unfoldable pub give_error :
    OpencodeError → OpencodeError → OpencodeRuntime → OpencodeRuntime × Option PromptResult
give_error cause e r = (leave_prompt (break_runtime cause r), some (no_answer e))

unfoldable pub ready_again : OpencodeRuntime → OpencodeRuntime
ready_again r = elim r.state [ broken ↦ r | _ ↦ record r { state = ready } ]

-- the end of a turn whose events make this text
unfoldable pub give_text : String → OpencodeRuntime → OpencodeRuntime × Option PromptResult
give_text said r =
    let text = trim_space said in
    if text == "" then give_error empty_response empty_response r else (
      leave_prompt (ready_again r),
      some (record {
        response = record {
          text = text;
          runtime_type = "opencode";
          exit_code = 0;
          raw_output = text;
          session_id = r.session_id;
        };
        error = none;
      }),
    )

-- What happens while a turn runs: the reader reads an update or ends, the calls of `sendPrompt` are
-- answered, that goroutine gives up, another one closes the runtime, and the two cases of the `select`
-- of `Run`. `done` is whether the context is done when the prompt fails.
pub data TurnStep : Type 0 where
  updates : SessionUpdate → TurnStep
  reader_stops : (cause : String) → TurnStep
  prompt_returns : Option OpencodeError → (done : Bool) → TurnStep
  session_returns : NewAnswer → TurnStep
  gives_up closes takes : TurnStep
  context_ends : ContextError → TurnStep

abbrev pub within : Turn → OpencodeRuntime × Option PromptResult → Turn × Option PromptResult
within t (r, out) = (record t { runtime = r }, out)

abbrev pub still : Turn → Turn × Option PromptResult
still t = (t, none)

-- The case of the loop of `Run` for an event.
unfoldable pub on_event : PromptEvent → Turn → Turn × Option PromptResult
on_event (text_is text) t = still (record t { said = Prim.Native.String.◌++◌ t.said text })
on_event ended t = within t (give_text t.said t.runtime)
on_event (error_is e) t = within t (give_error e (prompt_failed e) t.runtime)

unfoldable pub freed : String → List PromptEvent → Turn → Turn
freed session rest t =
    let (queue, sender') = after_take rest t.sender in
    record t { runtime = record t.runtime { active = some (session, queue) }; sender = sender' }

unfoldable pub pop_event : String → List PromptEvent → Turn → Turn × Option PromptResult
pop_event session [] t = still t
pop_event session (evt ∷ rest) t = on_event evt (freed session rest t)

unfoldable pub take_from : Option (String × List PromptEvent) → Turn → Turn × Option PromptResult
take_from none t = still t
take_from (some (session, queue)) t = pop_event session queue t

-- `Run` takes an event, if there is one.
unfoldable pub take_next : Turn → Turn × Option PromptResult
take_next t = take_from t.runtime.active t

unfoldable pub turn_step : TurnStep → Turn → Turn × Option PromptResult
turn_step (updates p) t = still (record t { runtime = handle_session_update p t.runtime })
turn_step (reader_stops cause) t = still (record t { runtime = output_ends cause t.runtime })
turn_step (prompt_returns result done) t = still (prompt_answered result done t)
turn_step (session_returns answer) t = still (session_answered answer t)
turn_step gives_up t = still (record t { sender = give_up t.sender })
turn_step closes t = still (record t { runtime = close_opencode t.runtime })
turn_step takes t = take_next t
turn_step (context_ends e) t =
    let e' = opencode_context_error e in within t (give_error e' e' t.runtime)

-- what was returned, or else what comes after
abbrev pub or_later :
    Turn × Option PromptResult → Turn × Option PromptResult → Turn × Option PromptResult
or_later (t, none) later = later
or_later (t, some answer) later = (t, some answer)

-- The turn up to the return of `Run`.
unfoldable pub turn_loop : List TurnStep → Turn → Turn × Option PromptResult
turn_loop [] t = still t
turn_loop (s ∷ ss) t = or_later (turn_step s t) (turn_loop ss (turn_step s t).0)

unfoldable pub adopt_session : String → String → OpencodeRuntime → OpencodeRuntime
adopt_session id work_dir r = record r {
  session_id = id;
  session_work_dir = work_dir;
  session_adopted = true;
}

-- `ensureSession`, with the trimmed id to resume: the error, if any. `ask` calls `session/new`, and
-- the runtime is the one that is there by then.
unfoldable pub ensure_session :
    (String → OpencodeRuntime → NewAnswer × OpencodeRuntime)
    → (resume work_dir : String) → OpencodeRuntime
    → Option OpencodeError × OpencodeRuntime
ensure_session ask resume work_dir r =
    if not (r.session_id == "") && r.session_work_dir == work_dir
    then (none, r)
    else if r.session_id == "" && not (resume == "")
    then (none, adopt_session resume work_dir r)
    else (let (answer, r') = ask work_dir r in new_session_answered answer work_dir r')

-- the start of the turn on the session, with `go r.sendPrompt`
unfoldable pub enter_prompt : String → Bool → OpencodeRuntime → Turn
enter_prompt work_dir traces r = record {
  runtime = record r {
    active = some (r.session_id, []);
    progress = if traces then some [] else none;
    seen_tool_calls = some [];
  };
  sender = asking r.session_id;
  calls = session_prompt r.session_id ∷ [];
  work_dir = work_dir;
  said = "";
}

-- `Run` up to the session: the error with which it returns, if any.
unfoldable pub begin_prompt : String → OpencodeRuntime → Option OpencodeError × OpencodeRuntime
begin_prompt prompt r = if is_blank prompt then (some prompt_required, r) else elim r.state [
  | broken ↦ (some (elim r.read_err [ none ↦ is_broken | some e ↦ e ]), r)
  | _ ↦ (none, record r { state = running })
]

-- the working directory of the request, or that of the spec
unfoldable pub prompt_work_dir : (requested configured : String) → String
prompt_work_dir requested configured =
    if is_blank requested then trim_space configured else trim_space requested

-- `Run`
unfoldable pub run_prompt :
    (String → OpencodeRuntime → NewAnswer × OpencodeRuntime)
    → (prompt resume requested configured : String) → Bool
    → List TurnStep
    → OpencodeRuntime
    → OpencodeRuntime × Option PromptResult
run_prompt ask prompt resume requested configured traces steps r =
    let (refused, r1) = begin_prompt prompt r in
    let work_dir = prompt_work_dir requested configured in
    elim refused [
      | some e ↦ (r1, some (no_answer e))
      | none ↦
          let (failed, r2) = ensure_session ask (trim_space resume) work_dir r1 in
          elim failed [
            | some e ↦ (break_runtime e r2, some (no_answer e))
            | none ↦
                let (t, out) = turn_loop steps (enter_prompt work_dir traces r2) in (t.runtime, out)
          ]
    ]

-- `buildACPArgs`, by the lower-case base name of the command
unfoldable pub opencode_args : String → List String → Bool → List String
opencode_args base args real_cli =
    if not (base == "opencode") && not (base == "opencode.exe") && not real_cli
    then args
    else if one_of "acp" args
    then args
    else "acp" ∷ args

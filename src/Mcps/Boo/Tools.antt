-- ===== src/Mcps/Boo/Tools.antt =====
-- The tools: the call of boo and what its exit code and its output stand for.
use channel_plugin.Prelude.{
  ℕ, String, Bool, true, false, Option, none, some, List, [], nat_eq, if◌then◌else◌,
}
use channel_plugin.Prelude.Int.{ℤ, pos, negsuc}
use channel_plugin.Prelude.Text.{trim_space, is_blank}
use channel_plugin.Mcps.Boo.Args.{
  Args, ArgsError, argv, refused, NewInput, SendInput, PeekInput, WaitInput, KillInput, args_for_ls,
  args_for_new, args_for_send, args_for_peek, args_for_wait, args_for_kill,
}

-- what `runBoo` returns
pub data Ran : Type 0 where
  not_run : String → Ran
  ran : ℤ → (stdout stderr : String) → Ran

pub data ToolError : Type 0 where
  bad_input : ArgsError → ToolError
  not_available : String → ToolError
  no_session : String → ToolError
  -- with the text of stderr, or none where that is blank
  exit_failed : ℤ → Option String → ToolError
  unparsed : ToolError

pub data Answered {ℓ} (A : Type ℓ) : Type ℓ where
  answer : A → Answered A
  tool_failed : ToolError → Answered A

-- `booError`
unfoldable pub boo_error : String → ℤ → String → Option ToolError
boo_error name (pos n) stderr =
    if nat_eq n 0
    then none
    else if nat_eq n 3
    then some (no_session name)
    else some (exit_failed (pos n) (if is_blank stderr then none else some (trim_space stderr)))
boo_error name (negsuc n) stderr =
    some (exit_failed (negsuc n) (if is_blank stderr then none else some (trim_space stderr)))

pub record LiveSession : Type 0 where
  pub name : String
  pub attached : Bool
  pub idle_ms : ℕ
  pub title : String

pub record PeekOutput : Type 0 where
  pub session : String
  pub title : String
  pub rows : ℕ
  pub cols : ℕ
  pub cursor : ℕ × ℕ
  pub screen : String

abbrev pub or_answer {ℓ} : {A : Type ℓ} → Option ToolError → Answered A → Answered A
or_answer none a = a
or_answer (some e) a = tool_failed e

abbrev pub parsed {ℓ} : {A : Type ℓ} → Option A → Answered A
parsed none = tool_failed unparsed
parsed (some a) = answer a

-- the end of a tool: what comes of a run, for a session and a reading of the output
unfoldable pub finish_tool {ℓ} : {A : Type ℓ} → String → (String → Answered A) → Ran → Answered A
finish_tool name read (not_run e) = tool_failed (not_available e)
finish_tool name read (ran code stdout stderr) =
    or_answer (boo_error name code stderr) (read stdout)

-- exit 4 is a timeout, which is an answer
unfoldable pub wait_end : String → Ran → Answered Bool
wait_end name (not_run e) = tool_failed (not_available e)
wait_end name (ran (pos n) stdout stderr) =
    if nat_eq n 4 then answer false else or_answer (boo_error name (pos n) stderr) (answer true)
wait_end name (ran (negsuc n) stdout stderr) =
    or_answer (boo_error name (negsuc n) stderr) (answer true)

module _ {W : Type 0} (run_boo : List String → W → Ran × W) where
  -- a tool: it runs what it has built
  unfoldable pub run_tool {ℓ} : {A : Type ℓ} → Args → (Ran → Answered A) → W → Answered A × W
  run_tool (refused e) end w = (tool_failed (bad_input e), w)
  run_tool (argv args) end w = let (r, w') = run_boo args w in (end r, w')

  -- blank output is no session
  unfoldable pub run_ls : (String → Option (List LiveSession)) → W → Answered (List LiveSession) × W
  run_ls decode =
      run_tool args_for_ls
        (finish_tool "" (λ out. if is_blank out then answer [] else parsed (decode out)))

  -- the name of the new session
  unfoldable pub run_new : NewInput → W → Answered String × W
  run_new x = run_tool (args_for_new x) (finish_tool x.name (λ out. answer (trim_space out)))

  unfoldable pub run_send : SendInput → W → Answered Bool × W
  run_send x = run_tool (args_for_send x) (finish_tool x.name (λ _. answer true))

  unfoldable pub run_peek : (String → Option PeekOutput) → PeekInput → W → Answered PeekOutput × W
  run_peek decode x = run_tool (args_for_peek x) (finish_tool x.name (λ out. parsed (decode out)))

  unfoldable pub run_wait : WaitInput → W → Answered Bool × W
  run_wait x = run_tool (args_for_wait x) (wait_end x.name)

  unfoldable pub run_kill : KillInput → W → Answered Bool × W
  run_kill x = run_tool (args_for_kill x) (finish_tool x.name (λ _. answer true))

-- ===== src/Agent/Codex/Defs.antt =====
-- The runtime, its reader, `Close` and the thread of a turn. Messages are decoded, and what
-- cannot be decoded is `ignored`.

use channel_plugin.Prelude.{
  ℕ, String, Bool, true, false, not, ◌&&◌, ◌||◌, Option, none, some, List, [], ◌∷◌, ◌++◌, length,
  ltb, ◌==◌, if◌then◌else◌,
}
use channel_plugin.Agent.Progress.{target_from_input, field}
use channel_plugin.Agent.Claude.Defs.{ProgressEvent}
use channel_plugin.Agent.Claude.Loop.{ContextError, deadline_exceeded, cancelled}

pub data CodexState : Type 0 where
  starting ready running broken : CodexState

pub data CodexError : Type 0 where
  prompt_required is_broken is_closed timed_out canceled empty_response : CodexError
  context_failed : String → CodexError
  -- the error of the scanner, and the same as `readErr` tells it
  scan_error read_failed : String → CodexError
  rpc_failed : String → CodexError
  turn_failed : CodexError → CodexError

-- `acpTurnEvent`: a delta or a text, the end of the turn, or an error.
pub data TurnPiece : Type 0 where
  says : String → TurnPiece
  completed : TurnPiece
  breaks : CodexError → TurnPiece

-- `active` is the thread and the buffer of the turn that runs, `progress` its callback by what it was
-- called with.
pub record CodexRuntime : Type 0 where
  pub state : CodexState
  pub read_err : Option CodexError
  pub stdin : Bool
  pub closed : Bool
  pub thread_id : String
  pub thread_work_dir : String
  pub active : Option (String × List TurnPiece)
  pub progress : Option (List ProgressEvent)

-- the runtime that `Init` returns
abbrev pub initialized : CodexRuntime
initialized = record {
  state = ready;
  read_err = none;
  stdin = true;
  closed = false;
  thread_id = "";
  thread_work_dir = "";
  active = none;
  progress = none;
}

-- `make(chan acpTurnEvent, 256)`
abbrev pub piece_cap : ℕ
piece_cap = 256

-- `markBroken`: unlike that of the Claude driver, it keeps the last error.
unfoldable pub break_with : CodexError → CodexRuntime → CodexRuntime
break_with e r = record r { state = broken; read_err = some e }

-- Is an event of this thread one of the turn on the active thread?
abbrev pub concerns : (active_thread thread : String) → Bool
concerns active_thread thread = thread == "" || active_thread == "" || thread == active_thread

-- `dispatchTurnEvent`
unfoldable pub dispatch_piece : String → TurnPiece → CodexRuntime → CodexRuntime
dispatch_piece thread piece r = elim r.active [
  | none ↦ r
  | some (active_thread, queue) ↦
      if concerns active_thread thread && ltb (length queue) piece_cap
      then record r { active = some (active_thread, queue ++ piece ∷ []) }
      else r
]

-- `dispatchProgress`
unfoldable pub report_progress : ProgressEvent → CodexRuntime → CodexRuntime
report_progress ev r = elim r.progress [
  | none ↦ r
  | some seen ↦ record r { progress = some (seen ++ ev ∷ []) }
]

abbrev pub one_of : String → List String → Bool
one_of x [] = false
one_of x (y ∷ ys) = let later = one_of x ys in x == y || later

unfoldable pub path_in : List (String × Option String) → Option (Option String)
path_in [] = none
path_in ((k, v) ∷ fields) = let later = path_in fields in if k == "path" then some v else later

-- `m["file_path"] = m["path"]`, if there is a path
unfoldable pub with_path : List (String × Option String) → List (String × Option String)
with_path fields = elim (path_in fields) [ none ↦ fields | some v ↦ ("file_path", v) ∷ fields ]

-- `codexToolFromItem`: the tool and its target.
unfoldable pub codex_tool_from_item :
    String → List (String × Option String) → Option (String × String)
codex_tool_from_item type fields =
    if one_of type ("commandExecution" ∷ "command_execution" ∷ "command" ∷ [])
    then some ("Bash", target_from_input "Bash" fields)
    else if one_of type ("fileChange" ∷ "file_change" ∷ "patch" ∷ [])
    then some ("Edit", target_from_input "Edit" (with_path fields))
    else if one_of type ("mcpToolCall" ∷ "mcp_tool_call" ∷ "toolCall" ∷ [])
    then (let name = field "name" fields in
        let tool = if name == "" then "Task" else name in
        some (tool, target_from_input tool fields))
    else none

-- An item that has started: a message with its contents by type and text, or anything else.
pub data Item : Type 0 where
  agent_message : List (String × String) → Item
  item_of : (type : String) (fields : List (String × Option String)) → Item

-- The notifications that the reader tells apart; the two methods for a delta do the same.
pub data Message : Type 0 where
  delta : (thread text : String) → Message
  item_started : (thread : String) → Item → Message
  turn_completed : (thread : String) → Message
  ignored : Message

unfoldable pub dispatch_contents : String → List (String × String) → CodexRuntime → CodexRuntime
dispatch_contents thread [] r = r
dispatch_contents thread ((type, text) ∷ cs) r =
    dispatch_contents thread cs
      (if type == "text" && not (text == "") then dispatch_piece thread (says text) r else r)

-- `handleItemStarted`
unfoldable pub handle_item_started : String → Item → CodexRuntime → CodexRuntime
handle_item_started thread (agent_message contents) r = dispatch_contents thread contents r
handle_item_started thread (item_of type fields) r = elim (codex_tool_from_item type fields) [
  | none ↦ r
  | some (tool, target) ↦ report_progress (record { kind = "tool"; tool = tool; target = target }) r
]

-- one round of `readLoop`, for a notification
unfoldable pub read_message : Message → CodexRuntime → CodexRuntime
read_message (delta thread text) r = if text == "" then r else dispatch_piece thread (says text) r
read_message (item_started thread item) r = handle_item_started thread item r
read_message (turn_completed thread) r = dispatch_piece thread completed r
read_message ignored r = r

-- the end of `readLoop` for the turn
unfoldable pub reader_ends : String → CodexRuntime → CodexRuntime
reader_ends cause r = elim r.active [
  | none ↦ break_with (read_failed cause) r
  | some (active_thread, queue) ↦
      dispatch_piece active_thread (breaks (scan_error cause)) (break_with (read_failed cause) r)
]

-- the piece that the goroutine of `turn/start` puts into the buffer of its turn
unfoldable pub not_started_piece : CodexError → CodexRuntime → CodexRuntime
not_started_piece e r = elim r.active [
  | none ↦ r
  | some (active_thread, queue) ↦ dispatch_piece active_thread (breaks e) r
]

-- `Close` up to the process
unfoldable pub close_codex : CodexRuntime → CodexRuntime
close_codex r =
    if r.closed
    then r
    else record r { closed = true; stdin = false; state = broken; read_err = some is_closed }

-- `classifyACPContextError`
unfoldable pub classify_acp_context_error : ContextError → CodexError
classify_acp_context_error deadline_exceeded = timed_out
classify_acp_context_error cancelled = canceled
classify_acp_context_error (ContextError.other e) = context_failed e

-- What `ensureThread` asks for; the answer is the id of the thread, or an error, with the runtime that
-- is there by then.
pub data ThreadCall : Type 0 where
  resume_thread : String → ThreadCall
  start_thread : (work_dir : String) → ThreadCall

pub data Asked : Type 0 where
  thread_is : String → Asked
  fails : CodexError → Asked

unfoldable pub keep_thread : String → String → CodexRuntime → CodexRuntime
keep_thread id work_dir r = record r { thread_id = id; thread_work_dir = work_dir }

module _ (ask : ThreadCall → CodexRuntime → Asked × CodexRuntime) where
  unfoldable pub start_fresh : String → CodexRuntime → Asked × CodexRuntime
  start_fresh work_dir r =
      let (answer, r') = ask (start_thread work_dir) r in
      elim answer [
        | fails e ↦ (fails e, r')
        | thread_is id ↦ (thread_is id, keep_thread id work_dir r')
      ]

  -- `ensureThread`, with the trimmed id to resume
  unfoldable pub ensure_thread : String → String → CodexRuntime → Asked × CodexRuntime
  ensure_thread resume work_dir r =
      if not (r.thread_id == "") && r.thread_work_dir == work_dir
      then (thread_is r.thread_id, r)
      else if r.thread_id == "" && not (resume == "")
      then (let (answer, r') = ask (resume_thread resume) r in
          elim answer [
            | thread_is id ↦ (thread_is id, keep_thread id work_dir r')
            | fails e ↦ start_fresh work_dir r'
          ])
      else start_fresh work_dir r

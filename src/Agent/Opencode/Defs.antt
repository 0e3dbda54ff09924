-- ===== src/Agent/Opencode/Defs.antt =====
-- The runtime and what its reader does with an update of the session. An update is decoded, and what
-- is missing in it is empty.
use channel_plugin.Prelude.{
  ℕ, String, Bool, true, false, not, ◌&&◌, ◌||◌, Option, none, some, List, [], ◌∷◌, ◌++◌, length,
  ltb, ◌==◌, if◌then◌else◌,
}
use channel_plugin.Agent.Progress.{target_from_input}
use channel_plugin.Agent.Claude.Defs.{ProgressEvent}
use channel_plugin.Agent.Claude.Loop.{ContextError, deadline_exceeded, cancelled}
use channel_plugin.Agent.Codex.Defs.{one_of}

pub data OpencodeState : Type 0 where
  starting ready running broken : OpencodeState

pub data OpencodeError : Type 0 where
  prompt_required is_broken is_closed timed_out canceled empty_response : OpencodeError
  context_failed : String → OpencodeError
  -- the error of the scanner, and the same as `readErr` tells it
  scan_error read_failed : String → OpencodeError
  rpc_failed : String → OpencodeError
  -- an answer to `session/new` that cannot be decoded or has no id
  undecodable empty_session_id : OpencodeError
  prompt_failed : OpencodeError → OpencodeError

-- `acpPromptEvent`: a delta or a text, the end of the turn, or an error.
pub data PromptEvent : Type 0 where
  text_is : String → PromptEvent
  ended : PromptEvent
  error_is : OpencodeError → PromptEvent

-- `active` is the session and the buffer of the turn that runs, `progress` its callback by what it was
-- called with, and `seen_tool_calls` is `none` where the map is nil.
pub record OpencodeRuntime : Type 0 where
  pub state : OpencodeState
  pub read_err : Option OpencodeError
  pub stdin : Bool
  pub closed : Bool
  pub session_id : String
  pub session_work_dir : String
  pub session_adopted : Bool
  pub active : Option (String × List PromptEvent)
  pub progress : Option (List ProgressEvent)
  pub seen_tool_calls : Option (List String)

-- the runtime that `Init` returns
abbrev pub opened : OpencodeRuntime
opened = record {
  state = ready;
  read_err = none;
  stdin = true;
  closed = false;
  session_id = "";
  session_work_dir = "";
  session_adopted = false;
  active = none;
  progress = none;
  seen_tool_calls = none;
}

-- `make(chan acpPromptEvent, 256)`
abbrev pub prompt_cap : ℕ
prompt_cap = 256

-- `markBroken`
unfoldable pub break_runtime : OpencodeError → OpencodeRuntime → OpencodeRuntime
break_runtime e r = record r { state = broken; read_err = some e }

-- a `select` that sends, or goes on where the buffer is full
unfoldable pub try_put : PromptEvent → List PromptEvent → List PromptEvent
try_put evt queue = if ltb (length queue) prompt_cap then queue ++ evt ∷ [] else queue

-- Is an event of this session one of the turn on the active session?
abbrev pub routed : (active_session session : String) → Bool
routed active_session session = session == "" || active_session == "" || session == active_session

-- `dispatchDelta`, `dispatchText` and `dispatchCompleted`, which differ in the event alone
unfoldable pub dispatch_event : String → PromptEvent → OpencodeRuntime → OpencodeRuntime
dispatch_event session evt r = elim r.active [
  | none ↦ r
  | some (active_session, queue) ↦
      if routed active_session session
      then record r { active = some (active_session, try_put evt queue) }
      else r
]

-- an entry of `contentItems`, or `contentItem`
pub record ContentItem : Type 0 where
  pub type : String
  pub text : String
  pub delta : String
  pub completed : Bool

-- `dispatchPromptEvent`
unfoldable pub dispatch_prompt_event : String → ContentItem → OpencodeRuntime → OpencodeRuntime
dispatch_prompt_event session item r =
    if not (item.delta == "")
    then (let r' = dispatch_event session (text_is item.delta) r in
        if item.completed then dispatch_event session ended r' else r')
    else if not (item.text == "") && item.completed
    then dispatch_event session ended (dispatch_event session (text_is item.text) r)
    else if item.completed
    then dispatch_event session ended r
    else if not (item.text == "")
    then dispatch_event session (text_is item.text) r
    else r

-- `payload.Update`; `content_text` is the text of its content, "" where that is no object or has none.
pub record UpdateEnvelope : Type 0 where
  pub session_update : String
  pub tool_call_id : String
  pub status : String
  pub title : String
  pub kind : String
  pub raw_input : List (String × Option String)
  pub content_text : String

pub record SessionUpdate : Type 0 where
  pub session_id : String
  pub update : UpdateEnvelope
  pub item : ContentItem
  pub content_items : List ContentItem

-- `dispatchProgress`
unfoldable pub call_progress : ProgressEvent → OpencodeRuntime → OpencodeRuntime
call_progress ev r = elim r.progress [
  | none ↦ r
  | some told ↦ record r { progress = some (told ++ ev ∷ []) }
]

abbrev pub was_seen : String → Option (List String) → Bool
was_seen id none = false
was_seen id (some ids) = one_of id ids

-- Under the lock, an id that is new is added to the map, where that is there.
unfoldable pub note_seen : String → Option (List String) → Option (List String)
note_seen id none = none
note_seen id (some ids) = if one_of id ids then some ids else some (id ∷ ids)

abbrev pub is_running_tool : UpdateEnvelope → Bool
is_running_tool u =
    u.session_update == "tool_call_update"
    && u.status == "in_progress"
    && not (u.tool_call_id == "")

-- the tool that an update tells of, `title` before `kind`
unfoldable pub tool_of : UpdateEnvelope → String
tool_of u = if u.title == "" then u.kind else u.title

unfoldable pub tool_event : UpdateEnvelope → ProgressEvent
unfolding tool_of
tool_event u = record {
  kind = "tool";
  tool = tool_of u;
  target = target_from_input (tool_of u) u.raw_input;
}

-- the tool call of an update
unfoldable pub report_tool : UpdateEnvelope → OpencodeRuntime → OpencodeRuntime
report_tool u r =
    if is_running_tool u
    then (let r' = record r { seen_tool_calls = note_seen u.tool_call_id r.seen_tool_calls } in
        if was_seen u.tool_call_id r.seen_tool_calls || tool_of u == ""
        then r'
        else call_progress (tool_event u) r')
    else r

-- the chunk of an answer that an update has
unfoldable pub dispatch_chunk : String → UpdateEnvelope → OpencodeRuntime → OpencodeRuntime
dispatch_chunk session u r =
    if u.session_update == "agent_message_chunk" && not (u.content_text == "")
    then dispatch_event session (text_is u.content_text) r
    else r

unfoldable pub dispatch_item : String → ContentItem → OpencodeRuntime → OpencodeRuntime
dispatch_item session item r = if item.type == "" then r else dispatch_prompt_event session item r

unfoldable pub dispatch_items : String → List ContentItem → OpencodeRuntime → OpencodeRuntime
dispatch_items session [] r = r
dispatch_items session (item ∷ items) r =
    dispatch_items session items (dispatch_prompt_event session item r)

unfoldable pub handle_session_update : SessionUpdate → OpencodeRuntime → OpencodeRuntime
handle_session_update p r = dispatch_items p.session_id p.content_items (
    dispatch_item p.session_id p.item
      (dispatch_chunk p.session_id p.update (report_tool p.update r)))

-- `Close` up to the process
unfoldable pub close_opencode : OpencodeRuntime → OpencodeRuntime
close_opencode r =
    if r.closed
    then r
    else record r { closed = true; stdin = false; state = broken; read_err = some is_closed }

-- the end of `readLoop` for the turn
unfoldable pub output_ends : String → OpencodeRuntime → OpencodeRuntime
output_ends cause r =
    let r' = break_runtime (read_failed cause) r in
    elim r.active [
      | none ↦ r'
      | some (session, queue) ↦ record r' {
        active = some (session, try_put (error_is (scan_error cause)) queue);
      }
    ]

-- `classifyACPContextError` of this driver
unfoldable pub opencode_context_error : ContextError → OpencodeError
opencode_context_error deadline_exceeded = timed_out
opencode_context_error cancelled = canceled
opencode_context_error (ContextError.other e) = context_failed e

-- `handlePermissionRequest`: the option that is chosen among those that are offered, by id and kind
unfoldable pub permission_option : List (String × String) → String
permission_option [] = "allow"
permission_option ((id, kind) ∷ options) =
    let later = permission_option options in
    if kind == "allow" || kind == "allowOnce" then id else later

-- the answer to a request for permission, which is written if the runtime is not closed
unfoldable pub handle_permission_request : List (String × String) → OpencodeRuntime → Option String
handle_permission_request options r = if r.stdin then some (permission_option options) else none

-- ===== src/Agent/Opencode/Updates.antt =====
-- What an update of the session does, as the list of the events that it has for the turn.
use channel_plugin.Prelude.{
  ◌+◌, ◌≤◌, String, true, false, not, ◌&&◌, some, List, [], ◌∷◌, ◌++◌, length, length-append, arith,
  ◌==◌, ◌≡◌, refl, if◌then◌else◌, Bool-cases, inl, inr,
}
use mathlib.Core.List.{append_assoc, append-nil}
use channel_plugin.Agent.Opencode.Defs.{
  PromptEvent, text_is, ended, OpencodeRuntime, prompt_cap, try_put, routed, dispatch_event,
  ContentItem, dispatch_prompt_event, UpdateEnvelope, SessionUpdate, call_progress, report_tool,
  dispatch_chunk, dispatch_item, dispatch_items, handle_session_update,
}

abbrev pub events_of_item : ContentItem → List PromptEvent
events_of_item item =
    if not (item.delta == "")
    then (if item.completed then text_is item.delta ∷ ended ∷ [] else text_is item.delta ∷ [])
    else if not (item.text == "") && item.completed
    then text_is item.text ∷ ended ∷ []
    else if item.completed
    then ended ∷ []
    else if not (item.text == "")
    then text_is item.text ∷ []
    else []

abbrev pub events_of_items : List ContentItem → List PromptEvent
events_of_items [] = []
events_of_items (item ∷ items) = events_of_item item ++ events_of_items items

abbrev pub events_of_chunk : UpdateEnvelope → List PromptEvent
events_of_chunk u =
    if u.session_update == "agent_message_chunk" && not (u.content_text == "")
    then text_is u.content_text ∷ []
    else []

-- the events that an update has for the turn of its session
abbrev pub events_of_update : SessionUpdate → List PromptEvent
events_of_update p =
    events_of_chunk p.update
    ++ ((if p.item.type == "" then [] else events_of_item p.item)
        ++ events_of_items p.content_items)

pub dispatch_all : String → List PromptEvent → OpencodeRuntime → OpencodeRuntime
dispatch_all session [] r = r
dispatch_all session (evt ∷ evts) r = dispatch_all session evts (dispatch_event session evt r)

dispatch_all-append :
    (session : String) (xs ys : List PromptEvent) (r : OpencodeRuntime)
    → dispatch_all session (xs ++ ys) r ≡ dispatch_all session ys (dispatch_all session xs r)
unfolding dispatch_all
dispatch_all-append session [] ys r = refl
dispatch_all-append session (x ∷ xs) ys r =
    dispatch_all-append session xs ys (dispatch_event session x r)

dispatch_prompt_event_lem :
    (session : String) (item : ContentItem) (r : OpencodeRuntime)
    → dispatch_prompt_event session item r ≡ dispatch_all session (events_of_item item) r
unfolding dispatch_prompt_event dispatch_all
dispatch_prompt_event_lem session item r = ground arith

dispatch_item_lem :
    (session : String) (item : ContentItem) (r : OpencodeRuntime)
    → dispatch_item session item r
      ≡ dispatch_all session (if item.type == "" then [] else events_of_item item) r
unfolding dispatch_item dispatch_all
dispatch_item_lem session item r = elim (Bool-cases (item.type == "")) [
  | inl e ↦ rw e refl
  | inr e ↦ rw e (dispatch_prompt_event_lem session item r)
]

dispatch_items_lem :
    (session : String) (items : List ContentItem) (r : OpencodeRuntime)
    → dispatch_items session items r ≡ dispatch_all session (events_of_items items) r
unfolding dispatch_items
dispatch_items_lem session [] r = unfold dispatch_all in refl
dispatch_items_lem session (item ∷ items) r = rw (
  dispatch_prompt_event_lem session item r,
  dispatch_items_lem session items (dispatch_all session (events_of_item item) r),
  dispatch_all-append session (events_of_item item) (events_of_items items) r,
)

dispatch_chunk_lem :
    (session : String) (u : UpdateEnvelope) (r : OpencodeRuntime)
    → dispatch_chunk session u r ≡ dispatch_all session (events_of_chunk u) r
unfolding dispatch_chunk dispatch_all
dispatch_chunk_lem session u r = ground arith

-- An update tells of a tool call, and hands over its events.
pub handle_session_update_lem :
    (p : SessionUpdate) (r : OpencodeRuntime)
    → handle_session_update p r
      ≡ dispatch_all p.session_id (events_of_update p) (report_tool p.update r)
unfolding handle_session_update
handle_session_update_lem p r =
    let s = p.session_id in
    let c = events_of_chunk p.update in
    let i : List PromptEvent = if p.item.type == "" then [] else events_of_item p.item in
    let r1 = report_tool p.update r in
    rw (
      dispatch_chunk_lem s p.update r1,
      dispatch_item_lem s p.item (dispatch_all s c r1),
      dispatch_items_lem s p.content_items (dispatch_all s i (dispatch_all s c r1)),
      dispatch_all-append s c (i ++ events_of_items p.content_items) r1,
      dispatch_all-append s i (events_of_items p.content_items) (dispatch_all s c r1),
    )

-- What events leave alone: all but the buffer.
pub record SameBeside (r r' : OpencodeRuntime) : Type 0 where
  pub id_same : r'.session_id ≡ r.session_id
  pub adopted_same : r'.session_adopted ≡ r.session_adopted
  pub progress_same : r'.progress ≡ r.progress
  pub seen_same : r'.seen_tool_calls ≡ r.seen_tool_calls

pub dispatch_all-SameBeside :
    (session : String) (evts : List PromptEvent) (r : OpencodeRuntime)
    → SameBeside r (dispatch_all session evts r)
unfolding dispatch_all dispatch_event
dispatch_all-SameBeside session [] r = ground arith
dispatch_all-SameBeside session (evt ∷ evts) r =
    ground (arith, dispatch_all-SameBeside session evts (dispatch_event session evt r))

pub dispatch_all_own :
    (session active_session : String) (evts queue : List PromptEvent) (r : OpencodeRuntime)
    → r.active ≡ some (active_session, queue)
    → routed active_session session ≡ true
    → length queue + length evts ≤ prompt_cap
    → (dispatch_all session evts r).active ≡ some (active_session, queue ++ evts)
unfolding dispatch_all dispatch_event try_put
dispatch_all_own session active_session [] queue r a own fits = ground (arith, append-nil queue)
dispatch_all_own session active_session (evt ∷ evts) queue r a own fits =
    let r' = dispatch_event session evt r in
    let next = queue ++ evt ∷ [] in
    let longer = length-append queue (evt ∷ []) in
    ground (
      arith,
      append_assoc queue (evt ∷ []) evts,
      dispatch_all_own session active_session evts next r' (ground (arith, own)) own
          (omega (arith, longer)),
    )

pub dispatch_all_foreign :
    (session active_session : String) (evts queue : List PromptEvent) (r : OpencodeRuntime)
    → r.active ≡ some (active_session, queue)
    → routed active_session session ≡ false
    → (dispatch_all session evts r).active ≡ some (active_session, queue)
unfolding dispatch_all dispatch_event
dispatch_all_foreign session active_session [] queue r a foreign = a
dispatch_all_foreign session active_session (evt ∷ evts) queue r a foreign =
    dispatch_all_foreign session active_session evts queue (dispatch_event session evt r)
      (ground (arith, foreign)) foreign

-- What the report of a tool call leaves alone.
pub report_tool_lem :
    (u : UpdateEnvelope) (r : OpencodeRuntime)
    → ((report_tool u r).active ≡ r.active)
      × ((report_tool u r).session_id ≡ r.session_id)
      × ((report_tool u r).session_adopted ≡ r.session_adopted)
unfolding report_tool call_progress
report_tool_lem u r = ground arith

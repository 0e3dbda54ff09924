-- ===== src/Agent/Opencode/Tools.antt =====
-- The progress of tool calls.
use channel_plugin.Prelude.{
  String, Bool, true, Option, none, some, List, [], ◌∷◌, arith, eq_refl, ◌≡◌, ◌≢◌, refl, ◌∙◌,
}
use channel_plugin.Agent.Opencode.Defs.{
  OpencodeError, OpencodeRuntime, UpdateEnvelope, SessionUpdate, report_tool, call_progress,
  was_seen, note_seen, is_running_tool, handle_session_update, output_ends, break_runtime,
  close_opencode, PromptEvent, text_is, ended, error_is,
}
use channel_plugin.Agent.Opencode.Updates.{
  dispatch_all-SameBeside, events_of_update, handle_session_update_lem,
}
use channel_plugin.Agent.Opencode.Sender.{
  NewAnswer, call_failed, garbled, id_is, Sender, asking, renewing, retrying, waiting, finished,
  Turn, new_session_answered, keep_session, on_buffer, sender_fails, signal_in, signal_completed,
  clear_session, recover, prompt_answered_at, prompt_answered, repoint, retry, on_new,
  session_answered_at, session_answered,
}
use channel_plugin.Agent.Opencode.Loop.{
  TurnStep, updates, reader_stops, prompt_returns, session_returns, gives_up, closes, takes,
  context_ends, on_event, freed, pop_event, take_from, take_next, give_text, give_error, turn_step,
  turn_loop, or_later, PromptResult,
}

-- Has the call of a tool been told of in this turn?
abbrev Told : String → OpencodeRuntime → Type 0
Told id r = was_seen id r.seen_tool_calls ≡ true

report_tool-Told :
    (id : String) (u : UpdateEnvelope) (r : OpencodeRuntime) → Told id r → Told id (report_tool u r)
unfolding report_tool call_progress note_seen
report_tool-Told id u r h = ground arith

report_tool-seen :
    (u : UpdateEnvelope) (r : OpencodeRuntime)
    → r.seen_tool_calls ≢ none
    → is_running_tool u ≡ true
    → Told u.tool_call_id (report_tool u r)
unfolding report_tool call_progress note_seen
report_tool-seen u r h run = ground (arith, run, eq_refl u.tool_call_id)

report_tool_again :
    (u : UpdateEnvelope) (r : OpencodeRuntime)
    → Told u.tool_call_id r
    → (report_tool u r).progress ≡ r.progress
unfolding report_tool
report_tool_again u r h = ground (arith, h)

update-Told :
    (id : String) (p : SessionUpdate) (r : OpencodeRuntime)
    → Told id (report_tool p.update r)
    → Told id (handle_session_update p r)
update-Told id p r h =
    let told = report_tool p.update r in
    let same = dispatch_all-SameBeside p.session_id (events_of_update p) told in
    rw (handle_session_update_lem p r, same.seen_same) h

update_progress :
    (p : SessionUpdate) (r : OpencodeRuntime)
    → (handle_session_update p r).progress ≡ (report_tool p.update r).progress
update_progress p r =
    let told = report_tool p.update r in
    let same = dispatch_all-SameBeside p.session_id (events_of_update p) told in
    rw (handle_session_update_lem p r) same.progress_same

-- the calls of the sender leave the tool calls alone
abbrev seen_calls : Turn → Option (List String)
seen_calls t = t.runtime.seen_tool_calls

sender_fails-seen_calls :
    (e : OpencodeError) (t : Turn) → seen_calls (sender_fails e t) ≡ seen_calls t
unfolding sender_fails on_buffer
sender_fails-seen_calls e t = ground arith

signal_in-seen_calls :
    (active : Option (String × List PromptEvent)) (t : Turn)
    → seen_calls (signal_in active t) ≡ seen_calls t
unfolding signal_in
signal_in-seen_calls none t = refl
signal_in-seen_calls (some (session, queue)) t = ground arith

prompt_answered-seen_calls :
    (s : Sender) (result : Option OpencodeError) (done : Bool) (t : Turn)
    → seen_calls (prompt_answered_at s result done t) ≡ seen_calls t
unfolding prompt_answered_at signal_completed recover clear_session
prompt_answered-seen_calls (asking x) none done t = signal_in-seen_calls t.runtime.active t
prompt_answered-seen_calls (asking x) (some e) done t = ground (arith, sender_fails-seen_calls e t)
prompt_answered-seen_calls retrying none done t = signal_in-seen_calls t.runtime.active t
prompt_answered-seen_calls retrying (some e) done t = sender_fails-seen_calls e t
prompt_answered-seen_calls (renewing e) result done t = refl
prompt_answered-seen_calls waiting result done t = refl
prompt_answered-seen_calls finished result done t = refl

on_new-seen_calls :
    (cause : OpencodeError) (failed : Option OpencodeError) (r : OpencodeRuntime) (t : Turn)
    → seen_calls (on_new cause failed r t) ≡ r.seen_tool_calls
unfolding on_new retry repoint
on_new-seen_calls cause (some e) r t = sender_fails-seen_calls cause (record t { runtime = r })
on_new-seen_calls cause none r t = ground arith

new_session-seen_calls :
    (answer : NewAnswer) (work_dir : String) (r : OpencodeRuntime)
    → (new_session_answered answer work_dir r).1.seen_tool_calls ≡ r.seen_tool_calls
unfolding new_session_answered keep_session
new_session-seen_calls (call_failed e) work_dir r = refl
new_session-seen_calls garbled work_dir r = refl
new_session-seen_calls (id_is id) work_dir r = ground arith

session_answered-seen_calls :
    (s : Sender) (answer : NewAnswer) (t : Turn)
    → seen_calls (session_answered_at s answer t) ≡ seen_calls t
unfolding session_answered_at
session_answered-seen_calls (renewing cause) answer t =
    let (failed, r) = new_session_answered answer t.work_dir t.runtime in
    on_new-seen_calls cause failed r t ∙ new_session-seen_calls answer t.work_dir t.runtime
session_answered-seen_calls (asking x) answer t = refl
session_answered-seen_calls retrying answer t = refl
session_answered-seen_calls waiting answer t = refl
session_answered-seen_calls finished answer t = refl

give_text_returns : (said : String) (r : OpencodeRuntime) → (give_text said r).1 ≢ none
unfolding give_text give_error
give_text_returns said r = ground arith

pop_event-seen_calls :
    (id : String) (queue : List PromptEvent) (t : Turn)
    → (pop_event id queue t).1 ≡ none
    → seen_calls (pop_event id queue t).0 ≡ seen_calls t
unfolding pop_event on_event freed give_error
pop_event-seen_calls id [] t h = refl
pop_event-seen_calls id (text_is text ∷ rest) t h = refl
pop_event-seen_calls id (ended ∷ rest) t h =
    absurd (give_text_returns t.said (freed id rest t).runtime h)
pop_event-seen_calls id (error_is e ∷ rest) t h = cc

take_from-seen_calls :
    (active : Option (String × List PromptEvent)) (t : Turn)
    → (take_from active t).1 ≡ none
    → seen_calls (take_from active t).0 ≡ seen_calls t
unfolding take_from
take_from-seen_calls none t h = refl
take_from-seen_calls (some (id, queue)) t h = pop_event-seen_calls id queue t h

step-Told :
    (id : String) (s : TurnStep) (t : Turn)
    → (turn_step s t).1 ≡ none
    → Told id t.runtime
    → Told id (turn_step s t).0.runtime
unfolding turn_step prompt_answered session_answered take_next output_ends break_runtime
    close_opencode give_error
step-Told id (updates p) t h n =
    update-Told id p t.runtime (report_tool-Told id p.update t.runtime n)
step-Told id (reader_stops cause) t h n = ground (arith, n)
step-Told id (prompt_returns result done) t h n =
    rw (prompt_answered-seen_calls t.sender result done t) n
step-Told id (session_returns answer) t h n = rw (session_answered-seen_calls t.sender answer t) n
step-Told id gives_up t h n = n
step-Told id closes t h n = ground (arith, n)
step-Told id takes t h n = rw (take_from-seen_calls t.runtime.active t h) n
step-Told id (context_ends e) t h n = cc

loop-Told :
    (id : String) (steps : List TurnStep) (t : Turn)
    → (turn_loop steps t).1 ≡ none
    → Told id t.runtime
    → Told id (turn_loop steps t).0.runtime
unfolding turn_loop
loop-Told id [] t h n = n
loop-Told id (s ∷ ss) t h n =
    goes_on (turn_step s t) h (λ e. step-Told id s t e n) (loop-Told id ss (turn_step s t).0)
  where
    goes_on :
        (now : Turn × Option PromptResult)
        → (or_later now (turn_loop ss now.0)).1 ≡ none
        → (now.1 ≡ none → Told id now.0.runtime)
        → ((turn_loop ss now.0).1 ≡ none
            → Told id now.0.runtime
            → Told id (turn_loop ss now.0).0.runtime)
        → Told id (or_later now (turn_loop ss now.0)).0.runtime
    goes_on (t', none) h here later = later h (here refl)
    goes_on (t', some o) h here later = cc

-- A call of a tool is reported once in a turn: after an update that tells that it runs, and whatever
-- happens then before `Run` returns, no update of the same call reports progress.
pub tool_told_once :
    (p q : SessionUpdate) (steps : List TurnStep) (t : Turn)
    → t.runtime.seen_tool_calls ≢ none
    → is_running_tool p.update ≡ true
    → q.update.tool_call_id ≡ p.update.tool_call_id
    → (turn_loop (updates p ∷ steps) t).1 ≡ none
    → (handle_session_update q (turn_loop (updates p ∷ steps) t).0.runtime).progress
      ≡ (turn_loop (updates p ∷ steps) t).0.runtime.progress
unfolding turn_loop turn_step
tool_told_once p q steps t map run same h =
    let r = handle_session_update p t.runtime in
    let t1 = record t { runtime = r } in
    let told : Told p.update.tool_call_id r =
      update-Told p.update.tool_call_id p t.runtime (report_tool-seen p.update t.runtime map run) in
    let later = loop-Told p.update.tool_call_id steps t1 h told in
    let end = (turn_loop steps t1).0.runtime in
    update_progress q end ∙ report_tool_again q.update end (rw same later)

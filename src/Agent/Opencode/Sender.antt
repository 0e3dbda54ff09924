-- ===== src/Agent/Opencode/Sender.antt =====
-- A turn while it runs, and the goroutine that sends its prompt (`sendPrompt`). What a call of the
-- server answers comes as an event, since it comes after a wait.

use channel_plugin.Prelude.{
  String, Bool, false, not, ◌&&◌, ◌||◌, Option, none, some, List, [], ◌∷◌, ◌++◌, length, ltb, ◌==◌,
  if◌then◌else◌,
}
use channel_plugin.Agent.Opencode.Defs.{
  OpencodeError, undecodable, empty_session_id, PromptEvent, ended, error_is, OpencodeRuntime,
  prompt_cap, try_put,
}

-- What a call of `session/new` comes to: an error of the call, an answer that cannot be decoded, or
-- the id in the answer.
pub data NewAnswer : Type 0 where
  call_failed : OpencodeError → NewAnswer
  garbled : NewAnswer
  id_is : String → NewAnswer

-- the calls that the goroutine makes, with the session
pub data SenderCall : Type 0 where
  session_prompt : String → SenderCall
  session_new : (work_dir : String) → SenderCall

-- Where `sendPrompt` stands: it waits for the answer to the prompt, for a new session after the error
-- of the prompt, for the answer to the second prompt, or for room in the buffer for the end.
pub data Sender : Type 0 where
  asking : String → Sender
  renewing : OpencodeError → Sender
  retrying waiting finished : Sender

-- `said` is the text that `Run` has taken so far.
pub record Turn : Type 0 where
  pub runtime : OpencodeRuntime
  pub sender : Sender
  pub calls : List SenderCall
  pub work_dir : String
  pub said : String

unfoldable pub keep_session : String → String → OpencodeRuntime → OpencodeRuntime
keep_session id work_dir r = record r {
  session_id = id;
  session_work_dir = work_dir;
  session_adopted = false;
}

-- `newSession` after its call: the error, if any, and the runtime
unfoldable pub new_session_answered :
    NewAnswer → String → OpencodeRuntime → Option OpencodeError × OpencodeRuntime
new_session_answered (call_failed e) work_dir r = (some e, r)
new_session_answered garbled work_dir r = (some undecodable, r)
new_session_answered (id_is id) work_dir r =
    if id == "" then (some empty_session_id, r) else (none, keep_session id work_dir r)

unfoldable pub on_buffer : (List PromptEvent → List PromptEvent) → OpencodeRuntime → OpencodeRuntime
on_buffer f r = elim r.active [
  | none ↦ r
  | some (session, queue) ↦ record r { active = some (session, f queue) }
]

-- the error of a turn: the goroutine leaves it if there is room, and ends
unfoldable pub sender_fails : OpencodeError → Turn → Turn
sender_fails e t = record t {
  runtime = on_buffer (try_put (error_is e)) t.runtime;
  sender = finished;
}

unfoldable pub signal_in : Option (String × List PromptEvent) → Turn → Turn
signal_in none t = record t { sender = finished }
signal_in (some (session, queue)) t =
    if ltb (length queue) prompt_cap
    then record t {
      runtime = record t.runtime { active = some (session, queue ++ ended ∷ []) };
      sender = finished;
    }
    else record t { sender = waiting }

-- `signalCompleted`: the end goes into the buffer, or waits for room.
unfoldable pub signal_completed : Turn → Turn
signal_completed t = signal_in t.runtime.active t

unfoldable pub clear_session : String → OpencodeRuntime → OpencodeRuntime
clear_session session r =
    if r.session_id == session
    then record r { session_id = ""; session_work_dir = ""; session_adopted = false }
    else r

-- After the prompt failed: a session that was adopted is given up for a new one, if the context is
-- not done by then.
unfoldable pub recover : String → OpencodeError → Bool → Turn → Turn
recover session e done t =
    if not (t.runtime.session_adopted && t.runtime.session_id == session) || done
    then sender_fails e t
    else record t {
      runtime = clear_session session t.runtime;
      sender = renewing e;
      calls = t.calls ++ session_new t.work_dir ∷ [];
    }

unfoldable pub prompt_answered_at : Sender → Option OpencodeError → Bool → Turn → Turn
prompt_answered_at (asking session) none done t = signal_completed t
prompt_answered_at (asking session) (some e) done t = recover session e done t
prompt_answered_at retrying none done t = signal_completed t
prompt_answered_at retrying (some e) done t = sender_fails e t
prompt_answered_at (renewing e) result done t = t
prompt_answered_at waiting result done t = t
prompt_answered_at finished result done t = t

-- The prompt is answered, with an error or without one.
unfoldable pub prompt_answered : Option OpencodeError → Bool → Turn → Turn
prompt_answered result done t = prompt_answered_at t.sender result done t

-- the running turn moves to the new session
unfoldable pub repoint : String → OpencodeRuntime → OpencodeRuntime
repoint id r = elim r.active [
  | none ↦ r
  | some (session, queue) ↦ record r { active = some (id, queue) }
]

unfoldable pub retry : String → Turn → Turn
retry id t = record t {
  runtime = repoint id t.runtime;
  sender = retrying;
  calls = t.calls ++ session_prompt id ∷ [];
}

-- `sendPrompt` after `newSession`
unfoldable pub on_new : OpencodeError → Option OpencodeError → OpencodeRuntime → Turn → Turn
on_new cause (some e) r t = sender_fails cause (record t { runtime = r })
on_new cause none r t = retry r.session_id (record t { runtime = r })

unfoldable pub session_answered_at : Sender → NewAnswer → Turn → Turn
session_answered_at (renewing cause) answer t =
    let (failed, r) = new_session_answered answer t.work_dir t.runtime in on_new cause failed r t
session_answered_at (asking session) answer t = t
session_answered_at retrying answer t = t
session_answered_at waiting answer t = t
session_answered_at finished answer t = t

-- The call of `session/new` in `sendPrompt` is answered. Where that fails, the turn gets the error of
-- its prompt.
unfoldable pub session_answered : NewAnswer → Turn → Turn
session_answered answer t = session_answered_at t.sender answer t

-- the other case of the `select` of `signalCompleted`
unfoldable pub give_up : Sender → Sender
give_up waiting = finished
give_up (asking session) = asking session
give_up (renewing e) = renewing e
give_up retrying = retrying
give_up finished = finished

-- When `Run` takes an event out of the buffer, the end that waits for room goes in.
unfoldable pub after_take : List PromptEvent → Sender → List PromptEvent × Sender
after_take rest waiting = (rest ++ ended ∷ [], finished)
after_take rest (asking session) = (rest, asking session)
after_take rest (renewing e) = (rest, renewing e)
after_take rest retrying = (rest, retrying)
after_take rest finished = (rest, finished)

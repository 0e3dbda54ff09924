-- ===== src/Orchestration/Tasks.antt =====
-- internal/app/orchestration/task_store.go. A `*Task` never leaves the store, so the map holds the tasks
-- themselves. Every method runs under the store's mutex and is one function; the clock's reading and
-- the new id are arguments.
pub mod Lifecycle
use channel_plugin.Prelude.{
  ℕ, String, Bool, true, false, not, ◌&&◌, Option, none, some, List, ◌==◌, if◌then◌else◌,
}
use channel_plugin.GoMap
use channel_plugin.GoMap.{GoMap}

pub data TaskState : Type 0 where
  submitted working completed failed canceled : TaskState

unfoldable pub terminal : TaskState → Bool
terminal completed = true
terminal failed = true
terminal canceled = true
terminal _ = false

pub record Task : Type 0 where
  pub id : String
  pub agent_name : String
  pub prompt : String
  pub state : TaskState
  pub result : String
  pub error : String
  pub created_at : ℕ
  pub updated_at : ℕ

abbrev pub TaskStore : Type 0
TaskStore = GoMap Task

unfoldable pub new_task : String → ℕ → String → String → Task
new_task id now agent_name prompt = record {
  id = id;
  agent_name = agent_name;
  prompt = prompt;
  state = submitted;
  result = "";
  error = "";
  created_at = now;
  updated_at = now;
}

-- `Create`, with the id that is drawn for the task.
unfoldable pub create : TaskStore → String → ℕ → String → String → TaskStore × Task
unfolding new_task
create s id now agent_name prompt =
    let t = new_task id now agent_name prompt in (GoMap.put s id t, t)

-- `Get`
unfoldable pub get_task : TaskStore → String → Option Task
get_task s id = GoMap.get s id

-- `List`
unfoldable pub list_tasks : TaskStore → List Task
list_tasks s = GoMap.values s

-- `if new != "" { field = new }`
abbrev pub overwrite : String → String → String
overwrite new old = if new == "" then old else new

unfoldable pub moved : Task → ℕ → TaskState → String → String → Task
moved t now state result error = record t {
  state = state;
  result = overwrite result t.result;
  error = overwrite error t.error;
  updated_at = now;
}

unfoldable pub transition : TaskStore → String → ℕ → TaskState → String → String → TaskStore
unfolding moved terminal
transition s id now state result error = elim (GoMap.get s id) [
  | none ↦ s
  | some t ↦ if terminal t.state then s else GoMap.put s id (moved t now state result error)
]

unfoldable pub set_working : TaskStore → String → ℕ → TaskStore
unfolding transition
set_working s id now = transition s id now working "" ""

unfoldable pub complete : TaskStore → String → ℕ → String → TaskStore
unfolding transition
complete s id now result = transition s id now completed result ""

unfoldable pub fail : TaskStore → String → ℕ → String → TaskStore
unfolding transition
fail s id now message = transition s id now failed "" message

unfoldable pub cancel : TaskStore → String → ℕ → TaskStore × Bool
unfolding terminal
cancel s id now = elim (GoMap.get s id) [
  | none ↦ (s, false)
  | some t ↦
      if terminal t.state
      then (s, false)
      else (GoMap.put s id (record t { state = canceled; updated_at = now }), true)
]

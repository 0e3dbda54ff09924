-- ===== src/Orchestration/Dispatch.antt =====
-- internal/app/orchestration/mcp.go and runner.go: the tools over agents and tasks, and the run of a
-- task by a local or a remote agent.
use Prim.Native.String
use channel_plugin.Prelude.{ℕ, String, Option, none, some, List, [], ◌∷◌, ◌==◌, if◌then◌else◌}
use channel_plugin.Domain.{RegisteredAgent, kind_local, kind_remote, unhealthy}
use channel_plugin.Agent.Types.{Spec, Request}
use channel_plugin.Orchestration.Tasks.{
  TaskState, submitted, working, canceled, completed, failed, TaskStore, create, get_task,
  set_working, complete, fail,
}
use channel_plugin.Orchestration.Tasks.Lifecycle.{Call, calls}

-- What a run gives: its text, or an error and its message.
pub data RunOutcome : Type 0 where
  answered : String → RunOutcome
  broke : String → RunOutcome

-- The resolver and the executor of `LocalRunner`: each answers, or breaks with a message. `subtask` is
-- the id that is drawn for the run.
pub record LocalRunner : Type 0 where
  pub subtask : String
  pub resolve : String → Option Spec
  pub resolve_error : String → String
  pub send : String → Spec → Request → RunOutcome

unfoldable pub run_local : LocalRunner → RegisteredAgent → String → RunOutcome
run_local l a prompt = elim (l.resolve a.bot_id) [
  | none ↦ broke (
      String.◌++◌ "resolve sub-agent "
        (String.◌++◌ a.bot_id (String.◌++◌ ": " (l.resolve_error a.bot_id))))
  | some spec ↦
      l.send a.bot_id spec
        (record { bot_id = a.bot_id; user_id = ""; message_id = l.subtask; prompt = prompt })
]

-- `Runner`; either of its parts may be nil.
pub record Runner : Type 0 where
  pub local : Option LocalRunner
  pub remote : Option (RegisteredAgent → String → RunOutcome)

-- `%q` of the kind is written with plain quotes.
unfoldable pub run : Runner → RegisteredAgent → String → RunOutcome
unfolding run_local
run r a prompt =
    if a.kind == kind_local
    then elim r.local [ none ↦ broke "local runner not configured" | some l ↦ run_local l a prompt ]
    else if a.kind == kind_remote
    then elim r.remote [ none ↦ broke "remote runner not configured" | some f ↦ f a prompt ]
    else broke (String.◌++◌ "unknown agent kind \"" (String.◌++◌ a.kind "\""))

pub record AgentInfo : Type 0 where
  pub name : String
  pub description : String
  pub kind : String
  pub health : String

abbrev pub info : RegisteredAgent → AgentInfo
info a = record { name = a.name; description = a.description; kind = a.kind; health = a.health }

-- `ListAgents` over the agents of the registry.
unfoldable pub list_agents : List RegisteredAgent → List AgentInfo
list_agents [] = []
list_agents (a ∷ more) =
    let rest = list_agents more in if a.health == unhealthy then rest else info a ∷ rest

-- The end of the goroutine of `Dispatch`; a run that never returns has no outcome.
unfoldable pub record_outcome : TaskStore → String → ℕ → Option RunOutcome → TaskStore
record_outcome s id now none = s
record_outcome s id now (some (answered text)) = complete s id now text
record_outcome s id now (some (broke message)) = fail s id now message

-- `Dispatch` with its goroutine, for the agent that the registry has under the name, where `others` and
-- `meanwhile` are the calls that come between: before the goroutine runs, and while the agent works,
-- for ever where the run never returns. (A panic in it ends the program.)
unfoldable pub dispatch :
    (RegisteredAgent → String → Option RunOutcome)
    → TaskStore
    → RegisteredAgent
    → String
    → String
    → ℕ
    → List Call
    → List Call
    → TaskStore
unfolding record_outcome
dispatch runner s a prompt id now others meanwhile =
    let s₁ = calls (create s id now a.name prompt).0 others in
    record_outcome (calls (set_working s₁ id now) meanwhile) id now (runner a prompt)

-- `Dispatch` with the lookup of the agent: what is left, and the task's id, `none` for an unknown agent.
unfoldable pub dispatch_tool :
    (String → Option RegisteredAgent)
    → (RegisteredAgent → String → Option RunOutcome)
    → TaskStore
    → String
    → String
    → String
    → ℕ
    → List Call
    → List Call
    → TaskStore × Option String
unfolding dispatch
dispatch_tool find runner s name prompt id now others meanwhile = elim (find name) [
  | none ↦ (s, none)
  | some a ↦ (dispatch runner s a prompt id now others meanwhile, some id)
]

-- The texts of the states.
abbrev pub state_name : TaskState → String
state_name submitted = "submitted"
state_name working = "working"
state_name completed = "completed"
state_name failed = "failed"
state_name canceled = "canceled"

pub record GetTaskOutput : Type 0 where
  pub task_id : String
  pub agent_name : String
  pub state : String
  pub result : String
  pub error : String

-- `GetTask` of the tools: `none` for an unknown task.
unfoldable pub get_task_tool : TaskStore → String → Option GetTaskOutput
unfolding get_task
get_task_tool s id = elim (get_task s id) [
  | none ↦ none
  | some t ↦ some (record {
    task_id = t.id;
    agent_name = t.agent_name;
    state = state_name t.state;
    result = t.result;
    error = t.error;
  })
]
